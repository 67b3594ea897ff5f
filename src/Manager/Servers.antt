-- ===== src/Manager/Servers.antt =====
-- The options of the webhook server and of the metrics server, cmd/main.go.
use site_operator.Common.{String, Bool, true, false, List, [], ◌∷◌, ◌==◌, ◌≡◌, if◌then◌else◌, arith}
use site_operator.Manager.CommandLine.{Flags}

-- A `tls.Config`, in the one field that the options set.
pub record TlsConfig : Type 0 where
  pub next_protos : List String

unfoldable pub disable_http2 : TlsConfig → TlsConfig
disable_http2 c = record c { next_protos = "http/1.1" ∷ [] }

unfoldable pub tls_opts : Flags → List (TlsConfig → TlsConfig)
tls_opts f = if f.enable_http2 then [] else disable_http2 ∷ []

-- `webhook.Options`
pub record WebhookOptions : Type 0 where
  pub tls_opts : List (TlsConfig → TlsConfig)
  pub cert_dir : String
  pub cert_name : String
  pub key_name : String

unfoldable pub webhook_options : Flags → WebhookOptions
webhook_options f =
    let initial : WebhookOptions = record {
      tls_opts = tls_opts f;
      cert_dir = "";
      cert_name = "";
      key_name = "";
    } in
    if f.webhook_cert_path == "" then initial else record initial {
      cert_dir = f.webhook_cert_path;
      cert_name = f.webhook_cert_name;
      key_name = f.webhook_cert_key;
    }

-- `metricsserver.Options`; `filtered` says that the FilterProvider is set, which lets in only those
-- who are authenticated and authorized.
pub record MetricsOptions : Type 0 where
  pub bind_address : String
  pub secure_serving : Bool
  pub tls_opts : List (TlsConfig → TlsConfig)
  pub filtered : Bool
  pub cert_dir : String
  pub cert_name : String
  pub key_name : String

unfoldable pub metrics_options : Flags → MetricsOptions
metrics_options f =
    let initial : MetricsOptions = record {
      bind_address = f.metrics_addr;
      secure_serving = f.secure_metrics;
      tls_opts = tls_opts f;
      filtered = false;
      cert_dir = "";
      cert_name = "";
      key_name = "";
    } in
    let protected = if f.secure_metrics then record initial { filtered = true } else initial in
    if f.metrics_cert_path == "" then protected else record protected {
      cert_dir = f.metrics_cert_path;
      cert_name = f.metrics_cert_name;
      key_name = f.metrics_cert_key;
    }

-- The options applied in turn, as the servers do.
abbrev pub configured : List (TlsConfig → TlsConfig) → TlsConfig → TlsConfig
configured [] c = c
configured (o ∷ os) c = configured os (o c)

-- What both servers negotiate: whatever their TLS configuration was, HTTP/1.1 alone unless HTTP/2
-- is enabled, and then what it said before.
pub servers_negotiate :
    (f : Flags) (c : TlsConfig)
    → let protos = if f.enable_http2 then c.next_protos else "http/1.1" ∷ [] in
      ((configured (metrics_options f).tls_opts c).next_protos ≡ protos)
      × ((configured (webhook_options f).tls_opts c).next_protos ≡ protos)
unfolding metrics_options webhook_options tls_opts disable_http2
servers_negotiate f c = ground arith
