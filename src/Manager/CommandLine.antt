-- ===== src/Manager/CommandLine.antt =====
-- The command-line flags of cmd/main.go. The flags of zap, which configure the logger, and
-- the flag kubeconfig, which controller-runtime adds, are left out.
pub mod Laws
use site_operator.Common.{
  ℕ, ◌||◌, String, Bool, true, false, Option, none, some, List, [], ◌∷◌, lookup, ◌==◌,
  if◌then◌else◌,
}

pub record Flags : Type 0 where
  pub metrics_addr : String
  pub run_wp_cron : Bool
  pub default_maria_db_name : String
  pub default_maria_db_namespace : String
  pub default_storage_class_name : String
  pub probe_addr : String
  pub enable_leader_election : Bool
  pub secure_metrics : Bool
  pub webhook_cert_path : String
  pub webhook_cert_name : String
  pub webhook_cert_key : String
  pub metrics_cert_path : String
  pub metrics_cert_name : String
  pub metrics_cert_key : String
  pub enable_http2 : Bool

abbrev pub default_flags : Flags
default_flags = record {
  metrics_addr = "0";
  run_wp_cron = false;
  default_maria_db_name = "";
  default_maria_db_namespace = "";
  default_storage_class_name = "";
  probe_addr = ":8081";
  enable_leader_election = false;
  secure_metrics = true;
  webhook_cert_path = "";
  webhook_cert_name = "tls.crt";
  webhook_cert_key = "tls.key";
  metrics_cert_path = "";
  metrics_cert_name = "tls.crt";
  metrics_cert_key = "tls.key";
  enable_http2 = false;
}

-- How a flag's value is stored: a `flag.StringVar` or a `flag.BoolVar`.
pub data Variable : Type 0 where
  string_var : (String → Flags → Flags) → Variable
  bool_var : (Bool → Flags → Flags) → Variable

-- The flags, under their names.
unfoldable pub variables : List (String × Variable)
variables =
    ("metrics-bind-address", string_var λ v f. record f { metrics_addr = v })
    ∷ ("run-wp-cron", bool_var λ v f. record f { run_wp_cron = v })
    ∷ ("default-mariadb-name", string_var λ v f. record f { default_maria_db_name = v })
    ∷ ("default-mariadb-namespace", string_var λ v f. record f { default_maria_db_namespace = v })
    ∷ ("default-storage-class-name", string_var λ v f. record f { default_storage_class_name = v })
    ∷ ("health-probe-bind-address", string_var λ v f. record f { probe_addr = v })
    ∷ ("leader-elect", bool_var λ v f. record f { enable_leader_election = v })
    ∷ ("metrics-secure", bool_var λ v f. record f { secure_metrics = v })
    ∷ ("webhook-cert-path", string_var λ v f. record f { webhook_cert_path = v })
    ∷ ("webhook-cert-name", string_var λ v f. record f { webhook_cert_name = v })
    ∷ ("webhook-cert-key", string_var λ v f. record f { webhook_cert_key = v })
    ∷ ("metrics-cert-path", string_var λ v f. record f { metrics_cert_path = v })
    ∷ ("metrics-cert-name", string_var λ v f. record f { metrics_cert_name = v })
    ∷ ("metrics-cert-key", string_var λ v f. record f { metrics_cert_key = v })
    ∷ ("enable-http2", bool_var λ v f. record f { enable_http2 = v })
    ∷ []

-- `strconv.ParseBool`
unfoldable pub parse_bool : String → Option Bool
parse_bool s =
    if is_one_of ("1" ∷ "t" ∷ "T" ∷ "TRUE" ∷ "true" ∷ "True" ∷ [])
    then some true
    else if is_one_of ("0" ∷ "f" ∷ "F" ∷ "FALSE" ∷ "false" ∷ "False" ∷ [])
    then some false
    else none
  where
    is_one_of : List String → Bool
    is_one_of [] = false
    is_one_of (t ∷ ts) = if s == t then true else is_one_of ts

unfoldable pub assign : Variable → String → Flags → Option Flags
assign (string_var set) v f = some (set v f)
assign (bool_var set) v f = elim (parse_bool v) [ none ↦ none | some b ↦ some (set b f) ]

-- One flag `-name=value`; an unknown name is refused.
unfoldable pub set_flag : String → String → Flags → Option Flags
set_flag name v f = elim (lookup name variables) [ none ↦ none | some x ↦ assign x v f ]

-- `flag.Parse` of a sequence of flags, the first that is refused ending it.
unfoldable pub parse : List (String × String) → Flags → Option Flags
parse [] f = some f
parse ((name, v) ∷ rest) f = elim (set_flag name v f) [ none ↦ none | some g ↦ parse rest g ]

-- The status that `flag.Parse` ends the process with at the flag that it refuses: to ask for help,
-- for which no flag is defined, is no misuse.
unfoldable pub refused_status : List (String × String) → Flags → ℕ
refused_status [] f = 2
refused_status ((name, v) ∷ rest) f = elim (set_flag name v f) [
  | none ↦ if name == "h" || name == "help" then 0 else 2
  | some g ↦ refused_status rest g
]
