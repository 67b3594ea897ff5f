-- ===== src/Manager/CommandLine/Laws.antt =====
-- Flags that are written out and read back.
use site_operator.Common.{
  format_bool, String, Bool, true, false, some, List, [], ◌∷◌, lookup, ◌≡◌, refl,
}
use site_operator.Manager.CommandLine.{
  Flags, string_var, bool_var, variables, parse_bool, assign, set_flag, parse,
}

parse_bool-format_bool : (b : Bool) → parse_bool (format_bool b) ≡ some b
unfolding parse_bool format_bool
parse_bool-format_bool true = refl
parse_bool-format_bool false = refl

-- A command line that gives every flag its value.
abbrev pub command_line : Flags → List (String × String)
command_line f =
    ("metrics-bind-address", f.metrics_addr)
    ∷ ("run-wp-cron", format_bool f.run_wp_cron)
    ∷ ("default-mariadb-name", f.default_maria_db_name)
    ∷ ("default-mariadb-namespace", f.default_maria_db_namespace)
    ∷ ("default-storage-class-name", f.default_storage_class_name)
    ∷ ("health-probe-bind-address", f.probe_addr)
    ∷ ("leader-elect", format_bool f.enable_leader_election)
    ∷ ("metrics-secure", format_bool f.secure_metrics)
    ∷ ("webhook-cert-path", f.webhook_cert_path)
    ∷ ("webhook-cert-name", f.webhook_cert_name)
    ∷ ("webhook-cert-key", f.webhook_cert_key)
    ∷ ("metrics-cert-path", f.metrics_cert_path)
    ∷ ("metrics-cert-name", f.metrics_cert_name)
    ∷ ("metrics-cert-key", f.metrics_cert_key)
    ∷ ("enable-http2", format_bool f.enable_http2)
    ∷ []

module _ (name : String) (rest : List (String × String)) (f : Flags) {g : Flags} where
  bool_then :
      (set : Bool → Flags → Flags) (b : Bool)
      → lookup name variables ≡ some (bool_var set)
      → parse rest (set b f) ≡ some g
      → parse ((name, format_bool b) ∷ rest) f ≡ some g
  unfolding parse set_flag assign
  bool_then set b e later = rw (e, parse, set_flag) (rw (parse_bool-format_bool b, assign) later)

  string_then :
      (set : String → Flags → Flags) (v : String)
      → lookup name variables ≡ some (string_var set)
      → parse rest (set v f) ≡ some g
      → parse ((name, v) ∷ rest) f ≡ some g
  unfolding parse set_flag assign
  string_then set v e later = rw (e, parse, set_flag) later

parse_none : (f : Flags) → parse [] f ≡ some f
unfolding parse
parse_none f = refl

-- Whatever the flags were, a command line that gives every flag its value leaves them at these
-- values: each name sets its own flag and no other.
pub parse-command_line : (f before : Flags) → parse (command_line f) before ≡ some f
unfolding variables lookup
parse-command_line f before =
    (string_then _ _ _ _ f.metrics_addr refl (
      bool_then _ _ _ _ f.run_wp_cron refl (
        string_then _ _ _ _ f.default_maria_db_name refl (
          string_then _ _ _ _ f.default_maria_db_namespace refl (
            string_then _ _ _ _ f.default_storage_class_name refl (
              string_then _ _ _ _ f.probe_addr refl (
                bool_then _ _ _ _ f.enable_leader_election refl (
                  bool_then _ _ _ _ f.secure_metrics refl (
                    string_then _ _ _ _ f.webhook_cert_path refl (
                      string_then _ _ _ _ f.webhook_cert_name refl (
                        string_then _ _ _ _ f.webhook_cert_key refl (
                          string_then _ _ _ _ f.metrics_cert_path refl (
                            string_then _ _ _ _ f.metrics_cert_name refl (
                              string_then _ _ _ _ f.metrics_cert_key refl
                                (bool_then _ _ _ _ f.enable_http2 refl (parse_none f))))))))))))))))
