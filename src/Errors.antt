-- ===== src/Errors.antt =====
-- agent/cg-agent/src/errors.rs: the errors that end the agent, the exit code of each and its line. The
-- system's message for a Win32 code is an argument.
use cyber_guard_enterprise.Prelude.{ℕ, ◌||◌, ◌++◌, Text, bytes, ◌==◌, if◌then◌else◌}
use cyber_guard_enterprise.Prelude.Print.{to_decimal}
use cyber_guard_enterprise.Config.Types.{ConfigError, not_found, io, parse, missing_key, invalid}
use cyber_guard_enterprise.Etw.Types.{
  OpenError, privilege_not_held, access_denied, failed, unsupported,
}

-- A text displayed with its prefix.
abbrev pub line : Text → Text
line message = bytes "cg-agent: " ++ message

abbrev pub display_config : ConfigError → Text
display_config (not_found path) = bytes "config file not found: " ++ path
display_config (io e) = bytes "failed to read config file: " ++ e
display_config (parse message position) = bytes "failed to parse config TOML: " ++ message
display_config (missing_key key) = bytes "invalid config: missing key '" ++ key ++ bytes "'"
display_config (invalid reason) = bytes "invalid config: " ++ reason

pub data TransportError : Type 0 where
  network : Text → TransportError
  bad_status : ℕ → TransportError
  retry_exhausted : (attempts : ℕ) (last_error : Text) → TransportError
  timeout : ℕ → TransportError

abbrev pub display_transport : TransportError → Text
display_transport (network e) = bytes "transport error: " ++ e
display_transport (bad_status status) = bytes "server returned non-2xx: " ++ to_decimal status
display_transport (retry_exhausted attempts last_error) =
    bytes "retry budget exhausted after "
    ++ to_decimal attempts
    ++ bytes " attempts: "
    ++ last_error
display_transport (timeout ms) = bytes "request timed out after " ++ to_decimal ms ++ bytes " ms"

pub data SecureStoreError : Type 0 where
  seal unseal : Text → SecureStoreError

abbrev pub display_store : SecureStoreError → Text
display_store (seal e) = bytes "seal failed: " ++ e
display_store (unseal e) = bytes "unseal failed (wrong machine, or corrupted blob): " ++ e

pub data TlsError : Type 0 where
  server_cert_untrusted client_cert_rejected client_config : Text → TlsError

unfoldable pub tls_exit_code : TlsError → ℕ
tls_exit_code (server_cert_untrusted m) = 6
tls_exit_code (client_config m) = 6
tls_exit_code (client_cert_rejected m) = 7

unfoldable pub tls_stderr_line : TlsError → Text
tls_stderr_line (server_cert_untrusted m) =
    line (bytes "tls: server certificate verification failed: " ++ m)
tls_stderr_line (client_config m) = line (bytes "tls: client configuration failed: " ++ m)
tls_stderr_line (client_cert_rejected m) = line (bytes "tls: server rejected client certificate")

pub data EnrollmentError : Type 0 where
  missing_token : EnrollmentError
  refused : Text → EnrollmentError
  unreachable : (attempts : ℕ) (last_error : Text) → EnrollmentError
  persistence : Text → EnrollmentError
  tls : TlsError → EnrollmentError

unfoldable pub enrollment_exit_code : EnrollmentError → ℕ
enrollment_exit_code missing_token = 2
enrollment_exit_code (refused m) = 3
enrollment_exit_code (unreachable attempts last_error) = 4
enrollment_exit_code (persistence m) = 5
enrollment_exit_code (tls e) = tls_exit_code e

unfoldable pub enrollment_stderr_line : EnrollmentError → Text
enrollment_stderr_line missing_token = line (bytes "invalid config: missing key 'enrollment.token'")
enrollment_stderr_line (refused m) = line (bytes "enrollment failed: " ++ m)
enrollment_stderr_line (unreachable attempts last_error) = line (
    bytes "enrollment failed: server unreachable after "
    ++ to_decimal attempts
    ++ bytes " attempts")
enrollment_stderr_line (persistence m) = line (bytes "identity error: " ++ m)
enrollment_stderr_line (tls e) = tls_stderr_line e

pub data SigningError : Type 0 where
  canonical sign : Text → SigningError

unfoldable pub signing_exit_code : SigningError → ℕ
signing_exit_code e = 8

abbrev pub signing_display : SigningError → Text
signing_display (canonical m) = bytes "canonicalization failed: " ++ m
signing_display (sign m) = bytes "signature operation failed: " ++ m

pub data EtwError : Type 0 where
  etw_privilege_not_held etw_access_denied : EtwError
  etw_failed : (code : ℕ) (message : Text) → EtwError
  etw_unsupported : EtwError

-- `From<OpenError>`.
unfoldable pub etw_of_open : (ℕ → Text) → OpenError → EtwError
etw_of_open win32_message privilege_not_held = etw_privilege_not_held
etw_of_open win32_message access_denied = etw_access_denied
etw_of_open win32_message (failed code) = etw_failed code (win32_message code)
etw_of_open win32_message unsupported = etw_unsupported

unfoldable pub etw_exit_code : EtwError → ℕ
etw_exit_code etw_privilege_not_held = 9
etw_exit_code etw_access_denied = 9
etw_exit_code (etw_failed code message) = 1
etw_exit_code etw_unsupported = 1

abbrev pub stderr_insufficient_privilege : Text
stderr_insufficient_privilege =
    bytes
      "cg-agent: insufficient privilege to open Microsoft-Windows-Kernel-Process ETW session; run as elevated user or LocalSystem"

unfoldable pub etw_stderr_line : EtwError → Text
etw_stderr_line etw_privilege_not_held = stderr_insufficient_privilege
etw_stderr_line etw_access_denied = stderr_insufficient_privilege
etw_stderr_line (etw_failed code message) =
    line (bytes "ETW session open failed: " ++ to_decimal code ++ bytes " " ++ message)
etw_stderr_line etw_unsupported = line (bytes "ETW capture is not available on this platform")

pub data LogonError : Type 0 where
  logon_access_denied : LogonError
  logon_failed : (code : ℕ) (message : Text) → LogonError

unfoldable pub logon_from_win32 : (ℕ → Text) → ℕ → LogonError
logon_from_win32 win32_message code =
    if code == 5 || code == 1314
    then logon_access_denied
    else logon_failed code (win32_message code)

unfoldable pub logon_exit_code : LogonError → ℕ
logon_exit_code logon_access_denied = 9
logon_exit_code (logon_failed code message) = 1

unfoldable pub logon_stderr_line : LogonError → Text
logon_stderr_line logon_access_denied =
    line (bytes "insufficient privilege to read the Security log; run as elevated user")
logon_stderr_line (logon_failed code message) =
    line (bytes "Security log subscription failed: " ++ to_decimal code ++ bytes " " ++ message)

pub data AgentError : Type 0 where
  config : ConfigError → AgentError
  transport : TransportError → AgentError
  enrollment : EnrollmentError → AgentError
  secure_store : SecureStoreError → AgentError
  agent_tls : TlsError → AgentError
  signing : SigningError → AgentError
  etw : EtwError → AgentError
  logon : LogonError → AgentError

unfoldable pub exit_code : AgentError → ℕ
exit_code (agent_tls e) = tls_exit_code e
exit_code (signing e) = signing_exit_code e
exit_code (enrollment e) = enrollment_exit_code e
exit_code (config e) = 2
exit_code (etw e) = etw_exit_code e
exit_code (logon e) = logon_exit_code e
exit_code (transport e) = 1
exit_code (secure_store e) = 1

abbrev pub display_enrollment : EnrollmentError → Text
display_enrollment missing_token = bytes "invalid config: missing key 'enrollment.token'"
display_enrollment (refused m) = bytes "enrollment refused: " ++ m
display_enrollment (unreachable attempts last_error) =
    bytes "server unreachable after " ++ to_decimal attempts ++ bytes " attempts: " ++ last_error
display_enrollment (persistence m) = bytes "identity persistence/load failed: " ++ m
display_enrollment (tls (server_cert_untrusted m)) =
    bytes "server certificate verification failed: " ++ m
display_enrollment (tls (client_cert_rejected m)) =
    bytes "server rejected client certificate: " ++ m
display_enrollment (tls (client_config m)) = bytes "tls client configuration failed: " ++ m

unfoldable pub stderr_line : AgentError → Text
stderr_line (agent_tls e) = tls_stderr_line e
stderr_line (signing e) = line (bytes "signing failed: " ++ signing_display e)
stderr_line (etw e) = etw_stderr_line e
stderr_line (logon e) = logon_stderr_line e
stderr_line (config e) = line (display_config e)
stderr_line (transport e) = line (display_transport e)
stderr_line (enrollment e) = line (display_enrollment e)
stderr_line (secure_store e) = line (display_store e)
