-- ===== src/Cli/Errors.antt =====
-- src/adapters/cli/errors.ts: the error classes of a command-line run, with the `code` and
-- `retryable` constant of each.
use rolekit.Common.{Bool, true, false, Option, none, ℕ}
use rolekit.Common.Text.{Text, codes}

pub data ErrorClass : Type 0 where
  timeout_error aborted_error output_limit_error spawn_error exit_error : ErrorClass
  configuration_error authentication_error protocol_error io_error adapter_error : ErrorClass

unfoldable pub error_code : ErrorClass → Text
error_code timeout_error = codes "timeout"
error_code aborted_error = codes "cancelled"
error_code output_limit_error = codes "output_limit_exceeded"
error_code spawn_error = codes "spawn_failed"
error_code exit_error = codes "nonzero_exit"
error_code configuration_error = codes "configuration_error"
error_code authentication_error = codes "authentication_failed"
error_code protocol_error = codes "protocol_error"
error_code io_error = codes "io_error"
error_code adapter_error = codes "adapter_error"

unfoldable pub retryable : ErrorClass → Bool
retryable timeout_error = true
retryable aborted_error = false
retryable output_limit_error = false
retryable spawn_error = true
retryable exit_error = true
retryable configuration_error = false
retryable authentication_error = false
retryable protocol_error = false
retryable io_error = true
retryable adapter_error = true

-- One record for all classes; the optional fields are those of `CliSpawnError` and `CliExitError`.
pub record CliError : Type 0 where
  pub kind : ErrorClass
  pub message : Text
  pub exit_code : Option ℕ
  pub signal : Option Text
  pub stdout : Option Text
  pub stderr : Option Text
  pub command_display : Option Text

-- `new C(message)` for a class with no options
unfoldable pub plain_error : ErrorClass → Text → CliError
plain_error kind message = record {
  kind = kind;
  message = message;
  exit_code = none;
  signal = none;
  stdout = none;
  stderr = none;
  command_display = none;
}
