-- ===== src/Common/Thrown.antt =====
-- What a `catch` clause receives. Reading the message of a hostile value may throw in its turn.
use rolekit.Common.Lists.{length}
use rolekit.Common.Tests.{ltb, if◌then◌else◌}
use rolekit.Common.Text.{Text}

pub data Thrown : Type 0 where
  an_error : Text → Thrown  -- an `Error`, with its message
  a_string : Text → Thrown
  another : Thrown  -- any other value, or an `Error` whose message cannot be read

-- The `safeErrorMessage` functions of the source, which differ in the fallback alone.
unfoldable pub safe_error_message : Text → Thrown → Text
safe_error_message fallback (an_error message) =
    if ltb 0 (length message) then message else fallback
safe_error_message fallback (a_string text) = if ltb 0 (length text) then text else fallback
safe_error_message fallback another = fallback
