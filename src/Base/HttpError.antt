-- ===== src/Base/HttpError.antt =====
-- The HTTP exceptions that the services throw, with their codes (or messages, where the source
-- gives no code).
use Prim.Native.String.{String}
use mathlib.Core.Bool.{Bool, true, false}

pub data HttpError : Type 0 where
  bad_request not_found forbidden conflict unauthorized : String → HttpError

-- `error instanceof NotFoundException`
abbrev pub is_not_found : HttpError → Bool
is_not_found (not_found code) = true
is_not_found _ = false
