-- ===== src/Xerrors.antt =====
-- pkg/xerrors/xerrors.go: errors with an HTTP status. A Go `error` is nil (`none`), a
-- `*StatusError`, or an error of another type, of which only its text is read.
use xuandb.Prelude.{ℕ, Option, none, some, Bool, false, ◌&&◌, ◌==◌}
use xuandb.Prelude.Text.{Text, text_eq}

pub record StatusError : Type 0 where
  pub status_code : ℕ
  pub msg : Text

pub data Error : Type 0 where
  status : StatusError → Error
  other : Text → Error

-- `err.Error()`
unfoldable pub message : Error → Text
message (status e) = e.msg
message (other t) = t

abbrev pub new : ℕ → Text → Error
new code msg = status (record { status_code = code; msg = msg })

-- A response is its status code and its body.
unfoldable pub from_http_response : ℕ → Text → Error
from_http_response code body = new code body

-- `Wrap(err, code)` keeps nil and a status error, and gives any other error the code.
unfoldable pub wrap : Option Error → ℕ → Option Error
wrap none code = none
wrap (some (status e)) code = some (status e)
wrap (some (other t)) code = some (new code t)

-- The http.Status constants.
abbrev pub no_content : ℕ
no_content = 204

abbrev pub bad_request : ℕ
bad_request = 400

abbrev pub unauthorized : ℕ
unauthorized = 401

abbrev pub forbidden : ℕ
forbidden = 403

abbrev pub not_found : ℕ
not_found = 404

abbrev pub conflict : ℕ
conflict = 409

abbrev pub internal_server_error : ℕ
internal_server_error = 500

abbrev pub service_unavailable : ℕ
service_unavailable = 503

-- Equality of errors with a status: the variables of the program differ in code or text.
unfoldable pub same_error : Error → Error → Bool
same_error (status a) (status b) = a.status_code == b.status_code && text_eq a.msg b.msg
same_error _ _ = false
