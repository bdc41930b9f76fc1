-- ===== src/Meta/Handler.antt =====
-- The HTTP handlers of pkg/meta/user.go and database.go on the leader: what the JSON decoder or
-- `FormValue` gives is an argument. `http.Error` ends its text with a newline.
pub mod Errors
use xuandb.Prelude.{
  ℕ, Bool, ◌||◌, ◌&&◌, not, [], ◌∷◌, ◌++◌, Option, none, some, ◌==◌, if◌then◌else◌,
}
use xuandb.Prelude.Text.{Text, codes, text_eq}
use xuandb.Prelude.Unicode.{Unicode}
use xuandb.Xerrors.{Error, status, other, message, no_content, bad_request}
use xuandb.Meta.Privilege.{privilege_admin, outside_mask}
use xuandb.Meta.Types.{User, Database, Service}
use xuandb.Meta.Leader.{
  RaftAnswer, leader_create_user, leader_drop_user, leader_set_password, leader_create_database,
  leader_drop_database,
}

pub data Body {ℓ} (A : Type ℓ) : Type ℓ where
  undecodable : Error → Body A
  body : A → Body A

pub record Reply : Type 0 where
  pub code : ℕ
  pub text : Text

-- A reply, or the panic of a type assertion on an error that is no `*StatusError`.
pub data Handled : Type 0 where
  replied : Reply → Handled
  assertion_failed : Handled

abbrev pub http_error : Text → ℕ → Handled
http_error msg code = replied (record { code = code; text = msg ++ b'\n' ∷ [] })

-- `if err != nil { se := err.(*xerrors.StatusError); http.Error(…) }`, else 204.
unfoldable pub finish : Option Error → Handled
finish none = replied (record { code = no_content; text = [] })
finish (some (status e)) = http_error e.msg e.status_code
finish (some (other t)) = assertion_failed

unfoldable pub finish_with : Service × Option Error → Service × Handled
finish_with (s, e) = (s, finish e)

-- Not the admin privilege, and a bit outside the mask.
unfoldable pub bad_privilege : ℕ → Bool
bad_privilege p = not (p == privilege_admin) && outside_mask p

module _ (uni : Unicode) (ra : RaftAnswer) where
  unfoldable pub handle_create_user : ℕ → Service → Body User → Service × Handled
  handle_create_user now s (undecodable e) = (s, http_error (message e) bad_request)
  handle_create_user now s (body u) =
      if text_eq u.name [] || text_eq u.password []
      then (s, http_error (codes "name and password are required") bad_request)
      else if bad_privilege u.priv
      then (s, http_error (codes "invalid privilege") bad_request)
      else finish_with (leader_create_user uni ra now s u)

  unfoldable pub handle_drop_user : Service → Text → Service × Handled
  handle_drop_user s name =
      if text_eq name []
      then (s, http_error (codes "name is required") bad_request)
      else finish_with (leader_drop_user uni ra s name)

  unfoldable pub handle_set_password : Service → Body User → Service × Handled
  handle_set_password s (undecodable e) = (s, http_error (message e) bad_request)
  handle_set_password s (body u) =
      if text_eq u.name [] || text_eq u.password []
      then (s, http_error (codes "name and password are required") bad_request)
      else finish_with (leader_set_password uni ra s u)

  unfoldable pub handle_create_database : Service → Body Database → Service × Handled
  handle_create_database s (undecodable e) = (s, http_error (message e) bad_request)
  handle_create_database s (body db) =
      if text_eq db.name []
      then (s, http_error (codes "name is required") bad_request)
      else finish_with (leader_create_database uni ra s db)

  unfoldable pub handle_drop_database : Service → Text → Service × Handled
  handle_drop_database s name =
      if text_eq name []
      then (s, http_error (codes "name is required") bad_request)
      else finish_with (leader_drop_database uni ra s name)
