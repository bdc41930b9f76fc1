-- ===== src/Meta/Auth.antt =====
-- Authentication and authorization: `Auth` of pkg/meta/user.go.
pub mod Spec
use Prim.Native.Nat.{bit_or}
use xuandb.Prelude.{ℕ, not, [], ◌∷◌, Option, none, some, if◌then◌else◌}
use xuandb.Prelude.Map.{Map, lookup, is_empty}
use xuandb.Prelude.Text.{Text, text_eq}
use xuandb.Prelude.Unicode.{Unicode, to_lower}
use xuandb.Xerrors.{Error}
use xuandb.Meta.Privilege.{has, privilege_admin}
use xuandb.Meta.Types.{
  User, Service, err_auth_required, err_password_mismatch, err_insufficient_privileges,
}
use xuandb.Prelude.{◌==◌}

pub record RequiredPrivileges : Type 0 where
  pub global : ℕ
  pub databases : Map ℕ

-- `u.DbPriv[db]`: a missing entry is no privilege.
unfoldable pub db_privilege : User → Text → ℕ
db_privilege u db = elim (lookup db u.db_priv) [ none ↦ 0 | some p ↦ p ]

-- The loop over the databases.
unfoldable pub auth_databases : User → Map ℕ → Option Error
auth_databases u [] = none
auth_databases u ((db, priv) ∷ rest) =
    let next = auth_databases u rest in
    if not (has (bit_or u.priv (db_privilege u db)) priv)
    then some err_insufficient_privileges
    else next

-- What follows once the user is known.
unfoldable pub auth_user : User → Text → RequiredPrivileges → Option Error
auth_user u pwd rp =
    if not (text_eq pwd u.password)
    then some err_password_mismatch
    else if u.priv == privilege_admin
    then none
    else if not (has u.priv rp.global)
    then some err_insufficient_privileges
    else auth_databases u rp.databases

unfoldable pub auth_known : Option User → Text → RequiredPrivileges → Option Error
auth_known none pwd rp = some err_password_mismatch
auth_known (some u) pwd rp = auth_user u pwd rp

unfoldable pub auth : Unicode → Service → Text → Text → RequiredPrivileges → Option Error
auth uni s name pwd rp =
    if is_empty s.md.users
    then none
    else if text_eq name []
    then some err_auth_required
    else auth_known (lookup (to_lower uni name) s.md.users) pwd rp
