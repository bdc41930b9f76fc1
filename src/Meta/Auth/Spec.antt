-- ===== src/Meta/Auth/Spec.antt =====
-- Who `Auth` lets through, in terms of single privileges.
use Prim.Native.Nat.{bit_and, bit_or}
use mathlib.Core.Path.{subst}
use xuandb.Prelude.{
  ℕ, ◌≤◌, ◌≡◌, ◌≢◌, ◌↔◌, ◌⊎◌, inl, inr, refl, arith, true, [], ◌∷◌, Option, none, some, All,
  Bool-cases, suc, zero, ◌/◌, ==_iff,
}
use xuandb.Prelude.Bits.{bit, Includes, bit_and_iff, bit_or-bit}
use xuandb.Prelude.Map.{Map, lookup, is_empty}
use xuandb.Prelude.Text.{Text, text_eq_iff}
use xuandb.Prelude.Unicode.{Unicode, to_lower}
use xuandb.Meta.Privilege.{has, privilege_admin}
use xuandb.Meta.Types.{User, Service}
use xuandb.Meta.Auth.{RequiredPrivileges, db_privilege, auth_databases, auth_user, auth_known, auth}

-- Every privilege that the operation needs on the database is a global one of the user, or one
-- on that database.
abbrev pub Grants : User → Text × ℕ → Type 0
Grants u (db, need) =
    (i : ℕ) → bit need i ≡ 1 → (bit u.priv i ≡ 1) ⊎ (bit (db_privilege u db) i ≡ 1)

-- The admin may do everything; any other user needs each privilege asked for.
abbrev pub Permits : User → RequiredPrivileges → Type 0
Permits u rp =
    (u.priv ≡ privilege_admin) ⊎ (Includes u.priv rp.global × All (Grants u) rp.databases)

abbrev pub Authorized : Unicode → Service → Text → Text → RequiredPrivileges → Type 0
Authorized uni s name pwd rp =
    (is_empty s.md.users ≡ true)
    ⊎ ((name ≢ [])
        × ((u : User) × (lookup (to_lower uni name) s.md.users ≡ some u)
            × (u.password ≡ pwd)
            × Permits u rp))

bit_le_one : (n i : ℕ) → bit n i ≤ 1
bit_le_one n zero = omega arith
bit_le_one n (suc i) = bit_le_one (n / 2) i

has_iff : (p q : ℕ) → (has p q ≡ true) ↔ Includes p q
unfolding has
has_iff p q = (
  λ h. (bit_and_iff p q).0 ((==_iff (bit_and p q) q).0 h),
  λ h. (==_iff (bit_and p q) q).1 ((bit_and_iff p q).1 h),
)

Grants-iff :
    (u : User) (db : Text) (need : ℕ)
    → (has (bit_or u.priv (db_privilege u db)) need ≡ true) ↔ Grants u (db, need)
Grants-iff u db need =
    let both = bit_or u.priv (db_privilege u db) in
    (
      λ h i b. omega (
        arith,
        (has_iff both need).0 h i b,
        bit_or-bit u.priv (db_privilege u db) i,
        bit_le_one u.priv i,
        bit_le_one (db_privilege u db) i,
      ),
      λ g. (has_iff both need).1 (λ i b. ground (
        arith,
        g i b,
        bit_or-bit u.priv (db_privilege u db) i,
        bit_le_one u.priv i,
        bit_le_one (db_privilege u db) i,
      )),
    )

auth_databases_iff : (u : User) (m : Map ℕ) → (auth_databases u m ≡ none) ↔ All (Grants u) m
unfolding auth_databases
auth_databases_iff u [] = (λ _. tt, λ _. refl)
auth_databases_iff u ((db, need) ∷ m) =
    elim (Bool-cases (has (bit_or u.priv (db_privilege u db)) need)) [
      | inl ok ↦ rw ok (
        λ h. ((Grants-iff u db need).0 ok, (auth_databases_iff u m).0 h),
        λ g. (auth_databases_iff u m).1 g.1,
      )
      | inr lacking ↦
          rw lacking (λ h. absurd (cc h), λ g. absurd (cc (lacking, (Grants-iff u db need).1 g.0)))
    ]

auth_user_iff :
    (u : User) (pwd : Text) (rp : RequiredPrivileges)
    → (auth_user u pwd rp ≡ none) ↔ ((u.password ≡ pwd) × Permits u rp)
unfolding auth_user
auth_user_iff u pwd rp =
    let dbs = auth_databases_iff u rp.databases in
    let global = has_iff u.priv rp.global in
    (
      λ h. ground (arith, text_eq_iff pwd u.password, dbs, global),
      λ h. ground (arith, text_eq_iff pwd u.password, dbs, global),
    )

auth_known_iff :
    (o : Option User) (pwd : Text) (rp : RequiredPrivileges)
    → (auth_known o pwd rp ≡ none) ↔ ((u : User) × (o ≡ some u) × (u.password ≡ pwd) × Permits u rp)
unfolding auth_known
auth_known_iff none pwd rp = (λ h. absurd (cc h), λ g. absurd (cc g.1))
auth_known_iff (some u) pwd rp = (
  λ h. let p = (auth_user_iff u pwd rp).0 h in (u, refl, p.0, p.1),
  λ (v, e, w, p). (auth_user_iff u pwd rp).1 (
      let same : v ≡ u = cc e in
      (subst (λ x. x.password ≡ pwd) same w, subst (λ x. Permits x rp) same p)),
)

-- `Auth` succeeds exactly if there is no user yet, or the name is given and names a user with that
-- password who is the admin, or holds every global privilege asked for and, on each database,
-- every privilege asked for there, globally or on that database. Privileges are compared bit by
-- bit: ADMIN on one database grants neither READ nor WRITE there, and DEBUG on a database counts.
pub auth_iff :
    (uni : Unicode) (s : Service) (name pwd : Text) (rp : RequiredPrivileges)
    → (auth uni s name pwd rp ≡ none) ↔ Authorized uni s name pwd rp
unfolding auth
auth_iff uni s name pwd rp =
    let known = auth_known_iff (lookup (to_lower uni name) s.md.users) pwd rp in
    (
      λ h. ground (arith, text_eq_iff name [], known),
      λ h. ground (arith, text_eq_iff name [], known),
    )
