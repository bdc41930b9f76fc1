-- ===== src/Meta/Snapshot/Laws.antt =====
-- What JSON keeps of users, and what a snapshot keeps of the metadata.
use xuandb.Prelude.{ℕ, [], ◌∷◌, ◌≡◌, refl, none, All}
use xuandb.Prelude.Map.{Map}
use xuandb.Prelude.Text.{Text}
use xuandb.Prelude.Unicode.{Unicode}
use xuandb.Meta.Privilege.RoundTrip.{IsValid, via_json_valid, via_json_idem}
use xuandb.Meta.Types.{User, Service}
use xuandb.Meta.Snapshot.{
  clone, snapshot, db_priv_via_json, user_via_json, users_via_json, data_via_json, decoded, restore,
}

-- All privileges of the user are ones that the text form can express.
abbrev pub HasValidPrivileges : User → Type 0
HasValidPrivileges u = IsValid u.priv × All (λ e. IsValid e.1) u.db_priv

module _ (uni : Unicode) where
  db_priv_via_json_idem :
      (m : Map ℕ) → db_priv_via_json uni (db_priv_via_json uni m) ≡ db_priv_via_json uni m
  unfolding db_priv_via_json
  db_priv_via_json_idem [] = refl
  db_priv_via_json_idem ((db, p) ∷ m) = simp (via_json_idem, db_priv_via_json_idem m)

  pub user_via_json_idem :
      (u : User) → user_via_json uni (user_via_json uni u) ≡ user_via_json uni u
  unfolding user_via_json
  user_via_json_idem u = simp (via_json_idem, db_priv_via_json_idem)

  db_priv_via_json_valid :
      (m : Map ℕ) → All (λ (e : Text × ℕ). IsValid e.1) m → db_priv_via_json uni m ≡ m
  unfolding db_priv_via_json
  db_priv_via_json_valid [] h = refl
  db_priv_via_json_valid ((db, p) ∷ m) (v, h) =
      rw (via_json_valid uni p v, db_priv_via_json_valid m h)

  user_via_json_valid : (u : User) → HasValidPrivileges u → user_via_json uni u ≡ u
  unfolding user_via_json
  user_via_json_valid u (v, h) =
      rw (via_json_valid uni u.priv v, db_priv_via_json_valid u.db_priv h)

  users_via_json_valid :
      (m : Map User)
      → All (λ (e : Text × User). HasValidPrivileges e.1) m
      → users_via_json uni m ≡ m
  unfolding users_via_json
  users_via_json_valid [] h = refl
  users_via_json_valid ((key, u) ∷ m) (v, h) =
      rw (user_via_json_valid u v, users_via_json_valid m h)

  -- A service that restores the snapshot of another one has its users, if their privileges are
  -- valid, and no database at all.
  pub restore-snapshot :
      (s t : Service)
      → All (λ (e : Text × User). HasValidPrivileges e.1) s.md.users
      → restore t (decoded (data_via_json uni (snapshot s)))
        ≡ (record t { md = record { users = s.md.users; databases = [] } }, none)
  unfolding restore data_via_json snapshot clone
  restore-snapshot s t h = rw (users_via_json_valid s.md.users h)
