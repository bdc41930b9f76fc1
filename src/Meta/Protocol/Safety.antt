-- ===== src/Meta/Protocol/Safety.antt =====
-- Whatever the interleaving, the users have a system admin as soon as there is one user.
use mathlib.Core.Path.{subst}
use xuandb.Prelude.{
  ℕ, zero, suc, true, List, [], ◌∷◌, ◌++◌, ◌≡◌, ◌⊎◌, inl, inr, refl, ap, sym, ◌∙◌, arith, All,
  All-append, All-append_left, All-append_right, All-map,
}
use xuandb.Prelude.Map.{lookup, is_empty, lookup-insert, is_empty-lookup}
use xuandb.Prelude.Text.{Text, text_eq_refl}
use xuandb.Prelude.Unicode.{Unicode, to_lower}
use xuandb.Meta.Types.{
  User, Database, Command, update_node_list, create_database, drop_database, create_user, drop_user,
  set_password, Service,
}
use xuandb.Meta.Apply.{
  apply_command, apply_create_user, apply_set_password, apply_create_database, apply_drop_database,
  apply_update_node_list, first_user,
}
use xuandb.Meta.Leader.{command_via_json}
use xuandb.Meta.Protocol.{
  Request, ask_create_user, ask_drop_user, ask_set_password, ask_create_database, ask_drop_database,
  ask_node_list, Cluster, initial, Step, lagging, checks, append, refuse, commit, lose, Reach, here,
  next,
}
use xuandb.Meta.Protocol.Submits.{Submits, check-Submits}
use xuandb.Meta.Protocol.Admin.{IsAdmin, Spares, apply_command-IsAdmin}

abbrev NoDrop : Command → Type 0
NoDrop (drop_user name) = ⊥
NoDrop _ = Unit

module _ (uni : Unicode) where
  carry :
      (P : Command → Type 0) (c cmd : Command)
      → cmd ≡ c
      → P (command_via_json uni c)
      → P (command_via_json uni cmd)
  carry P c cmd e = subst (λ x. P (command_via_json uni x)) (sym e)

  -- The metadata of some time: there was no user, or the user of `key` was the first.
  abbrev HasFirst : Text → Service → Type 0
  HasFirst key s = (is_empty s.md.users ≡ true) ⊎ IsAdmin key s.md.users

  abbrev HasNone : Service → Type 0
  HasNone s = is_empty s.md.users ≡ true

  -- Before the first user no drop is on its way; from then on the first user is spared.
  abbrev Inv : Cluster → Type 0
  Inv c =
      (HasNone c.service × All HasNone c.past × All NoDrop c.checked × All NoDrop c.pending)
      ⊎ ((key : Text) × IsAdmin key c.service.md.users
          × All (HasFirst key) c.past
          × All (Spares uni key) c.checked
          × All (Spares uni key) c.pending)

  lagging-All :
      (P : Service → Type 0) (n : ℕ) (s : Service) (past : List Service)
      → P s
      → All P past
      → P (lagging n s past)
  unfolding lagging
  lagging-All P zero s past p h = p
  lagging-All P (suc n) s [] p h = p
  lagging-All P (suc n) s (t ∷ past) p (q, h) = lagging-All P n t past q h

  Submits-NoDrop :
      (s : Service) (r : Request) (cmd : Command)
      → is_empty s.md.users ≡ true
      → Submits uni s r cmd
      → NoDrop (command_via_json uni cmd)
  unfolding command_via_json
  Submits-NoDrop s (ask_drop_user name) cmd h (e, (u, found, _)) =
      absurd (cc (found, is_empty-lookup (to_lower uni name) s.md.users h))
  Submits-NoDrop s (ask_create_user now u) cmd h e = carry NoDrop _ cmd e tt
  Submits-NoDrop s (ask_set_password u) cmd h e = carry NoDrop _ cmd e tt
  Submits-NoDrop s (ask_create_database db) cmd h e = carry NoDrop _ cmd e tt
  Submits-NoDrop s (ask_drop_database name) cmd h e = carry NoDrop _ cmd e tt
  Submits-NoDrop s (ask_node_list nodes) cmd h e = carry NoDrop _ cmd e tt

  Submits-Spares :
      (key : Text) (s : Service) (r : Request) (cmd : Command)
      → IsAdmin key s.md.users
      → Submits uni s r cmd
      → Spares uni key (command_via_json uni cmd)
  unfolding command_via_json
  Submits-Spares key s (ask_drop_user name) cmd h (e, (u, found, plain)) =
      carry (Spares uni key) _ cmd e (λ same.
        let one : u ≡ h.user = cc (found, h.found, ap (λ k. lookup k s.md.users) same) in
        cc (plain, h.is_system, ap (λ x. x.system) one))
  Submits-Spares key s (ask_create_user now u) cmd h e = carry (Spares uni key) _ cmd e tt
  Submits-Spares key s (ask_set_password u) cmd h e = carry (Spares uni key) _ cmd e tt
  Submits-Spares key s (ask_create_database db) cmd h e = carry (Spares uni key) _ cmd e tt
  Submits-Spares key s (ask_drop_database name) cmd h e = carry (Spares uni key) _ cmd e tt
  Submits-Spares key s (ask_node_list nodes) cmd h e = carry (Spares uni key) _ cmd e tt

  -- Applying a command that drops nobody to no users leaves none, or makes the first admin.
  apply_create_user-first :
      (s : Service) (u : User)
      → is_empty s.md.users ≡ true
      → IsAdmin (to_lower uni u.name) (apply_create_user uni s u).0.md.users
  unfolding apply_create_user first_user
  apply_create_user-first s u h =
      rw (is_empty-lookup (to_lower uni u.name) s.md.users h, apply_create_user)
        (record {
          user = first_user s.md.users u;
          found = rw (lookup-insert, text_eq_refl) refl;
          is_system = rw (h, first_user) refl;
          is_admin = rw (h, first_user) refl;
        })

  apply_set_password-empty :
      (s : Service) (name password : Text)
      → is_empty s.md.users ≡ true
      → (apply_set_password uni s name password).0.md.users ≡ s.md.users
  unfolding apply_set_password
  apply_set_password-empty s name password h =
      rw (is_empty-lookup (to_lower uni name) s.md.users h, apply_set_password) refl

  apply_create_database-users :
      (s : Service) (db : Database) → (apply_create_database uni s db).0.md.users ≡ s.md.users
  unfolding apply_create_database
  apply_create_database-users s db = ground arith

  NoDrop-Spares : (key : Text) (cmd : Command) → NoDrop cmd → Spares uni key cmd
  NoDrop-Spares key (drop_user name) h = absurd h
  NoDrop-Spares key (create_user u) h = tt
  NoDrop-Spares key _ h = tt

  Submits-HasFirst :
      (key : Text) (s : Service) (r : Request) (cmd : Command)
      → HasFirst key s
      → Submits uni s r cmd
      → Spares uni key (command_via_json uni cmd)
  Submits-HasFirst key s r cmd (inl h) e = NoDrop-Spares key _ (Submits-NoDrop s r cmd h e)
  Submits-HasFirst key s r cmd (inr h) e = Submits-Spares key s r cmd h e

  -- A command that drops nobody, applied to no users, leaves none or makes the first.
  abbrev Founded : Service → Type 0
  Founded s = HasNone s ⊎ ((key : Text) × IsAdmin key s.md.users)

  apply_command-Founded :
      (s : Service) (cmd : Command) → HasNone s → NoDrop cmd → Founded (apply_command uni s cmd).0
  unfolding apply_command apply_drop_database apply_update_node_list
  apply_command-Founded s (create_user u) h p =
      inr (to_lower uni u.name, apply_create_user-first s u h)
  apply_command-Founded s (set_password name password) h p =
      inl (ap is_empty (apply_set_password-empty s name password h) ∙ h)
  apply_command-Founded s (create_database db) h p =
      inl (ap is_empty (apply_create_database-users s db) ∙ h)
  apply_command-Founded s (drop_user name) h p = absurd p
  apply_command-Founded s (drop_database name) h p = inl h
  apply_command-Founded s (update_node_list nodes) h p = inl h

  -- The invariant of a cluster, in a record so that steps can name it.
  record IsSafe (c : Cluster) : Type 0 where
    inv : Inv c

  Inv-checks :
      (c : Cluster) (n : ℕ) (r : Request) (cmd : Command)
      → Submits uni (lagging n c.service c.past) r cmd
      → Inv c
      → Inv (record c { checked = c.checked ++ command_via_json uni cmd ∷ [] })
  Inv-checks c n r cmd e (inl (h, past, k, p)) =
      let seen = lagging-All HasNone n c.service c.past h past in
      inl (
        h,
        past,
        All-append NoDrop c.checked _ k
            (Submits-NoDrop (lagging n c.service c.past) r cmd seen e, tt),
        p,
      )
  Inv-checks c n r cmd e (inr (key, a, past, k, p)) =
      let seen = lagging-All (HasFirst key) n c.service c.past (inr a) past in
      inr (
        key,
        a,
        past,
        All-append (Spares uni key) c.checked _ k
            (Submits-HasFirst key (lagging n c.service c.past) r cmd seen e, tt),
        p,
      )

  -- What holds of a command and of the others around it.
  All-pick :
      (P : Command → Type 0) (before after : List Command) (cmd : Command)
      → All P (before ++ (cmd ∷ after))
      → P cmd × All P (before ++ after)
  All-pick P before after cmd h =
      let (p, rest) = All-append_right P before (cmd ∷ after) h in
      (p, All-append P before after (All-append_left P before (cmd ∷ after) h) rest)

  Inv-append :
      (c : Cluster) (before after : List Command) (cmd : Command)
      → c.checked ≡ before ++ (cmd ∷ after)
      → Inv c
      → Inv (record c { checked = before ++ after; pending = c.pending ++ cmd ∷ [] })
  Inv-append c before after cmd e (inl (h, past, k, p)) =
      let (one, others) = All-pick NoDrop before after cmd (subst (All NoDrop) e k) in
      inl (h, past, others, All-append NoDrop c.pending _ p (one, tt))
  Inv-append c before after cmd e (inr (key, a, past, k, p)) =
      let (one, others) =
        All-pick (Spares uni key) before after cmd (subst (All (Spares uni key)) e k) in
      inr (key, a, past, others, All-append (Spares uni key) c.pending _ p (one, tt))

  Inv-refuse :
      (c : Cluster) (before after : List Command) (cmd : Command)
      → c.checked ≡ before ++ (cmd ∷ after)
      → Inv c
      → Inv (record c { checked = before ++ after })
  Inv-refuse c before after cmd e (inl (h, past, k, p)) =
      inl (h, past, (All-pick NoDrop before after cmd (subst (All NoDrop) e k)).1, p)
  Inv-refuse c before after cmd e (inr (key, a, past, k, p)) = inr (
    key,
    a,
    past,
    (All-pick (Spares uni key) before after cmd (subst (All (Spares uni key)) e k)).1,
    p,
  )

  Inv-lose :
      (c : Cluster) (before after : List Command) (cmd : Command)
      → c.pending ≡ before ++ (cmd ∷ after)
      → Inv c
      → Inv (record c { pending = before ++ after })
  Inv-lose c before after cmd e (inl (h, past, k, p)) =
      inl (h, past, k, (All-pick NoDrop before after cmd (subst (All NoDrop) e p)).1)
  Inv-lose c before after cmd e (inr (key, a, past, k, p)) = inr (
    key,
    a,
    past,
    k,
    (All-pick (Spares uni key) before after cmd (subst (All (Spares uni key)) e p)).1,
  )

  abbrev committed_to : Cluster → Command → List Command → Cluster
  committed_to c cmd rest = record c {
    service = (apply_command uni c.service cmd).0;
    past = c.service ∷ c.past;
    pending = rest;
  }

  Inv-Founded :
      (c : Cluster) (cmd : Command) (rest : List Command)
      → HasNone c.service
      → All HasNone c.past
      → All NoDrop c.checked
      → All NoDrop rest
      → Founded (apply_command uni c.service cmd).0
      → Inv (committed_to c cmd rest)
  Inv-Founded c cmd rest h past k q (inl none_yet) = inl (none_yet, (h, past), k, q)
  Inv-Founded c cmd rest h past k q (inr (key, a)) = inr (
    key,
    a,
    (inl h, All-map HasNone (HasFirst key) c.past (λ s e. inl e) past),
    All-map NoDrop (Spares uni key) c.checked (NoDrop-Spares key) k,
    All-map NoDrop (Spares uni key) rest (NoDrop-Spares key) q,
  )

  Inv-commit :
      (c : Cluster) (cmd : Command) (rest : List Command)
      → c.pending ≡ cmd ∷ rest
      → Inv c
      → Inv (committed_to c cmd rest)
  Inv-commit c cmd rest e (inl (h, past, k, p)) =
      let (one, others) = subst (All NoDrop) e p in
      Inv-Founded c cmd rest h past k others (apply_command-Founded c.service cmd h one)
  Inv-commit c cmd rest e (inr (key, a, past, k, p)) =
      let (one, others) = subst (All (Spares uni key)) e p in
      inr (key, apply_command-IsAdmin uni key c.service cmd one a, (inr a, past), k, others)

  Inv-Step : {c d : Cluster} → Step uni c d → Inv c → IsSafe d
  Inv-Step {c} (checks n r cmd h e) i = subst IsSafe (sym e) (record {
    inv = Inv-checks c n r cmd (check-Submits uni (lagging n c.service c.past) r cmd h) i;
  })
  Inv-Step {c} (append before after cmd h e) i =
      subst IsSafe (sym e) (record { inv = Inv-append c before after cmd h i })
  Inv-Step {c} (refuse before after cmd h e) i =
      subst IsSafe (sym e) (record { inv = Inv-refuse c before after cmd h i })
  Inv-Step {c} (commit cmd rest h e) i =
      subst IsSafe (sym e) (record { inv = Inv-commit c cmd rest h i })
  Inv-Step {c} (lose before after cmd h e) i =
      subst IsSafe (sym e) (record { inv = Inv-lose c before after cmd h i })

  IsSafe-Reach : {c : Cluster} → Reach uni initial c → IsSafe c
  unfolding is_empty
  IsSafe-Reach here = record { inv = inl (refl, tt, tt, tt) }
  IsSafe-Reach (next r st) = Inv-Step st (IsSafe-Reach r).inv

  Inv-IsAdmin :
      (c : Cluster)
      → Inv c
      → (is_empty c.service.md.users ≡ true) ⊎ ((key : Text) × IsAdmin key c.service.md.users)
  Inv-IsAdmin c (inl (h, past, k, p)) = inl h
  Inv-IsAdmin c (inr (key, a, past, k, p)) = inr (key, a)

  -- In every cluster that is reached from the empty one, there is either no user or a system user
  -- with the admin privilege. On the way requests are checked by leaders that may be any number of
  -- commits behind, commands that passed are appended to the log later or never, entries are lost,
  -- and entries are committed, in any order of such steps.
  pub system-IsAdmin-Reach :
      {c : Cluster}
      → Reach uni initial c
      → (is_empty c.service.md.users ≡ true) ⊎ ((key : Text) × IsAdmin key c.service.md.users)
  system-IsAdmin-Reach {c} r = Inv-IsAdmin c (IsSafe-Reach r).inv
