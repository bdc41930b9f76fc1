-- ===== src/Meta/Handler/Errors.antt =====
-- Every error of the leader functions has an HTTP status, so no handler's type assertion fails.
use xuandb.Prelude.{ℕ, ◌≤◌, ◌≡◌, ◌≢◌, refl, arith, Option, none, some}
use xuandb.Prelude.Text.{Text}
use xuandb.Prelude.Unicode.{Unicode}
use xuandb.Xerrors.{Error, status, other, wrap, internal_server_error}
use xuandb.Meta.Types.{User, Database, Command, create_user, drop_user, Service}
use xuandb.Meta.Apply.{
  apply_command, apply_create_user, apply_drop_user, apply_set_password, apply_create_database,
  apply_drop_database, apply_update_node_list,
}
use xuandb.Meta.Leader.{
  RaftAnswer, committed, rejected, Check, answered, submitted, command_via_json, raft_apply, submit,
  check_create_user, check_drop_user, check_set_password, check_create_database,
  check_drop_database, ignore_unknown, leader_create_user, leader_drop_user, leader_set_password,
  leader_create_database, leader_drop_database,
}
use xuandb.Meta.Handler.{
  assertion_failed, undecodable, body, finish, finish_with, Body, handle_create_user,
  handle_drop_user, handle_set_password, handle_create_database, handle_drop_database,
}

-- No error, or one with a status code of an error.
abbrev pub HasStatus : Option Error → Type 0
HasStatus none = Unit
HasStatus (some (status e)) = 300 ≤ e.status_code
HasStatus (some (other t)) = ⊥

module _ (uni : Unicode) where
  apply_command-HasStatus : (s : Service) (cmd : Command) → HasStatus (apply_command uni s cmd).1
  unfolding apply_command apply_create_user apply_drop_user apply_set_password apply_create_database
      apply_drop_database apply_update_node_list
  apply_command-HasStatus s (create_user u) = ground arith
  apply_command-HasStatus s _ = ground arith

  wrap-HasStatus : (e : Option Error) → HasStatus e → HasStatus (wrap e internal_server_error)
  unfolding wrap
  wrap-HasStatus none h = h
  wrap-HasStatus (some (status e)) h = h
  wrap-HasStatus (some (other t)) h = absurd h

  raft_apply-HasStatus :
      (ra : RaftAnswer) (s : Service) (cmd : Command) → HasStatus (raft_apply uni ra s cmd).1
  raft_apply-HasStatus (rejected t) s cmd = unfold raft_apply wrap in omega arith
  raft_apply-HasStatus committed s cmd =
      unfold raft_apply in
      wrap-HasStatus (apply_command uni s (command_via_json uni cmd)).1
        (apply_command-HasStatus s (command_via_json uni cmd))

  submit-HasStatus :
      (ra : RaftAnswer) (s : Service) (c : Check)
      → ((e : Option Error) → c ≡ answered e → HasStatus e)
      → HasStatus (submit uni ra s c).1
  submit-HasStatus ra s (answered e) h = unfold submit in h e refl
  submit-HasStatus ra s (submitted cmd) h = unfold submit in raft_apply-HasStatus ra s cmd

  module _ (ra : RaftAnswer) (s : Service) where
    pub leader_create_user-HasStatus :
        (now : ℕ) (u : User) → HasStatus (leader_create_user uni ra now s u).1
    unfolding leader_create_user check_create_user
    leader_create_user-HasStatus now u = submit-HasStatus ra s _ (λ e h. ground arith)

    pub leader_set_password-HasStatus : (u : User) → HasStatus (leader_set_password uni ra s u).1
    unfolding leader_set_password check_set_password
    leader_set_password-HasStatus u = submit-HasStatus ra s _ (λ e h. ground arith)

    pub leader_create_database-HasStatus :
        (db : Database) → HasStatus (leader_create_database uni ra s db).1
    unfolding leader_create_database check_create_database
    leader_create_database-HasStatus db = submit-HasStatus ra s _ (λ e h. ground arith)

    pub leader_drop_database-HasStatus :
        (name : Text) → HasStatus (leader_drop_database uni ra s name).1
    unfolding leader_drop_database check_drop_database
    leader_drop_database-HasStatus name = submit-HasStatus ra s _ (λ e h. ground arith)

    ignore_unknown-HasStatus : (e : Option Error) → HasStatus e → HasStatus (ignore_unknown uni e)
    unfolding ignore_unknown
    ignore_unknown-HasStatus none h = h
    ignore_unknown-HasStatus (some e) h = ground arith

    pub leader_drop_user-HasStatus : (name : Text) → HasStatus (leader_drop_user uni ra s name).1
    unfolding leader_drop_user check_drop_user
    leader_drop_user-HasStatus name = ground (
      arith,
      ignore_unknown-HasStatus (raft_apply uni ra s (drop_user name)).1
          (raft_apply-HasStatus ra s (drop_user name)),
    )

finish-ne-assertion_failed : (e : Option Error) → HasStatus e → finish e ≢ assertion_failed
unfolding finish
finish-ne-assertion_failed none h = cc
finish-ne-assertion_failed (some (status e)) h = cc
finish-ne-assertion_failed (some (other t)) h = absurd h

module _ (uni : Unicode) (ra : RaftAnswer) (s : Service) where
  finish_with-replies :
      (r : Service × Option Error) → HasStatus r.1 → (finish_with r).1 ≢ assertion_failed
  unfolding finish_with
  finish_with-replies (t, e) h = finish-ne-assertion_failed e h

  create_user-replies :
      (now : ℕ) (b : Body User) → (handle_create_user uni ra now s b).1 ≢ assertion_failed
  unfolding handle_create_user
  create_user-replies now (undecodable e) = cc
  create_user-replies now (body u) = ground (
    arith,
    finish_with-replies (leader_create_user uni ra now s u)
        (leader_create_user-HasStatus uni ra s now u),
  )

  set_password-replies : (b : Body User) → (handle_set_password uni ra s b).1 ≢ assertion_failed
  unfolding handle_set_password
  set_password-replies (undecodable e) = cc
  set_password-replies (body u) = ground (
    arith,
    finish_with-replies (leader_set_password uni ra s u) (leader_set_password-HasStatus uni ra s u),
  )

  create_database-replies :
      (b : Body Database) → (handle_create_database uni ra s b).1 ≢ assertion_failed
  unfolding handle_create_database
  create_database-replies (undecodable e) = cc
  create_database-replies (body db) = ground (
    arith,
    finish_with-replies (leader_create_database uni ra s db)
        (leader_create_database-HasStatus uni ra s db),
  )

  drop-replies :
      (name : Text)
      → ((handle_drop_user uni ra s name).1 ≢ assertion_failed)
        × ((handle_drop_database uni ra s name).1 ≢ assertion_failed)
  unfolding handle_drop_user handle_drop_database
  drop-replies name =
      let user =
        finish_with-replies (leader_drop_user uni ra s name)
          (leader_drop_user-HasStatus uni ra s name) in
      let database =
        finish_with-replies (leader_drop_database uni ra s name)
          (leader_drop_database-HasStatus uni ra s name) in
      (ground (arith, user), ground (arith, database))

  -- Every request to a user or database handler gets a reply, whatever raft answers: the type
  -- assertion on an error of a leader function never fails.
  pub handlers-reply :
      (now : ℕ) (u : Body User) (db : Body Database) (name : Text)
      → ((handle_create_user uni ra now s u).1 ≢ assertion_failed)
        × ((handle_set_password uni ra s u).1 ≢ assertion_failed)
        × ((handle_create_database uni ra s db).1 ≢ assertion_failed)
        × ((handle_drop_user uni ra s name).1 ≢ assertion_failed)
        × ((handle_drop_database uni ra s name).1 ≢ assertion_failed)
  handlers-reply now u db name = (
    create_user-replies now u,
    set_password-replies u,
    create_database-replies db,
    (drop-replies name).0,
    (drop-replies name).1,
  )
