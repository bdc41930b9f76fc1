-- ===== src/Meta/Client/Forward.antt =====
-- Where an operation runs makes no difference: on the leader, or sent to it by another node.
use xuandb.Prelude.{
  ℕ, ◌≡◌, ◌≢◌, refl, sym, ap, ◌∙◌, arith, true, false, [], ◌∷◌, ◌++◌, Option, none, some, le→ltb,
}
use xuandb.Prelude.Text.{Text, text_eq, text_eq_iff}
use xuandb.Prelude.Unicode.{Unicode}
use xuandb.Xerrors.{Error, status, other, new, from_http_response}
use xuandb.Meta.Privilege.{via_json}
use xuandb.Meta.Privilege.RoundTrip.{via_json-IsValid}
use xuandb.Meta.Types.{User, Database, Service, create_user as create_command}
use xuandb.Meta.Snapshot.{user_via_json}
use xuandb.Meta.Snapshot.Laws.{user_via_json_idem}
use xuandb.Meta.Leader.{
  RaftAnswer, committed, rejected, raft_apply, command_via_json, leader_create_user,
  leader_set_password, check_create_user, check_set_password, submit,
}
use xuandb.Meta.Handler.{
  Handled, finish, finish_with, bad_privilege, body, handle_create_user, handle_drop_user,
  handle_set_password, handle_create_database, handle_drop_database,
}
use xuandb.Meta.Handler.Errors.{
  HasStatus, leader_create_user-HasStatus, leader_drop_user-HasStatus,
  leader_set_password-HasStatus, leader_create_database-HasStatus, leader_drop_database-HasStatus,
}
use xuandb.Meta.Client.{
  Caller, read_reply, reply_of, send_request_to_leader, on_leader, create_user, drop_user,
  set_password, create_database, drop_database,
}

pub data Operation : Type 0 where
  to_create_user : ℕ → User → Operation
  to_drop_user : Text → Operation
  to_set_password : Text → Text → Operation
  to_create_database : Database → Operation
  to_drop_database : Text → Operation

-- The fields that the handlers insist on are there.
abbrev pub IsFilled : Operation → Type 0
IsFilled (to_create_user now u) = (u.name ≢ []) × (u.password ≢ [])
IsFilled (to_drop_user name) = name ≢ []
IsFilled (to_set_password name password) = (name ≢ []) × (password ≢ [])
IsFilled (to_create_database db) = db.name ≢ []
IsFilled (to_drop_database name) = name ≢ []

abbrev pub run : Unicode → RaftAnswer → Caller → Service → Operation → Service × Option Error
run uni ra c s (to_create_user now u) = create_user uni ra c now s u
run uni ra c s (to_drop_user name) = drop_user uni ra c s name
run uni ra c s (to_set_password name password) = set_password uni ra c s name password
run uni ra c s (to_create_database db) = create_database uni ra c s db
run uni ra c s (to_drop_database name) = drop_database uni ra c s name

-- An error that an HTTP reply carried: the status is kept, the text has a newline behind it.
abbrev pub carried_error : Error → Error
carried_error (status e) = new e.status_code (e.msg ++ b'\n' ∷ [])
carried_error (other t) = new 500 []

abbrev pub carried : Service × Option Error → Service × Option Error
carried (s, none) = (s, none)
carried (s, some e) = (s, some (carried_error e))

-- Another node that knows the leader and reaches it.
pub record IsFollower (c : Caller) : Type 0 where
  pub not_leader : c.is_leader ≡ false
  pub knows_leader : c.leader_http_addr ≢ []
  pub no_failure : c.transport ≡ none

reply_of-finish_with :
    (r : Service × Option Error) → HasStatus r.1 → reply_of (finish_with r) ≡ carried r
unfolding reply_of finish_with finish read_reply from_http_response
reply_of-finish_with (s, none) h = refl
reply_of-finish_with (s, some (status e)) h = rw (le→ltb e.status_code 300 h)
reply_of-finish_with (s, some (other t)) h = absurd h

on_leader-leader :
    (c : Caller) (s : Service) (direct : Service → Service × Option Error)
    (handler : Service → Service × Handled)
    → c.is_leader ≡ true
    → on_leader c s direct handler ≡ direct s
unfolding on_leader
on_leader-leader c s direct handler h = rw h

on_leader-follower :
    (c : Caller) (s : Service) (direct : Service → Service × Option Error)
    (handler : Service → Service × Handled)
    → IsFollower c
    → on_leader c s direct handler ≡ reply_of (handler s)
unfolding on_leader send_request_to_leader
on_leader-follower c s direct handler f =
    ground (arith, f.not_leader, f.no_failure, f.knows_leader, text_eq_iff c.leader_http_addr [])

module _ (uni : Unicode) (ra : RaftAnswer) (s : Service) where
  via_json-not_bad : (p : ℕ) → bad_privilege (via_json uni p) ≡ false
  unfolding bad_privilege
  via_json-not_bad p = ground (arith, via_json-IsValid uni p)

  raft_apply-via_json :
      (u : User)
      → raft_apply uni ra s (create_command (user_via_json uni u))
        ≡ raft_apply uni ra s (create_command u)
  raft_apply-via_json u = go ra
    where
      go :
          (ra : RaftAnswer)
          → raft_apply uni ra s (create_command (user_via_json uni u))
            ≡ raft_apply uni ra s (create_command u)
      go (rejected t) = unfold raft_apply in refl
      go committed = unfold raft_apply command_via_json in rw user_via_json_idem

  leader_create_user-via_json :
      (now : ℕ) (u : User)
      → leader_create_user uni ra now s (user_via_json uni u) ≡ leader_create_user uni ra now s u
  unfolding leader_create_user check_create_user submit user_via_json
  leader_create_user-via_json now u =
      ground (arith, raft_apply-via_json (record u { created_at = now }))

  handle_create_user-forward :
      (now : ℕ) (u : User)
      → (u.name ≢ []) × (u.password ≢ [])
      → handle_create_user uni ra now s (body (user_via_json uni u))
        ≡ finish_with (leader_create_user uni ra now s u)
  unfolding handle_create_user
  handle_create_user-forward now u (n, p) = rw (← leader_create_user-via_json now u) (
      unfold user_via_json in
      ground (arith, via_json-not_bad u.priv, text_eq_iff u.name [], text_eq_iff u.password []))

  filled : (t : Text) → t ≢ [] → text_eq t [] ≡ false
  filled t h = ground (arith, text_eq_iff t [])

  module _ (l f : Caller) (on_l : l.is_leader ≡ true) (on_f : IsFollower f) where
    -- One operation, once its handler is known to run the leader function.
    forward_one :
        (direct : Service → Service × Option Error) (handler : Service → Service × Handled)
        → handler s ≡ finish_with (direct s)
        → HasStatus (direct s).1
        → on_leader f s direct handler ≡ carried (on_leader l s direct handler)
    forward_one direct handler e h =
        on_leader-follower f s direct handler on_f
        ∙ ap reply_of e
        ∙ reply_of-finish_with (direct s) h
        ∙ ap carried (sym (on_leader-leader l s direct handler on_l))

    -- An operation with its fields filled, asked for on another node that reaches the leader, has
    -- the result that it has on the leader: the same new state, no error where the leader has
    -- none, and else an error with the same status and the same text with a newline behind it.
    pub run-forward :
        (op : Operation) → IsFilled op → run uni ra f s op ≡ carried (run uni ra l s op)
    unfolding create_user drop_user set_password create_database drop_database
    run-forward (to_create_user now u) h =
        forward_one _ _ (handle_create_user-forward now (record u { system = false }) h)
          (leader_create_user-HasStatus uni ra s now _)
    run-forward (to_drop_user name) h =
        forward_one _ _ (unfold handle_drop_user in rw (filled name h))
          (leader_drop_user-HasStatus uni ra s name)
    run-forward (to_set_password name password) (n, p) =
        forward_one _ _
          (unfold handle_set_password leader_set_password check_set_password user_via_json in
            rw (filled name n, filled password p))
          (leader_set_password-HasStatus uni ra s _)
    run-forward (to_create_database db) h =
        forward_one _ _ (unfold handle_create_database in rw (filled db.name h))
          (leader_create_database-HasStatus uni ra s db)
    run-forward (to_drop_database name) h =
        forward_one _ _ (unfold handle_drop_database in rw (filled name h))
          (leader_drop_database-HasStatus uni ra s name)
