-- ===== src/Meta/Client.antt =====
-- pkg/meta/client.go, and the exported operations of user.go and database.go: run on the leader,
-- or sent to it. The service is the leader's; the request is carried to its handler, and the reply
-- back, without loss; a transport failure is an argument.
pub mod Forward
use xuandb.Prelude.{ℕ, Bool, false, [], Option, none, some, ltb, if◌then◌else◌}
use xuandb.Prelude.Text.{Text, text_eq}
use xuandb.Prelude.Unicode.{Unicode}
use xuandb.Xerrors.{Error, wrap, from_http_response, internal_server_error, other}
use xuandb.Meta.Types.{User, Database, Service, err_meta_service_unavailable}
use xuandb.Meta.Snapshot.{user_via_json}
use xuandb.Meta.Leader.{
  RaftAnswer, leader_create_user, leader_drop_user, leader_set_password, leader_create_database,
  leader_drop_database,
}
use xuandb.Meta.Handler.{
  Handled, replied, assertion_failed, body, handle_create_user, handle_drop_user,
  handle_set_password, handle_create_database, handle_drop_database,
}

-- What the caller knows and what befalls the request: whether it runs on the leader, the leader's
-- HTTP address ("" for none), and the error of the transport. A reply lost by the transport would
-- leave the leader's work done: such runs are not covered.
pub record Caller : Type 0 where
  pub is_leader : Bool
  pub leader_http_addr : Text
  pub transport : Option Error

-- `if resp.StatusCode < 300 { return nil }; return xerrors.FromHTTPResponse(resp)`. A handler that
-- panics makes the server cut the connection, which the client sees as a transport error.
pub read_reply : Handled → Option Error
read_reply (replied r) = if ltb r.code 300 then none else some (from_http_response r.code r.text)
read_reply assertion_failed = wrap (some (other [])) internal_server_error

unfoldable pub reply_of : {S : Type 0} → S × Handled → S × Option Error
reply_of (s, h) = (s, read_reply h)

-- `sendRequestToLeader` with the handler that the leader runs, on the state that it changes.
unfoldable pub send_request_to_leader :
    {S : Type 0} → Caller → S → (S → S × Handled) → S × Option Error
send_request_to_leader c s handler =
    if text_eq c.leader_http_addr []
    then (s, some err_meta_service_unavailable)
    else elim c.transport [
      | some e ↦ (s, wrap (some e) internal_server_error)
      | none ↦ reply_of (handler s)
    ]

-- `if svcInst.isLeader() { return leaderXXX } ; return sendXXXRequestToLeader`
unfoldable pub on_leader :
    Caller
    → Service
    → (Service → Service × Option Error)
    → (Service → Service × Handled)
    → Service × Option Error
on_leader c s direct handler = if c.is_leader then direct s else send_request_to_leader c s handler

module _ (uni : Unicode) (ra : RaftAnswer) (c : Caller) where
  pub create_user : ℕ → Service → User → Service × Option Error
  create_user now s u =
      let v = record u { system = false } in
      on_leader c s (λ t. leader_create_user uni ra now t v)
        (λ t. handle_create_user uni ra now t (body (user_via_json uni v)))

  pub drop_user : Service → Text → Service × Option Error
  drop_user s name =
      on_leader c s (λ t. leader_drop_user uni ra t name) (λ t. handle_drop_user uni ra t name)

  pub set_password : Service → Text → Text → Service × Option Error
  set_password s name password =
      let u : User = record {
        name = name;
        password = password;
        created_at = 0;
        system = false;
        priv = 0;
        db_priv = [];
      } in
      on_leader c s (λ t. leader_set_password uni ra t u)
        (λ t. handle_set_password uni ra t (body (user_via_json uni u)))

  unfoldable pub create_database : Service → Database → Service × Option Error
  create_database s db =
      on_leader c s (λ t. leader_create_database uni ra t db)
        (λ t. handle_create_database uni ra t (body db))

  pub drop_database : Service → Text → Service × Option Error
  drop_database s name =
      on_leader c s (λ t. leader_drop_database uni ra t name)
        (λ t. handle_drop_database uni ra t name)
