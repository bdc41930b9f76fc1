-- ===== src/Meta/Node/Membership.antt =====
-- The nodes that join and leave the raft cluster (pkg/meta/node.go). The membership calls of raft
-- are a log, the latest first; what raft answers to a call, nil or the text of an error, is a parameter.
use xuandb.Prelude.{Bool, not, ◌||◌, [], ◌∷◌, ◌++◌, List, Option, none, some, if◌then◌else◌}
pub mod Calls
use xuandb.Prelude.Text.{Text, codes, text_eq}
use xuandb.Xerrors.{
  Error, wrap, other, bad_request, forbidden, service_unavailable, internal_server_error,
}
use xuandb.Meta.Handler.{Body, undecodable, body, Handled, http_error, finish}
use xuandb.Meta.Client.{Caller, send_request_to_leader}

pub data RaftCall : Type 0 where
  add_voter : Text → Text → RaftCall
  add_nonvoter : Text → Text → RaftCall
  remove_server : Text → RaftCall

pub record JoinRequest : Type 0 where
  pub cluster_name : Text
  pub id : Text
  pub addr : Text
  pub voter : Bool

-- What a node knows of itself: the name of its cluster, and whether it leads.
pub record Server : Type 0 where
  pub cluster_name : Text
  pub is_leader : Bool

abbrev pub add_call : Text → Text → Bool → RaftCall
add_call id addr voter = if voter then add_voter id addr else add_nonvoter id addr

unfoldable pub logged : List RaftCall × Option Error → List RaftCall × Handled
logged (log, e) = (log, finish e)

abbrev pub text_error : Option Text → Option Error
text_error none = none
text_error (some t) = some (other t)

module _ (raft : RaftCall → Option Text) where
  unfoldable pub leader_add_node : List RaftCall → Text → Text → Bool → List RaftCall × Option Error
  leader_add_node log id addr voter =
      let call = add_call id addr voter in
      (call ∷ log, wrap (text_error (raft call)) internal_server_error)

  unfoldable pub handle_add_node :
      Server → List RaftCall → Body JoinRequest → List RaftCall × Handled
  handle_add_node sv log (undecodable e) =
      (log, http_error (codes "failed to decode join request") bad_request)
  handle_add_node sv log (body jr) =
      if text_eq jr.id [] || text_eq jr.addr []
      then (log, http_error (codes "invalid join request") bad_request)
      else if not (text_eq jr.cluster_name sv.cluster_name)
      then (log, http_error (codes "wrong cluster name") forbidden)
      else if not sv.is_leader
      then (log, http_error (codes "not leader") service_unavailable)
      else logged (leader_add_node log jr.id jr.addr jr.voter)

  unfoldable pub leader_drop_node : List RaftCall → Text → List RaftCall × Option Error
  leader_drop_node log id =
      (remove_server id ∷ log, wrap (text_error (raft (remove_server id))) internal_server_error)

  unfoldable pub handle_drop_node : Server → List RaftCall → Text → List RaftCall × Handled
  handle_drop_node sv log id =
      if text_eq id []
      then (log, http_error (codes "invalid request") bad_request)
      else if not sv.is_leader
      then (log, http_error (codes "not leader") service_unavailable)
      else logged (leader_drop_node log id)

  -- `AddNode` of a caller in the cluster `cluster_name`; `sv` is the node that a request reaches.
  unfoldable pub add_node :
      Caller → Server → Text → List RaftCall → Text → Text → Bool → List RaftCall × Option Error
  add_node c sv cluster_name log id addr voter =
      let jr : JoinRequest = record {
        cluster_name = cluster_name;
        id = id;
        addr = addr;
        voter = voter;
      } in
      if c.is_leader
      then leader_add_node log id addr voter
      else send_request_to_leader c log (λ l. handle_add_node sv l (body jr))

  -- `DropNode`: the leader's own removal is followed by a request to the leader.
  unfoldable pub drop_node : Caller → Server → List RaftCall → Text → List RaftCall × Option Error
  drop_node c sv log id =
      let after = if c.is_leader then (leader_drop_node log id).0 else log in
      send_request_to_leader c after (λ l. handle_drop_node sv l id)
