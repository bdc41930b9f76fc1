-- ===== src/Meta/Node/Membership/Calls.antt =====
-- The membership calls that the handlers of pkg/meta/node.go and `DropNode` make.
use xuandb.Prelude.{
  ℕ, ◌≡◌, ◌∙◌, arith, true, false, ◌⊎◌, [], ◌∷◌, List, Option, none, if◌then◌else◌, ◌≤◌,
}
use xuandb.Prelude.Text.{Text, text_eq}
use xuandb.Meta.Handler.{body, Handled, replied, assertion_failed}
use xuandb.Meta.Client.{Caller, send_request_to_leader, reply_of}
use xuandb.Meta.Node.Membership.{
  RaftCall, remove_server, JoinRequest, Server, add_call, logged, handle_add_node, leader_add_node,
  leader_drop_node, handle_drop_node, drop_node,
}

-- What `handleAddNode` asks of a request.
abbrev pub Admitted : Server → JoinRequest → Type 0
Admitted sv jr =
    (text_eq jr.id [] ≡ false)
    × (text_eq jr.addr [] ≡ false)
    × (text_eq jr.cluster_name sv.cluster_name ≡ true)
    × (sv.is_leader ≡ true)

unfoldable pub reply_code : Handled → ℕ
reply_code (replied r) = r.code
reply_code assertion_failed = 0

module _ (raft : RaftCall → Option Text) where
  -- A join request reaches raft exactly if it names an identifier and an address, is for this
  -- node's cluster, and this node is the leader: then raft gets one call, for a voter or a
  -- nonvoter as asked. Any other request makes no call, and its reply is an error.
  pub handle_add_node_lem :
      (sv : Server) (log : List RaftCall) (jr : JoinRequest)
      → (Admitted sv jr
          × ((handle_add_node raft sv log (body jr)).0 ≡ add_call jr.id jr.addr jr.voter ∷ log))
        ⊎ (¬ Admitted sv jr
            × ((handle_add_node raft sv log (body jr)).0 ≡ log)
            × (400 ≤ reply_code (handle_add_node raft sv log (body jr)).1))
  unfolding reply_code handle_add_node leader_add_node logged
  handle_add_node_lem sv log jr = ground arith

  requested :
      (c : Caller) (sv : Server) (log : List RaftCall) (id : Text)
      → text_eq id [] ≡ false
      → sv.is_leader ≡ true
      → text_eq c.leader_http_addr [] ≡ false
      → c.transport ≡ none
      → (send_request_to_leader c log (λ l. handle_drop_node raft sv l id)).0
        ≡ remove_server id ∷ log
  unfolding send_request_to_leader reply_of handle_drop_node leader_drop_node logged
  requested c sv log id named leads known sent = ground arith

  -- `DropNode` on the leader asks raft twice to remove the node, once itself and once through the
  -- request that it sends to the leader; on a follower, once. The node is named, a leader is
  -- known, and the request reaches it.
  pub drop_node_lem :
      (c : Caller) (sv : Server) (log : List RaftCall) (id : Text)
      → text_eq id [] ≡ false
      → sv.is_leader ≡ true
      → text_eq c.leader_http_addr [] ≡ false
      → c.transport ≡ none
      → (drop_node raft c sv log id).0 ≡ (
          if c.is_leader then remove_server id ∷ remove_server id ∷ log else remove_server id ∷ log)
  unfolding drop_node leader_drop_node
  drop_node_lem c sv log id named leads known sent =
      requested c sv (if c.is_leader then remove_server id ∷ log else log) id named leads known sent
      ∙ ground arith
