-- ===== src/Meta/Startup.antt =====
-- `joinOrBootstrap` of pkg/meta/service.go with `join` of node.go and `ToExternalAddress` of
-- pkg/config/config.go. What a request to another node gives is a parameter; so are
-- `net.SplitHostPort`, whose error is its text, and `net.JoinHostPort`.
pub mod Outcome
pub mod Service
use xuandb.Prelude.{
  ℕ, Bool, true, false, not, ◌&&◌, ◌||◌, ◌≡◌, refl, ap, ◌∙◌, ltb, if◌then◌else◌, Bool-cases, List,
  [], ◌∷◌, ◌++◌, append_assoc, append-nil, map, All, Option, none, some, ◌⊎◌, inl, inr,
}
use xuandb.Prelude.Text.{Text, codes, text_eq}
use xuandb.Xerrors.{Error, from_http_response}
use xuandb.Query.Run.{Run, returned, panicked, and_then}
use xuandb.Meta.Handler.{Reply}
use xuandb.Meta.Node.Membership.{JoinRequest}
use xuandb.Config.{NodeConfig}
use xuandb.Config.Sections.{MetaConfig}

-- The other nodes and the functions of package net.
pub record Network : Type 0 where
  pub split_host_port : Text → Text ⊎ (Text × Text)
  pub join_host_port : Text → Text → Text
  pub post : Text → JoinRequest → Error ⊎ Reply

-- A server of the configuration that a cluster is bootstrapped with.
pub record RaftServer : Type 0 where
  pub id : Text
  pub addr : Text
  pub voter : Bool

-- The node joined a cluster, bootstraps one with these servers, or waits for a leader to add it.
pub data Startup : Type 0 where
  joined : Startup
  bootstraps : List RaftServer → Startup
  waits : Startup

unfoldable pub to_external_address : Network → NodeConfig → Text → Run Text
to_external_address net nc addr =
    if text_eq nc.domain_name [] then returned addr else elim (net.split_host_port addr) [
      | inl e ↦ panicked e
      | inr p ↦ returned (net.join_host_port nc.domain_name p.1)
    ]

abbrev nil_pointer {ℓ} : {A : Type ℓ} → Run A
nil_pointer = panicked (codes "nil pointer dereference")

-- The meta section of a node that was tidied.
abbrev pub with_meta {ℓ} : {A : Type ℓ} → Option MetaConfig → (MetaConfig → Run A) → Run A
with_meta none f = nil_pointer
with_meta (some mc) f = f mc

-- From the reply on: `nil`, or an error.
unfoldable pub join_result : Error ⊎ Reply → Option Error
join_result (inl e) = some e
join_result (inr r) = if ltb r.code 300 then none else some (from_http_response r.code r.text)

module _ (net : Network) (cluster_name : Text) (cur : NodeConfig) where
  abbrev pub join_request : Text → MetaConfig → JoinRequest
  join_request addr mc = record {
    cluster_name = cluster_name;
    id = cur.id;
    addr = addr;
    voter = mc.raft_voter;
  }

  unfoldable pub join : Text → Run (Option Error)
  join addr = with_meta cur.meta (λ mc.
      and_then (to_external_address net cur mc.raft_addr)
        (λ external. returned (join_result (net.post addr (join_request external mc)))))

  -- Behind the loop.
  unfoldable pub bootstrap : List RaftServer → Run Startup
  bootstrap servers =
      with_meta cur.meta (λ mc. returned (if mc.raft_voter then bootstraps servers else waits))

  -- The loop; `servers` are those of the nodes before.
  unfoldable pub join_loop : List RaftServer → List NodeConfig → Run Startup
  join_loop servers [] = bootstrap servers
  join_loop servers (nc ∷ nodes) = with_meta nc.meta (λ mc.
      and_then (to_external_address net nc mc.raft_addr) (λ addr.
        let server : RaftServer = record { id = nc.id; addr = addr; voter = mc.raft_voter } in
        let rest = join_loop (servers ++ server ∷ []) nodes in
        if not mc.raft_voter || text_eq nc.id cur.id
        then rest
        else and_then (to_external_address net nc nc.http_addr) (λ http_addr.
          and_then (join http_addr) (λ e. elim e [ none ↦ returned joined | some _ ↦ rest ]))))

  unfoldable pub join_or_bootstrap : List NodeConfig → Run Startup
  join_or_bootstrap nodes = join_loop [] nodes
