-- ===== src/Meta/Startup/Service.antt =====
-- `start` and `StartService` of pkg/meta/service.go, up to the registration of the handlers. The
-- calls of hashicorp/raft and raft-boltdb are parameters; what they return is an error's text.
use xuandb.Prelude.{
  Bool, true, false, ◌≡◌, refl, ap, ◌∙◌, List, [], ◌∷◌, map, All, Option, none, some, ◌⊎◌, inl, inr,
}
use xuandb.Prelude.Text.{Text}
use xuandb.Query.Run.{Run, returned, and_then}
use xuandb.Config.{NodeConfig, Key, tidy, node_by_id}
use xuandb.Config.Sections.{Net, MetaConfig}
use xuandb.Config.Stores.{
  RaftStore, SnapshotStore, Opening, or_error, store_error, snapshots_error, create_raft_store,
  create_raft_snapshot_store, stores-IsOpened,
}
use xuandb.Meta.Startup.{Network, Startup, with_meta, join_or_bootstrap}
use xuandb.Meta.Startup.Outcome.{
  Peer, IsKnown, server_of, any_admits, outcome, with_meta-some, and_then-returned,
  join_or_bootstrap-outcome,
}

-- `NewTCPTransportWithLogger`, the calls that open the stores, `HasExistingState`, and `NewRaft`.
pub record Raft : Type 0 where
  pub new_transport : Text → Option Text
  pub opening : Opening
  pub has_existing_state : RaftStore → SnapshotStore → Text ⊎ Bool
  pub new_raft : Text → RaftStore → SnapshotStore → Option Text

-- `if err != nil { return false, err }`
abbrev pub unless_error : Option Text → Run (Text ⊎ Bool) → Run (Text ⊎ Bool)
unless_error none rest = rest
unless_error (some e) rest = returned (inl e)

abbrev pub with_opened {ℓ} : {A : Type ℓ} → (A → Run (Text ⊎ Bool)) → Text ⊎ A → Run (Text ⊎ Bool)
with_opened rest (inl e) = returned (inl e)
with_opened rest (inr x) = rest x

abbrev pub with_state : Text ⊎ Bool → Option Text → Run (Text ⊎ Bool)
with_state (inl e) created = returned (inl e)
with_state (inr has_state) created = unless_error created (returned (inr has_state))

-- `if !hasState { svcInst.joinOrBootstrap() }`; there is no `Startup` where there is a state.
abbrev pub join_unless : Run Startup → Text ⊎ Bool → Run (Text ⊎ Option Startup)
join_unless join (inl e) = returned (inl e)
join_unless join (inr true) = returned (inr none)
join_unless join (inr false) = and_then join (λ o. returned (inr (some o)))

module _ (ra : Raft) where
  unfoldable pub start : NodeConfig → Run (Text ⊎ Bool)
  start cur = with_meta cur.meta (λ mc. unless_error (ra.new_transport mc.raft_addr) (
      and_then (create_raft_snapshot_store ra.opening mc) (
        with_opened (λ snapshots. and_then (create_raft_store ra.opening mc) (
          with_opened (λ store.
            with_state (ra.has_existing_state store snapshots)
              (ra.new_raft cur.id store snapshots)))))))

  unfoldable pub start_service :
      Network → Text → NodeConfig → List NodeConfig → Run (Text ⊎ Option Startup)
  start_service net cluster_name cur nodes =
      and_then (start cur) (join_unless (join_or_bootstrap net cluster_name cur nodes))

-- The first error of some calls.
abbrev pub first_error : List (Option Text) → Option Text
first_error [] = none
first_error (some e ∷ es) = some e
first_error (none ∷ es) = first_error es

abbrev pub error_of : Text ⊎ Bool → Option Text
error_of (inl e) = some e
error_of (inr has_state) = none

-- What the service comes to without an error: nothing is asked of other nodes where there is a state.
abbrev pub begun : Option Text → Text ⊎ Bool → Startup → Text ⊎ Option Startup
begun (some e) has_state o = inl e
begun none (inl e) o = inl e
begun none (inr true) o = inr none
begun none (inr false) o = inr (some o)

start_lem :
    (t s o : Option Text) (h : Text ⊎ Bool) (n : Option Text) (join : Run Startup) (out : Startup)
    → join ≡ returned out
    → and_then
        (unless_error t (unless_error s (unless_error o (with_state h n))))
        (join_unless join)
      ≡ returned (begun (first_error (t ∷ s ∷ o ∷ error_of h ∷ n ∷ [])) h out)
unfolding and_then
start_lem (some e) s o h n join out j = refl
start_lem none (some e) o h n join out j = refl
start_lem none none (some e) h n join out j = refl
start_lem none none none (inl e) n join out j = refl
start_lem none none none (inr b) (some e) join out j = refl
start_lem none none none (inr true) none join out j = refl
start_lem none none none (inr false) none join out j = and_then-returned j _

-- A store behind its error.
opened_lem {ℓ} :
    {A : Type ℓ} (o : Option Text) (x : A) (rest : A → Run (Text ⊎ Bool))
    → and_then (returned (or_error o x)) (with_opened rest) ≡ unless_error o (rest x)
unfolding and_then
opened_lem none x rest = refl
opened_lem (some e) x rest = refl

-- `start` with its stores.
start_opened :
    (ra : Raft) (nc : NodeConfig) (mc : MetaConfig) (store : RaftStore) (snapshots : SnapshotStore)
    → nc.meta ≡ some mc
    → create_raft_store ra.opening mc ≡ returned (or_error (store_error ra.opening store) store)
    → create_raft_snapshot_store ra.opening mc
      ≡ returned (or_error (snapshots_error ra.opening snapshots) snapshots)
    → start ra nc
      ≡ unless_error (ra.new_transport mc.raft_addr) (
          unless_error (snapshots_error ra.opening snapshots) (
            unless_error (store_error ra.opening store) (
              with_state
                (ra.has_existing_state store snapshots)
                (ra.new_raft nc.id store snapshots))))
unfolding start
start_opened ra nc mc store snapshots m e f =
    let checked : SnapshotStore → RaftStore → Run (Text ⊎ Bool) = λ snapshots store.
      with_state (ra.has_existing_state store snapshots) (ra.new_raft nc.id store snapshots) in
    let stored : SnapshotStore → Run (Text ⊎ Bool) =
      λ snapshots. and_then (create_raft_store ra.opening mc) (with_opened (checked snapshots)) in
    with_meta-some m _
    ∙ ap (unless_error (ra.new_transport mc.raft_addr)) (
        ap (λ r. and_then r (with_opened stored)) f
        ∙ opened_lem (snapshots_error ra.opening snapshots) snapshots stored
        ∙ ap (unless_error (snapshots_error ra.opening snapshots)) (
            ap (λ r. and_then r (with_opened (checked snapshots))) e
            ∙ opened_lem (store_error ra.opening store) store (checked snapshots)))

-- On a node of a configuration that `tidy` accepted, with the addresses of all nodes known,
-- `StartService` returns, with the stores of its section: the first error of the calls that open
-- raft, in their order; or, where raft has a state, without asking another node; or else with what
-- joining or bootstrapping comes to: it joins if another voter admits it, and if none does it
-- bootstraps a cluster of all nodes where it is a voter itself, and else waits.
pub start_service-begun :
    (ra : Raft) (net : Network) (cluster_name : Text) (config_net : Net) (show : List Text → Text)
    (nodes : List NodeConfig) (keys : List Key) (id : Text) (cur : Peer) (ps : List Peer)
    → tidy config_net show nodes keys ≡ returned (inr (map (λ p. p.node) ps))
    → node_by_id id (map (λ p. p.node) ps) ≡ some cur.node
    → IsKnown net cur
    → All (IsKnown net) ps
    → (store : RaftStore) × (snapshots : SnapshotStore) × (create_raft_store ra.opening cur.section
        ≡ returned (or_error (store_error ra.opening store) store))
      × (create_raft_snapshot_store ra.opening cur.section
          ≡ returned (or_error (snapshots_error ra.opening snapshots) snapshots))
      × (start_service ra net cluster_name cur.node (map (λ p. p.node) ps)
          ≡ returned (
              begun
                (first_error (
                  ra.new_transport cur.section.raft_addr
                  ∷ snapshots_error ra.opening snapshots
                  ∷ store_error ra.opening store
                  ∷ error_of (ra.has_existing_state store snapshots)
                  ∷ ra.new_raft cur.node.id store snapshots
                  ∷ []))
                (ra.has_existing_state store snapshots)
                (outcome net cluster_name cur
                  (map server_of ps)
                  (any_admits net cluster_name cur ps))))
unfolding start_service
start_service-begun ra net cluster_name config_net show nodes keys id cur ps loaded found known
      all =
    let mc = cur.section in
    let ((store, e, _), (snapshots, f, _)) =
      stores-IsOpened ra.opening config_net show nodes (map (λ p. p.node) ps) keys id cur.node mc
        loaded found known.0 in
    let join = join_or_bootstrap net cluster_name cur.node (map (λ p. p.node) ps) in
    let state = ra.has_existing_state store snapshots in
    (
      store,
      snapshots,
      e,
      f,
      ap (λ r. and_then r (join_unless join))
            (start_opened ra cur.node mc store snapshots known.0 e f)
          ∙ start_lem (ra.new_transport mc.raft_addr) (snapshots_error ra.opening snapshots)
              (store_error ra.opening store) state (ra.new_raft cur.node.id store snapshots) join
              (outcome net cluster_name cur (map server_of ps) (any_admits net cluster_name cur ps))
              (join_or_bootstrap-outcome net cluster_name cur ps known all),
    )
