-- ===== src/Config/Stores.antt =====
-- `createRaftStore` and `createRaftSnapshotStore` of pkg/meta/service.go, on a configuration that
-- was tidied. What they open is named by the call that opens it.
use mathlib.Core.Path.{subst}
use xuandb.Prelude.{
  true, false, ◌≡◌, arith, if◌then◌else◌, Bool-cases, List, [], ◌∷◌, All, Option, none, some, ◌⊎◌,
  inl, inr, refl,
}
use xuandb.Prelude.Text.{Text, codes, text_eq}
use xuandb.Query.Run.{Run, returned, panicked}
use xuandb.Config.Sections.{Net, MetaConfig}
use xuandb.Config.Ready.{IsReadyMeta}
use xuandb.Config.Nodes.{IsReady, HasReadyMeta, tidy-IsCluster}
use xuandb.Config.{NodeConfig, Key, tidy, node_by_id}

-- `raft.NewInmemStore`, and `raftboltdb.New` on a file of the directory.
pub data RaftStore : Type 0 where
  inmem_store : RaftStore
  boltdb_store : Text → RaftStore

pub data SnapshotStore : Type 0 where
  discard_snapshots inmem_snapshots : SnapshotStore
  file_snapshots : Text → SnapshotStore

abbrev pub unreachable : Text
unreachable = codes "should not reach here"

-- `NewFileSnapshotStoreWithLogger` and `raftboltdb.New`, on a directory: the error's text, if any.
pub record Opening : Type 0 where
  pub new_file_snapshots : Text → Option Text
  pub new_bolt_store : Text → Option Text

-- `x, err` of a call: `x` without an error.
abbrev pub or_error {ℓ} : {A : Type ℓ} → Option Text → A → Text ⊎ A
or_error none x = inr x
or_error (some e) x = inl e

-- The error of the call that opens a store; nothing in memory has one.
unfoldable pub store_error : Opening → RaftStore → Option Text
store_error op inmem_store = none
store_error op (boltdb_store dir) = op.new_bolt_store dir

unfoldable pub snapshots_error : Opening → SnapshotStore → Option Text
snapshots_error op discard_snapshots = none
snapshots_error op inmem_snapshots = none
snapshots_error op (file_snapshots dir) = op.new_file_snapshots dir

unfoldable pub create_raft_store : Opening → MetaConfig → Run (Text ⊎ RaftStore)
create_raft_store op mc =
    if text_eq mc.raft_store (codes "memory")
    then returned (inr inmem_store)
    else if text_eq mc.raft_store (codes "boltdb")
    then returned (or_error (op.new_bolt_store mc.data_dir) (boltdb_store mc.data_dir))
    else panicked unreachable

unfoldable pub create_raft_snapshot_store : Opening → MetaConfig → Run (Text ⊎ SnapshotStore)
create_raft_snapshot_store op mc =
    if text_eq mc.raft_snapshot_store (codes "discard")
    then returned (inr discard_snapshots)
    else if text_eq mc.raft_snapshot_store (codes "memory")
    then returned (inr inmem_snapshots)
    else if text_eq mc.raft_snapshot_store (codes "file")
    then returned (or_error (op.new_file_snapshots mc.data_dir) (file_snapshots mc.data_dir))
    else panicked unreachable

-- A store that keeps files has a directory for them, that of the section.
abbrev pub HasDirectory : MetaConfig → RaftStore → Type 0
HasDirectory mc inmem_store = Unit
HasDirectory mc (boltdb_store dir) = (dir ≡ mc.data_dir) × (text_eq dir [] ≡ false)

abbrev pub HasSnapshotDirectory : MetaConfig → SnapshotStore → Type 0
HasSnapshotDirectory mc (file_snapshots dir) = (dir ≡ mc.data_dir) × (text_eq dir [] ≡ false)
HasSnapshotDirectory mc _ = Unit

-- The function comes to a store, unless the call that opens this store has an error.
abbrev pub IsOpened : Opening → MetaConfig → Type 0
IsOpened op mc =
    (store : RaftStore) × (create_raft_store op mc
      ≡ returned (or_error (store_error op store) store))
    × HasDirectory mc store

abbrev pub IsOpenedSnapshot : Opening → MetaConfig → Type 0
IsOpenedSnapshot op mc =
    (snapshots : SnapshotStore) × (create_raft_snapshot_store op mc
      ≡ returned (or_error (snapshots_error op snapshots) snapshots))
    × HasSnapshotDirectory mc snapshots

store-IsOpened : (op : Opening) (net : Net) (mc : MetaConfig) → IsReadyMeta net mc → IsOpened op mc
unfolding create_raft_store store_error
store-IsOpened op net mc ((store, snapshot), dir, port) =
    elim (Bool-cases (text_eq mc.raft_store (codes "memory"))) [
      | inl e ↦ (inmem_store, rw e refl, tt)
      | inr e ↦
          let known : text_eq mc.raft_store (codes "boltdb") ≡ true = ground (arith, store, e) in
          (boltdb_store mc.data_dir, rw (e, known) refl, (refl, ground (arith, dir, known)))
    ]

snapshot-IsOpened :
    (op : Opening) (net : Net) (mc : MetaConfig) → IsReadyMeta net mc → IsOpenedSnapshot op mc
unfolding create_raft_snapshot_store snapshots_error
snapshot-IsOpened op net mc ((store, snapshot), dir, port) =
    elim (Bool-cases (text_eq mc.raft_snapshot_store (codes "discard"))) [
      | inl e ↦ (discard_snapshots, rw e refl, tt)
      | inr e ↦ elim (Bool-cases (text_eq mc.raft_snapshot_store (codes "memory"))) [
        | inl f ↦ (inmem_snapshots, rw (e, f) refl, tt)
        | inr f ↦
            let known : text_eq mc.raft_snapshot_store (codes "file") ≡ true =
              ground (arith, snapshot, e, f) in
            (file_snapshots mc.data_dir, rw (e, f, known) refl, (refl, ground (arith, dir, known)))
      ]
    ]

abbrev IsReadyIfFound : Net → Option NodeConfig → Type 0
IsReadyIfFound net none = Unit
IsReadyIfFound net (some nc) = IsReady net nc

node_by_id-IsReadyIfFound :
    (net : Net) (id : Text) (nodes : List NodeConfig)
    → All (IsReady net) nodes
    → IsReadyIfFound net (node_by_id id nodes)
unfolding node_by_id
node_by_id-IsReadyIfFound net id [] all = tt
node_by_id-IsReadyIfFound net id (n ∷ nodes) (h, all) = elim (Bool-cases (text_eq n.id id)) [
  | inl same ↦ rw same h
  | inr other ↦ rw other (node_by_id-IsReadyIfFound net id nodes all)
]

ready-IsReadyMeta :
    (net : Net) (o : Option MetaConfig) (mc : MetaConfig)
    → o ≡ some mc
    → HasReadyMeta net o
    → IsReadyMeta net mc
ready-IsReadyMeta net o mc e h = subst (HasReadyMeta net) e h

-- On a node of a configuration that `tidy` accepted, each function that creates a store comes to
-- one, or to the error of the call that opens this store, and never to the panic "should not reach
-- here"; a store that keeps files has the directory of the section, which is not empty.
pub stores-IsOpened :
    (op : Opening) (net : Net) (show : List Text → Text) (nodes tidied : List NodeConfig)
    (keys : List Key) (id : Text) (nc : NodeConfig) (mc : MetaConfig)
    → tidy net show nodes keys ≡ returned (inr tidied)
    → node_by_id id tidied ≡ some nc
    → nc.meta ≡ some mc
    → IsOpened op mc × IsOpenedSnapshot op mc
stores-IsOpened op net show nodes tidied keys id nc mc loaded found section =
    let (all, _, _) = tidy-IsCluster net show nodes keys tidied loaded in
    let ready : IsReady net nc =
      subst (IsReadyIfFound net) found (node_by_id-IsReadyIfFound net id tidied all) in
    let ready_meta = ready-IsReadyMeta net nc.meta mc section ready.2 in
    (store-IsOpened op net mc ready_meta, snapshot-IsOpened op net mc ready_meta)
