-- ===== src/Config/Tests.antt =====
-- A configuration of two nodes, one of them the default, and a service that is started on it.
use xuandb.Prelude.{true, false, List, [], ◌∷◌, ◌≡◌, refl, none, some, inl, inr}
use xuandb.Prelude.Text.{Text, codes, text_eq}
use xuandb.Prelude.Unicode.{ascii, to_lower}
use xuandb.Query.Run.{returned, and_then}
use xuandb.Config.Sections.{
  Net, MetaConfig, dflt_logger_cfg, logger_over, log_format, meta_update_default, meta_tidy,
  required_addr, default_addr, raft_store_of, snapshot_store_of, voter_config, needed_dir,
}
use xuandb.Config.{
  NodeConfig, Key, tidy, tidy_nodes, extract_node_keys, extract_loop, append_last, find_default,
  defaults_of, node_update_default, node_tidy, tidy_meta, tidy_all, contains, check_voters,
  num_voter, node_by_id,
}
use xuandb.Config.Nodes.{IsCluster, tidy-IsCluster}
use xuandb.Config.Stores.{
  RaftStore, SnapshotStore, Opening, or_error, store_error, snapshots_error, create_raft_store,
  create_raft_snapshot_store, IsOpened, IsOpenedSnapshot, stores-IsOpened,
}
use xuandb.Xerrors.{new, internal_server_error}
use xuandb.Meta.Startup.{Network, to_external_address}
use xuandb.Meta.Startup.Outcome.{Peer, IsKnown, server_of, any_admits, outcome}
use xuandb.Meta.Startup.Service.{Raft, begun, first_error, start_service, start_service-begun}

abbrev net : Net
net = record {
  unicode = ascii;
  parse_addr_port = λ t. inr (record { is_unspecified = true; port = 80 });
}

abbrev show : List Text → Text
show [] = []
show (p ∷ ps) = p

abbrev default_node : NodeConfig
default_node = record {
  id = codes "#default#";
  domain_name = [];
  http_addr = codes "0.0.0.0:80";
  enable_pprof = false;
  logger = none;
  meta = none;
  data_dir = none;
}

abbrev section : Text → Text → MetaConfig
section store snapshots = record {
  raft_voter = true;
  raft_addr = codes "10.0.0.1:80";
  raft_store = store;
  raft_snapshot_store = snapshots;
  data_dir = codes "d";
}

abbrev node : NodeConfig
node = record default_node {
  id = codes "a";
  http_addr = [];
  meta = some (section (codes "BoltDB") (codes "none"));
}

abbrev tidied_section : MetaConfig
tidied_section = section (codes "boltdb") (codes "discard")

abbrev tidied_node : NodeConfig
tidied_node = record node {
  http_addr = codes "0.0.0.0:80";
  logger = some dflt_logger_cfg;
  meta = some tidied_section;
}

abbrev keys : List Key
keys =
    (codes "cluster-name", [])
    ∷ (codes "node", [])
    ∷ (codes "node", codes "id" ∷ [])
    ∷ (codes "node", [])
    ∷ (codes "node", codes "meta.raft-voter" ∷ [])
    ∷ []

loaded : tidy net show (default_node ∷ node ∷ []) keys ≡ returned (inr (tidied_node ∷ []))
unfolding tidy tidy_nodes extract_node_keys extract_loop append_last find_default defaults_of
    node_update_default node_tidy tidy_meta tidy_all contains check_voters num_voter logger_over
    log_format meta_update_default meta_tidy required_addr default_addr raft_store_of
    snapshot_store_of voter_config needed_dir to_lower text_eq and_then
loaded = refl

tidy-IsCluster_example : IsCluster net (tidied_node ∷ [])
tidy-IsCluster_example =
    tidy-IsCluster net show (default_node ∷ node ∷ []) keys (tidied_node ∷ []) loaded

found : node_by_id (codes "a") (tidied_node ∷ []) ≡ some tidied_node
unfolding node_by_id text_eq
found = refl

abbrev no_disk : Opening
no_disk = record {
  new_file_snapshots = λ dir. none;
  new_bolt_store = λ dir. some (codes "no space left on device");
}

stores-IsOpened_example : IsOpened no_disk tidied_section × IsOpenedSnapshot no_disk tidied_section
stores-IsOpened_example =
    stores-IsOpened no_disk net show (default_node ∷ node ∷ []) (tidied_node ∷ []) keys (codes "a")
      tidied_node tidied_section loaded found refl

-- A node that is alone, and has no state.
abbrev no_others : Network
no_others = record {
  split_host_port = λ a. inr (a, codes "80");
  join_host_port = λ host port. host;
  post = λ addr request. inl (new internal_server_error (codes "refused"));
}

abbrev opens : Raft
opens = record {
  new_transport = λ addr. none;
  opening = record { new_file_snapshots = λ dir. none; new_bolt_store = λ dir. none };
  has_existing_state = λ store snapshots. inr false;
  new_raft = λ id store snapshots. none;
}

abbrev alone : Peer
alone = record {
  node = tidied_node;
  section = tidied_section;
  raft_addr = codes "10.0.0.1:80";
  http_addr = codes "0.0.0.0:80";
}

alone-IsKnown : IsKnown no_others alone
unfolding to_external_address text_eq
alone-IsKnown = (refl, refl, refl)

start_service-begun_example :
    (store : RaftStore) × (snapshots : SnapshotStore) × (create_raft_store opens.opening
        tidied_section
      ≡ returned (or_error (store_error opens.opening store) store))
    × (create_raft_snapshot_store opens.opening tidied_section
        ≡ returned (or_error (snapshots_error opens.opening snapshots) snapshots))
    × (start_service opens no_others (codes "c") tidied_node (tidied_node ∷ [])
        ≡ returned (
            begun
              (first_error (
                none
                ∷ snapshots_error opens.opening snapshots
                ∷ store_error opens.opening store
                ∷ none
                ∷ none
                ∷ []))
              (inr false)
              (outcome no_others
                (codes "c")
                alone
                (server_of alone ∷ [])
                (any_admits no_others (codes "c") alone (alone ∷ [])))))
start_service-begun_example =
    start_service-begun opens no_others (codes "c") net show (default_node ∷ node ∷ []) keys
      (codes "a") alone (alone ∷ []) loaded found alone-IsKnown (alone-IsKnown, tt)
