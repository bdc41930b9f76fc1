-- ===== src/Meta/Tests/Startup.antt =====
-- A node that starts beside a voter that lets it join.
use xuandb.Prelude.{true, false, [], ◌∷◌, ◌≡◌, refl, map, none, some, inr, List}
use xuandb.Prelude.Text.{Text, codes, text_eq}
use xuandb.Query.Run.{returned}
use xuandb.Config.{NodeConfig}
use xuandb.Config.Sections.{MetaConfig}
use xuandb.Meta.Startup.{Network, to_external_address, join_or_bootstrap}
use xuandb.Meta.Startup.Outcome.{
  Peer, IsKnown, server_of, any_admits, outcome, join_or_bootstrap-outcome,
}

abbrev net : Network
net = record {
  split_host_port = λ a. inr (a, codes "80");
  join_host_port = λ host port. host;
  post = λ addr request. inr (record { code = 204; text = [] });
}

abbrev section : MetaConfig
section = record {
  raft_voter = true;
  raft_addr = codes "10.0.0.1:80";
  raft_store = codes "memory";
  raft_snapshot_store = codes "discard";
  data_dir = [];
}

abbrev node : Text → NodeConfig
node id = record {
  id = id;
  domain_name = id;
  http_addr = codes "10.0.0.1:81";
  enable_pprof = false;
  logger = none;
  meta = some section;
  data_dir = none;
}

abbrev peer : Text → Peer
peer id = record { node = node id; section = section; raft_addr = id; http_addr = id }

abbrev peers : List Peer
peers = peer (codes "a") ∷ peer (codes "b") ∷ []

known : IsKnown net (peer (codes "a")) × IsKnown net (peer (codes "b"))
unfolding to_external_address text_eq
known = ((refl, refl, refl), (refl, refl, refl))

join_or_bootstrap-outcome_example :
    join_or_bootstrap net (codes "c") (node (codes "a")) (map (λ p. p.node) peers)
    ≡ returned (
        outcome net
          (codes "c")
          (peer (codes "a"))
          (map server_of peers)
          (any_admits net (codes "c") (peer (codes "a")) peers))
join_or_bootstrap-outcome_example =
    join_or_bootstrap-outcome net (codes "c") (peer (codes "a")) peers known.0
      (known.0, (known.1, tt))
