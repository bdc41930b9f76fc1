-- ===== src/Meta/Startup/Outcome.antt =====
-- What `joinOrBootstrap` of pkg/meta/service.go comes to.
use xuandb.Prelude.{
  Bool, true, false, not, ◌&&◌, ◌||◌, ◌≡◌, refl, ap, sym, ◌∙◌, if◌then◌else◌, Bool-cases, List, [],
  ◌∷◌, ◌++◌, append_assoc, append-nil, map, All, Option, none, some, inl, inr,
}
use xuandb.Prelude.Text.{Text, text_eq}
use xuandb.Query.Run.{Run, returned, and_then}
use xuandb.Xerrors.{Error}
use xuandb.Config.{NodeConfig}
use xuandb.Config.Sections.{MetaConfig}
use xuandb.Meta.Startup.{
  Network, RaftServer, Startup, joined, bootstraps, waits, to_external_address, with_meta,
  join_result, join_request, join, bootstrap, join_loop, join_or_bootstrap,
}

-- A node with its meta section, and its addresses as others see them.
pub record Peer : Type 0 where
  pub node : NodeConfig
  pub section : MetaConfig
  pub raft_addr : Text
  pub http_addr : Text

abbrev pub IsKnown : Network → Peer → Type 0
IsKnown net p =
    (p.node.meta ≡ some p.section)
    × (to_external_address net p.node p.section.raft_addr ≡ returned p.raft_addr)
    × (to_external_address net p.node p.node.http_addr ≡ returned p.http_addr)

abbrev pub server_of : Peer → RaftServer
server_of p = record { id = p.node.id; addr = p.raft_addr; voter = p.section.raft_voter }

abbrev pub is_none {ℓ} : {A : Type ℓ} → Option A → Bool
is_none none = true
is_none (some a) = false

pub with_meta-some {ℓ} :
    {A : Type ℓ} {o : Option MetaConfig} {mc : MetaConfig}
    → o ≡ some mc
    → (f : MetaConfig → Run A) → with_meta o f ≡ f mc
with_meta-some e f = ap (λ o. with_meta o f) e

pub and_then-returned {ℓ κ} :
    {A : Type ℓ} {B : Type κ} {r : Run A} {a : A}
    → r ≡ returned a
    → (f : A → Run B) → and_then r f ≡ f a
unfolding and_then
and_then-returned e f = ap (λ r. and_then r f) e

module _ (net : Network) (cluster_name : Text) (cur : Peer) where
  -- What a node answers to the request to join.
  abbrev pub reply_of : Peer → Option Error
  reply_of p =
      join_result
        (net.post p.http_addr (join_request net cluster_name cur.node cur.raft_addr cur.section))

  abbrev pub is_asked : Peer → Bool
  is_asked p = not (not p.section.raft_voter || text_eq p.node.id cur.node.id)

  -- Another voter that lets the node join.
  abbrev pub admits : Peer → Bool
  admits p = is_asked p && is_none (reply_of p)

  unfoldable pub any_admits : List Peer → Bool
  any_admits [] = false
  any_admits (p ∷ ps) = admits p || any_admits ps

  unfoldable pub outcome : List RaftServer → Bool → Startup
  outcome servers admitted =
      if admitted then joined else if cur.section.raft_voter then bootstraps servers else waits

  -- A run up to an answer, and how it goes on if there is an error.
  abbrev answered_by : Option Error → Run Startup → Run Startup
  answered_by e rest = elim e [ none ↦ returned joined | some _ ↦ rest ]

  join-known :
      IsKnown net cur
      → (addr : Text)
      → join net cluster_name cur.node addr
        ≡ returned (
            join_result
              (net.post addr (join_request net cluster_name cur.node cur.raft_addr cur.section)))
  unfolding join
  join-known (m, r, h) addr = with_meta-some m _ ∙ and_then-returned r _

  bootstrap-known :
      IsKnown net cur
      → (servers : List RaftServer)
      → bootstrap net cluster_name cur.node servers ≡ returned (outcome servers false)
  unfolding bootstrap outcome
  bootstrap-known (m, r, h) servers = with_meta-some m _

  -- The rest of the loop counts unless the node at hand admits.
  answered-outcome :
      (e : Option Error) (rest : Run Startup) (servers : List RaftServer) (others : Bool)
      → rest ≡ returned (outcome servers others)
      → answered_by e rest ≡ returned (outcome servers (is_none e || others))
  unfolding outcome
  answered-outcome none rest servers others h = refl
  answered-outcome (some e) rest servers others h = h

  join_loop-outcome :
      (servers : List RaftServer) (ps : List Peer)
      → IsKnown net cur
      → All (IsKnown net) ps
      → join_loop net cluster_name cur.node servers (map (λ p. p.node) ps)
        ≡ returned (outcome (servers ++ map server_of ps) (any_admits ps))
  unfolding join_loop any_admits
  join_loop-outcome servers [] known all =
      bootstrap-known known servers
      ∙ ap (λ s. returned (outcome s false)) (sym (append-nil servers))
  join_loop-outcome servers (p ∷ ps) known ((m, r, h), all) =
      let rest =
        join_loop net cluster_name cur.node (servers ++ server_of p ∷ []) (map (λ p. p.node) ps) in
      let ih =
        join_loop-outcome (servers ++ server_of p ∷ []) ps known all
        ∙ ap (λ s. returned (outcome s (any_admits ps)))
            (append_assoc servers (server_of p ∷ []) (map server_of ps)) in
      with_meta-some m _
      ∙ and_then-returned r _
      ∙ elim (Bool-cases (not p.section.raft_voter || text_eq p.node.id cur.node.id)) [
        | inl skipped ↦ rw skipped ih
        | inr asked ↦ rw asked (
            and_then-returned h _
            ∙ and_then-returned (join-known known p.http_addr) _
            ∙ answered-outcome (reply_of p) rest (servers ++ map server_of (p ∷ ps)) (any_admits ps)
                ih)
      ]

  -- With every address known: the node joins if another voter admits it; if none does it bootstraps
  -- a cluster of all nodes where it is a voter itself, and else waits.
  pub join_or_bootstrap-outcome :
      (ps : List Peer)
      → IsKnown net cur
      → All (IsKnown net) ps
      → join_or_bootstrap net cluster_name cur.node (map (λ p. p.node) ps)
        ≡ returned (outcome (map server_of ps) (any_admits ps))
  unfolding join_or_bootstrap
  join_or_bootstrap-outcome ps known all = join_loop-outcome [] ps known all
