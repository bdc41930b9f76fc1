-- ===== src/Meta/Node/Listing/Sorted.antt =====
-- What the listings show, and the states of `NodeStatuses`.
use mathlib.Core.List.{Perm}
use xuandb.Prelude.{
  ℕ, ◌≡◌, refl, ap, false, arith, ◌↔◌, List, [], ◌∷◌, map, All, ◌<◌, ◌≤◌, ◌+◌, ◌*◌,
}
use xuandb.Prelude.Map.{values}
use xuandb.Prelude.Text.{Text}
use xuandb.Prelude.Sort.{IsSorted, sort-IsSorted, sort-perm, text_less}
use xuandb.Meta.Types.{NodeInfo, Service}
use xuandb.Meta.Node.{second}
use xuandb.Meta.Node.Listing.{
  nodes, users, databases, up, unknown, down, state_at, status_of, node_statuses,
}

-- `Nodes`, `Users` and `Databases` show every entry once, in the order of their names.
pub listings_lem :
    (s : Service)
    → (IsSorted (λ ni. ni.id) (nodes s) × Perm (nodes s) (values s.nodes))
      × (IsSorted (λ u. u.name) (users s) × Perm (users s) (values s.md.users))
      × (IsSorted (λ db. db.name) (databases s) × Perm (databases s) (values s.md.databases))
unfolding nodes users databases
listings_lem s = (
  (sort-IsSorted _ _, sort-perm _ _),
  (sort-IsSorted _ _, sort-perm _ _),
  (sort-IsSorted _ _, sort-perm _ _),
)

-- A node is up if its heartbeat is less than ten seconds old, or ahead of the clock; down from
-- thirty seconds on; and unknown between.
pub state_at_lem :
    (now t : ℕ)
    → ((state_at now t ≡ up) ↔ (now < t + 10 * second))
      × ((state_at now t ≡ unknown) ↔ ((t + 10 * second ≤ now) × (now < t + 30 * second)))
      × ((state_at now t ≡ down) ↔ (t + 30 * second ≤ now))
unfolding state_at
state_at_lem now t = ground arith

map-node :
    (leader_id : Text) (now : ℕ) (xs : List NodeInfo)
    → map (λ st. st.node) (map (status_of leader_id now) xs) ≡ xs
unfolding status_of
map-node leader_id now [] = refl
map-node leader_id now (ni ∷ xs) = ap (λ ys. ni ∷ ys) (map-node leader_id now xs)

All-status_of :
    (leader_id : Text) (now : ℕ) (id : Text) (xs : List NodeInfo)
    → All (λ ni. text_less ni.id id ≡ false) xs
    → All (λ st. text_less st.node.id id ≡ false) (map (status_of leader_id now) xs)
unfolding status_of
All-status_of leader_id now id [] h = tt
All-status_of leader_id now id (ni ∷ xs) (p, h) = (p, All-status_of leader_id now id xs h)

IsSorted-status_of :
    (leader_id : Text) (now : ℕ) (xs : List NodeInfo)
    → IsSorted (λ ni. ni.id) xs
    → IsSorted (λ st. st.node.id) (map (status_of leader_id now) xs)
unfolding status_of
IsSorted-status_of leader_id now [] h = tt
IsSorted-status_of leader_id now (ni ∷ xs) (p, h) =
    (All-status_of leader_id now ni.id xs p, IsSorted-status_of leader_id now xs h)

-- `NodeStatuses` shows every node once, in the order of the identifiers.
pub node_statuses_lem :
    (leader_id : Text) (now : ℕ) (s : Service)
    → IsSorted (λ st. st.node.id) (node_statuses leader_id now s)
      × Perm (map (λ st. st.node) (node_statuses leader_id now s)) (values s.nodes)
unfolding node_statuses
node_statuses_lem leader_id now s = (
  IsSorted-status_of leader_id now (nodes s) (listings_lem s).0.0,
  rw (map-node leader_id now (nodes s)) (listings_lem s).0.1,
)
