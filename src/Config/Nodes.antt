-- ===== src/Config/Nodes.antt =====
-- What the nodes are like once pkg/config has tidied the file without an error.
use mathlib.Core.Path.{subst}
use xuandb.Prelude.{
  true, false, ◌==◌, ◌%◌, ◌≡◌, refl, arith, ap, ◌∙◌, Bool-cases, List, [], ◌∷◌, ◌++◌, All, Option,
  none, some, ◌⊎◌, inl, inr,
}
use xuandb.Prelude.Text.{Text, codes, text_eq}
use xuandb.Query.Run.{Run, returned, panicked, and_then}
use xuandb.Config.Sections.{
  Net, HasKey, or_fail, or_text, MetaConfig, default_addr, required_addr, logger_over,
  meta_update_default,
}
use xuandb.Config.Ready.{
  Holds, or_fail-Holds, IsStored, IsReadyMeta, has_port, required_addr-Holds, meta_tidy-Holds,
  meta_update_default-Holds,
}
use xuandb.Config.{
  NodeConfig, Defaults, dflt_node_cfg, under, update_section, node_update_default, tidy_meta,
  node_tidy, Keys, contains, Found, find_default, defaults_of, seen, with_rest, tidy_all, num_voter,
  check_voters, tidy_nodes, Key, extract_node_keys, tidy,
}

abbrev pub HasReadyMeta : Net → Option MetaConfig → Type 0
HasReadyMeta net none = ⊥
HasReadyMeta net (some mc) = IsReadyMeta net mc

-- A node has an identifier, an address with a port for its HTTP server, and a ready meta section.
abbrev pub IsReady : Net → NodeConfig → Type 0
IsReady net nc =
    (text_eq nc.id [] ≡ false) × (has_port net nc.http_addr ≡ true) × HasReadyMeta net nc.meta

any {ℓ} : {A : Type ℓ} (r : Text ⊎ A) → Holds (λ a. Unit) r
any (inl e) = tt
any (inr a) = tt

update_section-Holds :
    (P : MetaConfig → Type 0) (f : MetaConfig → Text ⊎ MetaConfig) (dflt : MetaConfig)
    (o : Option MetaConfig)
    → P dflt
    → ((c : MetaConfig) → Holds P (f c))
    → Holds P (update_section f dflt o)
update_section-Holds P f dflt none d h = d
update_section-Holds P f dflt (some c) d h = h c

abbrev StoredMeta : Defaults → Type 0
StoredMeta d = IsStored d.meta

node_update_default-Holds :
    (net : Net) (has_key : HasKey) (dflt : Defaults) (nc : NodeConfig)
    → IsStored dflt.meta
    → Holds StoredMeta (node_update_default net has_key dflt nc)
unfolding node_update_default
node_update_default-Holds net has_key dflt nc stored =
    let in_meta = under (codes "meta.") has_key in
    or_fail-Holds (λ a. Unit) StoredMeta
      (default_addr net (codes "http-addr") dflt.http_addr nc.http_addr) _ (any _)
      (λ addr _.
        or_fail-Holds (λ a. Unit) StoredMeta
          (update_section (logger_over net.unicode (under (codes "logger.") has_key) dflt.logger)
            dflt.logger nc.logger)
          _ (any _)
          (λ logger _.
            or_fail-Holds IsStored StoredMeta
              (update_section (meta_update_default net in_meta dflt.meta) dflt.meta nc.meta) _
              (update_section-Holds IsStored (meta_update_default net in_meta dflt.meta) dflt.meta
                nc.meta stored (λ mc. meta_update_default-Holds net in_meta dflt.meta mc stored))
              (λ meta h. h)))

defaults_of-Holds :
    (net : Net) (dflt : Option (NodeConfig × Keys))
    → Holds StoredMeta (defaults_of net dflt_node_cfg dflt)
unfolding defaults_of text_eq
defaults_of-Holds net none = (refl, refl)
defaults_of-Holds net (some (nc, keys)) =
    node_update_default-Holds net (contains keys) dflt_node_cfg nc (refl, refl)

tidy_meta-Holds :
    (net : Net) (has_key : HasKey) (dflt : MetaConfig) (id : Text) (o : Option MetaConfig)
    → IsStored dflt
    → Holds (IsReadyMeta net) (tidy_meta net has_key dflt id o)
unfolding tidy_meta
tidy_meta-Holds net has_key dflt id none stored = tt
tidy_meta-Holds net has_key dflt id (some mc) stored = meta_tidy-Holds net has_key dflt mc stored

-- A tidied node is ready, and has its identifier.
abbrev Tidied : Net → NodeConfig → NodeConfig → Type 0
Tidied net nc n = IsReady net n × (n.id ≡ nc.id)

node_tidy-Holds :
    (net : Net) (dflt : Defaults) (has_key : HasKey) (nc : NodeConfig)
    → IsStored dflt.meta
    → Holds (Tidied net nc) (node_tidy net dflt has_key nc)
unfolding node_tidy
node_tidy-Holds net dflt has_key nc stored = elim (Bool-cases (text_eq nc.id [])) [
  | inl e ↦ rw e tt
  | inr e ↦
      let in_meta = under (codes "meta.") has_key in
      let no_addr = codes "'http-addr' is required for node '" ++ (nc.id ++ codes "'") in
      let addr = or_text dflt.http_addr nc.http_addr in
      rw e (
        or_fail-Holds (λ a. has_port net a ≡ true) (Tidied net nc)
          (required_addr net no_addr (codes "http-addr") addr) _
          (required_addr-Holds net no_addr (codes "http-addr") addr)
          (λ a port.
            or_fail-Holds (λ a. Unit) (Tidied net nc)
              (update_section
                (logger_over net.unicode (under (codes "logger.") has_key) dflt.logger) dflt.logger
                nc.logger)
              _ (any _)
              (λ logger _.
                or_fail-Holds (IsReadyMeta net) (Tidied net nc)
                  (tidy_meta net in_meta dflt.meta nc.id nc.meta) _
                  (tidy_meta-Holds net in_meta dflt.meta nc.id nc.meta stored)
                  (λ meta h. ((e, port, h), refl)))))
]

-- What a run returns that is no error has the property.
abbrev pub Returns {ℓ} : {A : Type ℓ} → (A → Type 0) → Run (Text ⊎ A) → Type 0
Returns P (returned r) = Holds P r
Returns P (panicked t) = Unit

abbrev AllApart : NodeConfig → List NodeConfig → Type 0
AllApart nc nodes = All (λ n. text_eq nc.id n.id ≡ false) nodes

-- No two nodes have one identifier.
abbrev pub Apart : List NodeConfig → Type 0
Apart [] = Unit
Apart (nc ∷ nodes) = AllApart nc nodes × Apart nodes

abbrev Unseen : List Text → List NodeConfig → Type 0
Unseen ids nodes = All (λ n. seen n.id ids ≡ false) nodes

abbrev AllTidy : Net → List Text → List NodeConfig → Type 0
AllTidy net ids nodes = All (IsReady net) nodes × Apart nodes × Unseen ids nodes

Unseen-apart :
    (id : Text) (nc : NodeConfig) (ids : List Text) (nodes : List NodeConfig)
    → nc.id ≡ id
    → Unseen (id ∷ ids) nodes
    → AllApart nc nodes × Unseen ids nodes
unfolding contains
Unseen-apart id nc ids [] e h = (tt, tt)
Unseen-apart id nc ids (n ∷ nodes) e (h, rest) =
    let ih = Unseen-apart id nc ids nodes e rest in
    let here : text_eq id n.id ≡ false = ground (arith, h) in
    ((ap (λ x. text_eq x n.id) e ∙ here, ih.0), (ground (arith, h), ih.1))

with_rest-Returns :
    (net : Net) (nc n : NodeConfig) (ids : List Text) (rest : Run (Text ⊎ List NodeConfig))
    → Tidied net nc n
    → seen nc.id ids ≡ false
    → Returns (AllTidy net (nc.id ∷ ids)) rest
    → Returns (AllTidy net ids) (with_rest n rest)
unfolding and_then
with_rest-Returns net nc n ids (panicked t) tidied new h = tt
with_rest-Returns net nc n ids (returned (inl e)) tidied new h = tt
with_rest-Returns net nc n ids (returned (inr nodes)) (ready, e) new (all, apart, unseen) =
    let (others, old) = Unseen-apart nc.id n ids nodes e unseen in
    ((ready, all), (others, apart), (ap (λ x. seen x ids) e ∙ new, old))

-- What the loop does with a node that was tidied, or not.
abbrev after_tidy : Text ⊎ NodeConfig → Run (Text ⊎ List NodeConfig) → Run (Text ⊎ List NodeConfig)
after_tidy r rest = elim r [ inl e ↦ returned (inl e) | inr tidied ↦ with_rest tidied rest ]

after_tidy-Returns :
    (net : Net) (nc : NodeConfig) (ids : List Text) (r : Text ⊎ NodeConfig)
    (rest : Run (Text ⊎ List NodeConfig))
    → Holds (Tidied net nc) r
    → seen nc.id ids ≡ false
    → Returns (AllTidy net (nc.id ∷ ids)) rest
    → Returns (AllTidy net ids) (after_tidy r rest)
after_tidy-Returns net nc ids (inl e) rest h new k = tt
after_tidy-Returns net nc ids (inr n) rest h new k = with_rest-Returns net nc n ids rest h new k

tidy_all-Returns :
    (net : Net) (dflt : Defaults) (ids : List Text) (nodes : List NodeConfig) (keys : List Keys)
    → IsStored dflt.meta
    → Returns (AllTidy net ids) (tidy_all net dflt ids nodes keys)
unfolding tidy_all
tidy_all-Returns net dflt ids [] keys stored = (tt, tt, tt)
tidy_all-Returns net dflt ids (nc ∷ nodes) [] stored = elim (Bool-cases (seen nc.id ids)) [
  | inl e ↦ rw e tt
  | inr e ↦ rw e tt
]
tidy_all-Returns net dflt ids (nc ∷ nodes) (k ∷ keys) stored = elim (Bool-cases (seen nc.id ids)) [
  | inl e ↦ rw e tt
  | inr e ↦
      let rest = tidy_all-Returns net dflt (nc.id ∷ ids) nodes keys stored in
      rw e (
        after_tidy-Returns net nc ids (node_tidy net dflt (contains k) nc)
          (tidy_all net dflt (nc.id ∷ ids) nodes keys)
          (node_tidy-Holds net dflt (contains k) nc stored) e rest)
]

-- The nodes that `tidyNodes` accepts.
abbrev pub IsCluster : Net → List NodeConfig → Type 0
IsCluster net nodes = All (IsReady net) nodes × Apart nodes × (num_voter nodes % 2 ≡ 1)

check_voters-Holds :
    (net : Net) (ids : List Text) (nodes : List NodeConfig)
    → AllTidy net ids nodes
    → Holds (IsCluster net) (check_voters nodes)
unfolding check_voters
check_voters-Holds net ids nodes (all, apart, _) = elim (Bool-cases (num_voter nodes == 0)) [
  | inl e ↦ rw e tt
  | inr e ↦ elim (Bool-cases (num_voter nodes % 2 == 0)) [
    | inl f ↦ rw (e, f) tt
    | inr f ↦ rw (e, f) (all, apart, ground arith)
  ]
]

checked-Returns :
    (net : Net) (ids : List Text) (r : Run (Text ⊎ List NodeConfig))
    → Returns (AllTidy net ids) r
    → Returns (IsCluster net) (and_then r (λ x. returned (or_fail x check_voters)))
unfolding and_then
checked-Returns net ids (panicked t) h = tt
checked-Returns net ids (returned (inl e)) h = tt
checked-Returns net ids (returned (inr nodes)) h = check_voters-Holds net ids nodes h

-- `tidyNodes` behind its first loop.
abbrev with_defaults : Net → Found → Text ⊎ Defaults → Run (Text ⊎ List NodeConfig)
with_defaults net f d = elim d [
  | inl e ↦ returned (inl e)
  | inr dflt ↦
      and_then (tidy_all net dflt [] f.nodes f.keys) (λ r. returned (or_fail r check_voters))
]

with_defaults-Returns :
    (net : Net) (f : Found) (d : Text ⊎ Defaults)
    → Holds StoredMeta d
    → Returns (IsCluster net) (with_defaults net f d)
with_defaults-Returns net f (inl e) h = tt
with_defaults-Returns net f (inr dflt) h =
    checked-Returns net [] (tidy_all net dflt [] f.nodes f.keys)
      (tidy_all-Returns net dflt [] f.nodes f.keys h)

abbrev with_found : Net → Run (Text ⊎ Found) → Run (Text ⊎ List NodeConfig)
with_found net found = and_then found (λ r. elim r [
  | inl e ↦ returned (inl e)
  | inr f ↦ with_defaults net f (defaults_of net dflt_node_cfg f.dflt)
])

with_found-Returns :
    (net : Net) (found : Run (Text ⊎ Found)) → Returns (IsCluster net) (with_found net found)
unfolding and_then
with_found-Returns net (panicked t) = tt
with_found-Returns net (returned (inl e)) = tt
with_found-Returns net (returned (inr f)) =
    with_defaults-Returns net f (defaults_of net dflt_node_cfg f.dflt)
      (defaults_of-Holds net f.dflt)

tidy-Returns :
    (net : Net) (show : List Text → Text) (nodes : List NodeConfig) (keys : Run (List Keys))
    → Returns (IsCluster net) (and_then keys (tidy_nodes net nodes))
unfolding and_then tidy_nodes
tidy-Returns net show nodes (panicked t) = tt
tidy-Returns net show nodes (returned keys) = with_found-Returns net (find_default none nodes keys)

-- The nodes of a file that `tidy` accepts: each has an identifier, its own among them, addresses
-- that netip accepts, with a port, and a meta section that names known stores, and a directory where
-- one of them keeps files; and the number of voters is odd.
pub tidy-IsCluster :
    (net : Net) (show : List Text → Text) (nodes : List NodeConfig) (keys : List Key)
    (tidied : List NodeConfig)
    → tidy net show nodes keys ≡ returned (inr tidied)
    → IsCluster net tidied
unfolding tidy
tidy-IsCluster net show nodes keys tidied e =
    subst (Returns (IsCluster net)) e (tidy-Returns net show nodes (extract_node_keys show keys))
