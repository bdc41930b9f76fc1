-- ===== src/Config.antt =====
-- pkg/config: the nodes of the configuration file and their defaults. The file's decoder is not
-- modelled: what is given is the nodes and the keys that it found.
pub mod Sections
pub mod Ready
pub mod Nodes
pub mod Stores
mod Tests
use xuandb.Prelude.{
  ℕ, Bool, true, false, not, ◌&&◌, ◌||◌, ◌==◌, ◌+◌, ◌%◌, if◌then◌else◌, List, [], ◌∷◌, ◌++◌, Option,
  none, some, ◌⊎◌, inl, inr, map,
}
use xuandb.Prelude.Text.{Text, codes, text_eq}
use xuandb.Query.Run.{Run, returned, panicked, and_then}
use xuandb.Config.Sections.{
  Net, HasKey, or_fail, or_default, or_text, LoggerConfig, MetaConfig, dflt_logger_cfg,
  dflt_meta_cfg, logger_over, meta_update_default, meta_tidy, default_addr, required_addr,
}

-- `data_dir` is the `DataDir` of the data section. The query section is empty, and left out.
pub record NodeConfig : Type 0 where
  pub id : Text
  pub domain_name : Text
  pub http_addr : Text
  pub enable_pprof : Bool
  pub logger : Option LoggerConfig
  pub meta : Option MetaConfig
  pub data_dir : Option Text

-- `dfltNodeCfg`, whose sections are always there.
pub record Defaults : Type 0 where
  pub http_addr : Text
  pub enable_pprof : Bool
  pub logger : LoggerConfig
  pub meta : MetaConfig
  pub data_dir : Text

abbrev pub dflt_node_cfg : Defaults
dflt_node_cfg = record {
  http_addr = [];
  enable_pprof = false;
  logger = dflt_logger_cfg;
  meta = dflt_meta_cfg;
  data_dir = [];
}

abbrev pub under : Text → HasKey → HasKey
under prefix has_key key = has_key (prefix ++ key)

-- A section of the default node, if it has one.
abbrev pub update_section {ℓ} : {A : Type ℓ} → (A → Text ⊎ A) → A → Option A → Text ⊎ A
update_section f dflt none = inr dflt
update_section f dflt (some c) = f c

unfoldable pub node_update_default : Net → HasKey → Defaults → NodeConfig → Text ⊎ Defaults
node_update_default net has_key dflt nc =
    or_fail (default_addr net (codes "http-addr") dflt.http_addr nc.http_addr) (λ addr.
      or_fail
        (update_section (logger_over net.unicode (under (codes "logger.") has_key) dflt.logger)
          dflt.logger nc.logger)
        (λ logger.
          or_fail
            (update_section (meta_update_default net (under (codes "meta.") has_key) dflt.meta)
              dflt.meta nc.meta)
            (λ meta. inr (record {
              http_addr = addr;
              enable_pprof =
                  if has_key (codes "enable-pprof") then nc.enable_pprof else dflt.enable_pprof;
              logger = logger;
              meta = meta;
              data_dir = or_text dflt.data_dir (or_default [] nc.data_dir);
            }))))

-- A node has to have a section for the meta service.
unfoldable pub tidy_meta : Net → HasKey → MetaConfig → Text → Option MetaConfig → Text ⊎ MetaConfig
tidy_meta net has_key dflt id none =
    inl (codes "'meta' section is required for node '" ++ (id ++ codes "'"))
tidy_meta net has_key dflt id (some mc) = meta_tidy net has_key dflt mc

unfoldable pub node_tidy : Net → Defaults → HasKey → NodeConfig → Text ⊎ NodeConfig
node_tidy net dflt has_key nc =
    let no_addr = codes "'http-addr' is required for node '" ++ (nc.id ++ codes "'") in
    if text_eq nc.id []
    then inl (codes "'id' is required for all node")
    else or_fail
        (required_addr net no_addr (codes "http-addr") (or_text dflt.http_addr nc.http_addr))
        (λ addr.
          or_fail
            (update_section (logger_over net.unicode (under (codes "logger.") has_key) dflt.logger)
              dflt.logger nc.logger)
            (λ logger.
              or_fail (tidy_meta net (under (codes "meta.") has_key) dflt.meta nc.id nc.meta)
                (λ meta. inr (record {
                  id = nc.id;
                  domain_name = nc.domain_name;
                  http_addr = addr;
                  enable_pprof =
                      if has_key (codes "enable-pprof") then nc.enable_pprof else dflt.enable_pprof;
                  logger = some logger;
                  meta = some meta;
                  data_dir = elim nc.data_dir [
                    | none ↦ none
                    | some d ↦ some (or_text dflt.data_dir d)
                  ];
                }))))

abbrev pub Keys : Type 0
Keys = List Text

-- `slices.Contains`
unfoldable pub contains : Keys → HasKey
contains [] key = false
contains (k ∷ ks) key = text_eq k key || contains ks key

abbrev pub is_default : NodeConfig → Bool
is_default nc = text_eq nc.id (codes "#default#")

abbrev pub out_of_range {ℓ} : {A : Type ℓ} → Run A
out_of_range = panicked (codes "index out of range")

-- The default node with its keys, the other nodes, and the keys of these.
pub record Found : Type 0 where
  pub dflt : Option (NodeConfig × Keys)
  pub nodes : List NodeConfig
  pub keys : List Keys

abbrev pub add_node : NodeConfig → List Keys → Text ⊎ Found → Text ⊎ Found
add_node nc ks r = or_fail r (λ f. inr (record f { nodes = nc ∷ f.nodes; keys = ks ++ f.keys }))

-- The loop that takes the default node out. Keys are read for it and for the nodes behind it.
unfoldable pub find_default :
    Option (NodeConfig × Keys) → List NodeConfig → List Keys → Run (Text ⊎ Found)
find_default dflt [] keys = returned (inr (record { dflt = dflt; nodes = []; keys = keys }))
find_default none (nc ∷ nodes) [] =
    let rest = find_default none nodes [] in
    if is_default nc then out_of_range else and_then rest (λ r. returned (add_node nc [] r))
find_default none (nc ∷ nodes) (k ∷ keys) =
    let taken = find_default (some (nc, k)) nodes keys in
    let rest = find_default none nodes keys in
    if is_default nc then taken else and_then rest (λ r. returned (add_node nc (k ∷ []) r))
find_default (some d) (nc ∷ nodes) [] =
    if is_default nc then returned (inl (codes "duplicated default node")) else out_of_range
find_default (some d) (nc ∷ nodes) (k ∷ keys) =
    let rest = find_default (some d) nodes keys in
    if is_default nc
    then returned (inl (codes "duplicated default node"))
    else and_then rest (λ r. returned (add_node nc (k ∷ []) r))

unfoldable pub defaults_of : Net → Defaults → Option (NodeConfig × Keys) → Text ⊎ Defaults
defaults_of net base none = inr base
defaults_of net base (some (nc, keys)) = node_update_default net (contains keys) base nc

abbrev pub seen : Text → List Text → Bool
seen id ids = contains ids id

-- A tidied node is put before the others.
abbrev pub with_rest : NodeConfig → Run (Text ⊎ List NodeConfig) → Run (Text ⊎ List NodeConfig)
with_rest nc rest = and_then rest (λ r. returned (or_fail r (λ ns. inr (nc ∷ ns))))

-- The loop that tidies the other nodes; `ids` are those before.
unfoldable pub tidy_all :
    Net → Defaults → List Text → List NodeConfig → List Keys → Run (Text ⊎ List NodeConfig)
tidy_all net dflt ids [] keys = returned (inr [])
tidy_all net dflt ids (nc ∷ nodes) [] =
    if seen nc.id ids then returned (inl (codes "duplicated node id: " ++ nc.id)) else out_of_range
tidy_all net dflt ids (nc ∷ nodes) (k ∷ keys) =
    let rest = tidy_all net dflt (nc.id ∷ ids) nodes keys in
    if seen nc.id ids
    then returned (inl (codes "duplicated node id: " ++ nc.id))
    else elim (node_tidy net dflt (contains k) nc) [
      | inl e ↦ returned (inl e)
      | inr tidied ↦ with_rest tidied rest
    ]

abbrev pub is_voter : NodeConfig → Bool
is_voter nc = elim nc.meta [ none ↦ false | some mc ↦ mc.raft_voter ]

unfoldable pub num_voter : List NodeConfig → ℕ
num_voter [] = 0
num_voter (nc ∷ nodes) = (if is_voter nc then 1 else 0) + num_voter nodes

unfoldable pub check_voters : List NodeConfig → Text ⊎ List NodeConfig
check_voters nodes =
    if num_voter nodes == 0
    then inl (codes "no raft voter node")
    else if num_voter nodes % 2 == 0
    then inl (codes "even number of raft voter nodes")
    else inr nodes

-- `tidyNodes`, on the keys of each node
unfoldable pub tidy_nodes : Net → List NodeConfig → List Keys → Run (Text ⊎ List NodeConfig)
tidy_nodes net nodes keys = and_then (find_default none nodes keys) (λ found. elim found [
  | inl e ↦ returned (inl e)
  | inr f ↦ elim (defaults_of net dflt_node_cfg f.dflt) [
    | inl e ↦ returned (inl e)
    | inr dflt ↦
        and_then (tidy_all net dflt [] f.nodes f.keys) (λ r. returned (or_fail r check_voters))
  ]
])

-- A key of the file: its first part, and the others.
abbrev pub Key : Type 0
Key = Text × List Text

-- `result[idx] = append(result[idx], k)` at the last index.
unfoldable pub append_last : List Keys → Text → Option (List Keys)
append_last [] k = none
append_last (ks ∷ []) k = some ((ks ++ k ∷ []) ∷ [])
append_last (ks ∷ js ∷ rest) k = elim (append_last (js ∷ rest) k) [
  | none ↦ none
  | some r ↦ some (ks ∷ r)
]

-- `extractNodeKeys`, with the `String` of a key as an argument.
unfoldable pub extract_loop : (List Text → Text) → List Keys → List Key → Run (List Keys)
extract_loop show result [] = returned result
extract_loop show result ((first, parts) ∷ keys) =
    let skipped = extract_loop show result keys in
    let added = extract_loop show (result ++ [] ∷ []) keys in
    if not (text_eq first (codes "node")) then skipped else elim parts [
      | [] ↦ added
      | p ∷ ps ↦ elim (append_last result (show (p ∷ ps))) [
        | none ↦ panicked (codes "unexpected key: " ++ show (first ∷ p ∷ ps))
        | some r ↦ extract_loop show r keys
      ]
    ]

unfoldable pub extract_node_keys : (List Text → Text) → List Key → Run (List Keys)
extract_node_keys show keys = extract_loop show [] keys

unfoldable pub tidy :
    Net → (List Text → Text) → List NodeConfig → List Key → Run (Text ⊎ List NodeConfig)
tidy net show nodes keys = and_then (extract_node_keys show keys) (tidy_nodes net nodes)

-- `NodeByID`
unfoldable pub node_by_id : Text → List NodeConfig → Option NodeConfig
node_by_id id [] = none
node_by_id id (nc ∷ nodes) =
    let rest = node_by_id id nodes in if text_eq nc.id id then some nc else rest

-- `Load`, where the file was read: the nodes, and that of this process, if it is named.
unfoldable pub current_node : Text → List NodeConfig → Text ⊎ Option NodeConfig
current_node id nodes = if text_eq id [] then inr none else elim (node_by_id id nodes) [
  | none ↦ inl (codes "missing configuration for node \"" ++ (id ++ codes "\""))
  | some nc ↦ inr (some nc)
]
