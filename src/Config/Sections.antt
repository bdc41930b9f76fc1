-- ===== src/Config/Sections.antt =====
-- The sections of a node's configuration, pkg/config/config.go: the values of the default node, and
-- the missing values of the others. An error ends the start-up, so what it leaves of the defaults
-- is not modelled.
use xuandb.Prelude.{
  ℕ, Bool, true, false, not, ◌&&◌, ◌||◌, ◌==◌, if◌then◌else◌, [], ◌++◌, Option, none, some, ◌⊎◌,
  inl, inr,
}
use xuandb.Prelude.Int.{ℤ, pos}
use xuandb.Prelude.Text.{Text, codes, text_eq}
use xuandb.Prelude.Unicode.{Unicode, to_lower}

-- An address that `netip.ParseAddrPort` accepts.
pub record AddrPort : Type 0 where
  pub is_unspecified : Bool
  pub port : ℕ

-- What is used of other packages: case mapping, and `netip.ParseAddrPort`, with its error's text.
pub record Net : Type 0 where
  pub unicode : Unicode
  pub parse_addr_port : Text → Text ⊎ AddrPort

abbrev pub HasKey : Type 0
HasKey = Text → Bool

-- An error ends a function.
abbrev pub or_fail {ℓ κ} : {A : Type ℓ} {B : Type κ} → Text ⊎ A → (A → Text ⊎ B) → Text ⊎ B
or_fail (inl e) f = inl e
or_fail (inr a) f = f a

abbrev pub or_default {ℓ} : {A : Type ℓ} → A → Option A → A
or_default d none = d
or_default d (some a) = a

-- `if x == "" { x = dflt }`
abbrev pub or_text : Text → Text → Text
or_text dflt x = if text_eq x [] then dflt else x

pub record LoggerConfig : Type 0 where
  pub format : Text
  pub level : ℤ
  pub add_source : Bool
  pub output_to : Text

abbrev pub dflt_logger_cfg : LoggerConfig
dflt_logger_cfg = record {
  format = codes "json";
  level = pos 0;
  add_source = true;
  output_to = codes "stderr";
}

-- The switch on the format; `none` is a missing one.
unfoldable pub log_format : Unicode → Text → Text ⊎ Option Text
log_format u t =
    let v = to_lower u t in
    if text_eq v (codes "json") || text_eq v (codes "text")
    then inr (some v)
    else if text_eq v []
    then inr none
    else inl (codes "unknown log format: " ++ t)

-- `updateDefault` takes the values that are there, and `tidy` adds the defaults to them: both give
-- the section's values over the defaults.
unfoldable pub logger_over : Unicode → HasKey → LoggerConfig → LoggerConfig → Text ⊎ LoggerConfig
logger_over u has_key dflt lc = or_fail (log_format u lc.format) (λ f. inr (record {
  format = or_default dflt.format f;
  level = if has_key (codes "level") then lc.level else dflt.level;
  add_source = if has_key (codes "add-source") then lc.add_source else dflt.add_source;
  output_to = or_text dflt.output_to lc.output_to;
}))

pub record MetaConfig : Type 0 where
  pub raft_voter : Bool
  pub raft_addr : Text
  pub raft_store : Text
  pub raft_snapshot_store : Text
  pub data_dir : Text

abbrev pub dflt_meta_cfg : MetaConfig
dflt_meta_cfg = record {
  raft_voter = false;
  raft_addr = [];
  raft_store = codes "boltdb";
  raft_snapshot_store = codes "file";
  data_dir = [];
}

-- The switches on the stores.
unfoldable pub raft_store_of : Unicode → Text → Text ⊎ Option Text
raft_store_of u t =
    let v = to_lower u t in
    if text_eq v (codes "inmem") || text_eq v (codes "memory")
    then inr (some (codes "memory"))
    else if text_eq v (codes "boltdb")
    then inr (some (codes "boltdb"))
    else if text_eq v []
    then inr none
    else inl (codes "invalid 'raft-store': " ++ t)

unfoldable pub snapshot_store_of : Unicode → Text → Text ⊎ Option Text
snapshot_store_of u t =
    let v = to_lower u t in
    if text_eq v (codes "discard") || text_eq v (codes "none") || text_eq v (codes "null")
    then inr (some (codes "discard"))
    else if text_eq v (codes "inmem") || text_eq v (codes "memory")
    then inr (some (codes "memory"))
    else if text_eq v (codes "file")
    then inr (some (codes "file"))
    else if text_eq v []
    then inr none
    else inl (codes "invalid 'raft-snapshot-store': " ++ t)

abbrev pub port_zero : Text → Text
port_zero key = codes "port of '" ++ (key ++ codes "' cannot be 0")

-- The address of the default node: it has no IP, but a port.
unfoldable pub default_addr : Net → Text → Text → Text → Text ⊎ Text
default_addr net key dflt addr =
    let bad_ip =
      codes "IP of '" ++ (key ++ codes "' of the default node can only be '0.0.0.0' or '[::]'") in
    if text_eq addr []
    then inr dflt
    else or_fail (net.parse_addr_port addr) (λ ap.
      if not ap.is_unspecified
      then inl bad_ip
      else if ap.port == 0
      then inl (port_zero key)
      else inr addr)

-- The address of a node.
unfoldable pub required_addr : Net → Text → Text → Text → Text ⊎ Text
required_addr net missing key addr =
    if text_eq addr []
    then inl missing
    else or_fail (net.parse_addr_port addr)
        (λ ap. if ap.port == 0 then inl (port_zero key) else inr addr)

unfoldable pub meta_update_default : Net → HasKey → MetaConfig → MetaConfig → Text ⊎ MetaConfig
meta_update_default net has_key dflt mc =
    or_fail (default_addr net (codes "raft-addr") dflt.raft_addr mc.raft_addr) (λ addr.
      or_fail (raft_store_of net.unicode mc.raft_store) (λ store.
        or_fail (snapshot_store_of net.unicode mc.raft_snapshot_store) (λ snapshot. inr (record {
          raft_voter = if has_key (codes "raft-voter") then mc.raft_voter else dflt.raft_voter;
          raft_addr = addr;
          raft_store = or_default dflt.raft_store store;
          raft_snapshot_store = or_default dflt.raft_snapshot_store snapshot;
          data_dir = or_text dflt.data_dir mc.data_dir;
        }))))

-- A node that is no voter stores nothing.
abbrev pub nonvoter_config : Text → MetaConfig
nonvoter_config addr = record {
  raft_voter = false;
  raft_addr = addr;
  raft_store = codes "memory";
  raft_snapshot_store = codes "discard";
  data_dir = [];
}

-- From `if mc.RaftStore != "boltdb"` on.
unfoldable pub needed_dir : Text → Text → Text → Text → Text ⊎ Text
needed_dir store snapshot dflt dir =
    if not (text_eq store (codes "boltdb")) && not (text_eq snapshot (codes "file"))
    then inr []
    else if not (text_eq dir [])
    then inr dir
    else if text_eq dflt []
    then inl (codes "'data-dir' is required")
    else inr dflt

unfoldable pub voter_config : Net → MetaConfig → MetaConfig → Text → Text ⊎ MetaConfig
voter_config net dflt mc addr = or_fail (raft_store_of net.unicode mc.raft_store) (λ store.
    or_fail (snapshot_store_of net.unicode mc.raft_snapshot_store) (λ snapshot.
      let kept = or_default dflt.raft_store store in
      let snapshots = or_default dflt.raft_snapshot_store snapshot in
      or_fail (needed_dir kept snapshots dflt.data_dir mc.data_dir) (λ dir. inr (record {
        raft_voter = true;
        raft_addr = addr;
        raft_store = kept;
        raft_snapshot_store = snapshots;
        data_dir = dir;
      }))))

unfoldable pub meta_tidy : Net → HasKey → MetaConfig → MetaConfig → Text ⊎ MetaConfig
meta_tidy net has_key dflt mc =
    let voter = if has_key (codes "raft-voter") then mc.raft_voter else dflt.raft_voter in
    or_fail
      (required_addr net (codes "'raft-addr' is required") (codes "raft-addr")
        (or_text dflt.raft_addr mc.raft_addr))
      (λ addr. if not voter then inr (nonvoter_config addr) else voter_config net dflt mc addr)
