-- ===== src/Config/Ready.antt =====
-- What a node's configuration is like once pkg/config has tidied it without an error.
use xuandb.Prelude.{
  Bool, true, false, not, ◌&&◌, ◌||◌, ◌==◌, ◌≡◌, refl, arith, ap, ◌∙◌, if◌then◌else◌, Bool-cases,
  [], Option, none, some, ◌⊎◌, inl, inr,
}
use xuandb.Prelude.Text.{Text, codes, text_eq}
use xuandb.Config.Sections.{
  Net, AddrPort, port_zero, HasKey, or_fail, or_default, or_text, MetaConfig, nonvoter_config,
  raft_store_of, snapshot_store_of, default_addr, required_addr, meta_update_default, needed_dir,
  voter_config, meta_tidy,
}

-- A result that is no error has the property.
abbrev pub Holds {ℓ} : {A : Type ℓ} → (A → Type 0) → Text ⊎ A → Type 0
Holds P (inl e) = Unit
Holds P (inr a) = P a

pub or_fail-Holds {ℓ κ} :
    {A : Type ℓ} {B : Type κ} (P : A → Type 0) (Q : B → Type 0) (r : Text ⊎ A) (f : A → Text ⊎ B)
    → Holds P r
    → ((a : A) → P a → Holds Q (f a))
    → Holds Q (or_fail r f)
or_fail-Holds P Q (inl e) f h k = tt
or_fail-Holds P Q (inr a) f h k = k a h

abbrev pub IsStore : Text → Type 0
IsStore t = (text_eq t (codes "memory") || text_eq t (codes "boltdb")) ≡ true

abbrev pub IsSnapshotStore : Text → Type 0
IsSnapshotStore t =
    (text_eq t (codes "discard") || text_eq t (codes "memory") || text_eq t (codes "file")) ≡ true

-- The stores that the defaults name.
abbrev pub IsStored : MetaConfig → Type 0
IsStored mc = IsStore mc.raft_store × IsSnapshotStore mc.raft_snapshot_store

-- Where something is kept in files there is a directory for them.
abbrev pub has_dir : MetaConfig → Bool
has_dir mc =
    not (text_eq mc.raft_store (codes "boltdb"))
      && not (text_eq mc.raft_snapshot_store (codes "file"))
    || not (text_eq mc.data_dir [])

-- An address that netip accepts, with a port.
abbrev pub has_port : Net → Text → Bool
has_port net addr = elim (net.parse_addr_port addr) [ inl e ↦ false | inr ap ↦ not (ap.port == 0) ]

abbrev pub IsReadyMeta : Net → MetaConfig → Type 0
IsReadyMeta net mc = IsStored mc × (has_dir mc ≡ true) × (has_port net mc.raft_addr ≡ true)

-- What a switch gives, over a default that is one of its stores.
abbrev Switched : (Text → Type 0) → Option Text → Type 0
Switched P none = Unit
Switched P (some t) = P t

raft_store_of-Holds :
    (net : Net) (t : Text) → Holds (Switched IsStore) (raft_store_of net.unicode t)
unfolding raft_store_of text_eq
raft_store_of-Holds net t = ground arith

snapshot_store_of-Holds :
    (net : Net) (t : Text) → Holds (Switched IsSnapshotStore) (snapshot_store_of net.unicode t)
unfolding snapshot_store_of text_eq
snapshot_store_of-Holds net t = ground arith

or_default-Switched :
    (P : Text → Type 0) (dflt : Text) (o : Option Text)
    → P dflt
    → Switched P o
    → P (or_default dflt o)
or_default-Switched P dflt none d h = d
or_default-Switched P dflt (some t) d h = h

-- The default node leaves the defaults with known stores.
pub meta_update_default-Holds :
    (net : Net) (has_key : HasKey) (dflt mc : MetaConfig)
    → IsStored dflt
    → Holds IsStored (meta_update_default net has_key dflt mc)
unfolding meta_update_default
meta_update_default-Holds net has_key dflt mc (s, t) =
    or_fail-Holds (λ a. Unit) IsStored
      (default_addr net (codes "raft-addr") dflt.raft_addr mc.raft_addr) _ (any _)
      (λ addr _.
        or_fail-Holds (Switched IsStore) IsStored (raft_store_of net.unicode mc.raft_store) _
          (raft_store_of-Holds net mc.raft_store)
          (λ store h.
            or_fail-Holds (Switched IsSnapshotStore) IsStored
              (snapshot_store_of net.unicode mc.raft_snapshot_store) _
              (snapshot_store_of-Holds net mc.raft_snapshot_store)
              (λ snapshot k. (
                or_default-Switched IsStore dflt.raft_store store s h,
                or_default-Switched IsSnapshotStore dflt.raft_snapshot_store snapshot t k,
              ))))
  where
    any : (r : Text ⊎ Text) → Holds (λ a. Unit) r
    any (inl e) = tt
    any (inr a) = tt

abbrev port_of : Text ⊎ AddrPort → Bool
port_of r = elim r [ inl e ↦ false | inr ap ↦ not (ap.port == 0) ]

abbrev addr_of : Text → Text → Text ⊎ AddrPort → Text ⊎ Text
addr_of key addr r = or_fail r (λ ap. if ap.port == 0 then inl (port_zero key) else inr addr)

addr_of-Holds :
    (net : Net) (key addr : Text) (r : Text ⊎ AddrPort)
    → net.parse_addr_port addr ≡ r
    → Holds (λ a. has_port net a ≡ true) (addr_of key addr r)
addr_of-Holds net key addr (inl e) known = tt
addr_of-Holds net key addr (inr addr_port) known = elim (Bool-cases (addr_port.port == 0)) [
  | inl zero_port ↦ rw zero_port tt
  | inr port ↦ let found : has_port net addr ≡ true = known_port ∙ port_known port in rw port found
]
  where
    known_port : has_port net addr ≡ not (addr_port.port == 0)
    known_port = ap port_of known

    port_known : (addr_port.port == 0) ≡ false → not (addr_port.port == 0) ≡ true
    port_known h = rw h refl

pub required_addr-Holds :
    (net : Net) (missing key addr : Text)
    → Holds (λ a. has_port net a ≡ true) (required_addr net missing key addr)
unfolding required_addr
required_addr-Holds net missing key addr = elim (Bool-cases (text_eq addr [])) [
  | inl e ↦ rw e tt
  | inr e ↦ rw e (addr_of-Holds net key addr (net.parse_addr_port addr) refl)
]

needed_dir-Holds :
    (store snapshot dflt dir : Text)
    → Holds
        (λ d.
          not (text_eq store (codes "boltdb")) && not (text_eq snapshot (codes "file"))
            || not (text_eq d [])
          ≡ true)
        (needed_dir store snapshot dflt dir)
unfolding needed_dir
needed_dir-Holds store snapshot dflt dir = ground arith

voter_config-Holds :
    (net : Net) (dflt mc : MetaConfig) (addr : Text)
    → IsStored dflt
    → has_port net addr ≡ true
    → Holds (IsReadyMeta net) (voter_config net dflt mc addr)
unfolding voter_config
voter_config-Holds net dflt mc addr (s, t) port =
    or_fail-Holds (Switched IsStore) (IsReadyMeta net) (raft_store_of net.unicode mc.raft_store) _
      (raft_store_of-Holds net mc.raft_store)
      (λ store h.
        or_fail-Holds (Switched IsSnapshotStore) (IsReadyMeta net)
          (snapshot_store_of net.unicode mc.raft_snapshot_store) _
          (snapshot_store_of-Holds net mc.raft_snapshot_store)
          (λ snapshot k.
            let kept = or_default dflt.raft_store store in
            let snapshots = or_default dflt.raft_snapshot_store snapshot in
            or_fail-Holds _ (IsReadyMeta net) (needed_dir kept snapshots dflt.data_dir mc.data_dir)
              _ (needed_dir-Holds kept snapshots dflt.data_dir mc.data_dir)
              (λ dir d. (
                (
                  or_default-Switched IsStore dflt.raft_store store s h,
                  or_default-Switched IsSnapshotStore dflt.raft_snapshot_store snapshot t k,
                ),
                d,
                port,
              ))))

-- A tidied section of the meta service is ready.
pub meta_tidy-Holds :
    (net : Net) (has_key : HasKey) (dflt mc : MetaConfig)
    → IsStored dflt
    → Holds (IsReadyMeta net) (meta_tidy net has_key dflt mc)
unfolding meta_tidy text_eq
meta_tidy-Holds net has_key dflt mc stored =
    let voter = if has_key (codes "raft-voter") then mc.raft_voter else dflt.raft_voter in
    let addr = or_text dflt.raft_addr mc.raft_addr in
    let missing = codes "'raft-addr' is required" in
    or_fail-Holds (λ a. has_port net a ≡ true) (IsReadyMeta net)
      (required_addr net missing (codes "raft-addr") addr)
      (λ addr. if not voter then inr (nonvoter_config addr) else voter_config net dflt mc addr)
      (required_addr-Holds net missing (codes "raft-addr") addr)
      (λ a port. elim (Bool-cases voter) [
        | inl e ↦ rw e (voter_config-Holds net dflt mc a stored port)
        | inr e ↦ rw e ((refl, refl), refl, port)
      ])
