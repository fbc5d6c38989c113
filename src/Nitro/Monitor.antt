-- ===== src/Nitro/Monitor.antt =====
-- `BatcherAddrMonitor` of nitro/batch_addr_monitor.go.
use espresso_streamers.Base.{
  ℕ, ◌≤◌, ◌≡◌, ◌⊎◌, ◌↔◌, Bool, true, false, ◌&&◌, List, [], ◌∷◌, map, leb, ◌==◌, arith,
  if◌then◌else◌,
}
use espresso_streamers.Op.Batch.{Address}
use espresso_streamers.Nitro.Bytes.{Bytes}

pub record AddressValidRangeConfig : Type 0 where
  pub address : Bytes
  pub from : ℕ
  pub to : ℕ

pub record AddressValidRange : Type 0 where
  pub address : Address
  pub from : ℕ
  pub to : ℕ

unfoldable pub is_valid_at : AddressValidRange → Address → ℕ → Bool
is_valid_at a address l1_height = a.address == address && leb a.from l1_height && leb l1_height a.to

pub record BatcherAddrMonitor : Type 0 where
  pub address_valid_ranges : List AddressValidRange

-- `NewBatcherAddressMonitor`; `hex_to_address` is `common.HexToAddress`.
unfoldable pub new_monitor : (Bytes → Address) → List AddressValidRangeConfig → BatcherAddrMonitor
new_monitor hex_to_address cfgs = record {
  address_valid_ranges =
      map
        (λ (cfg : AddressValidRangeConfig). record {
          address = hex_to_address cfg.address;
          from = cfg.from;
          to = cfg.to;
        })
        cfgs;
}

unfoldable pub any_valid_at : List AddressValidRange → Address → ℕ → Bool
any_valid_at [] address l1_height = false
any_valid_at (a ∷ ranges) address l1_height =
    if is_valid_at a address l1_height then true else any_valid_at ranges address l1_height

unfoldable pub is_valid : BatcherAddrMonitor → Address → ℕ → Bool
unfolding any_valid_at
is_valid b address l1_height = any_valid_at b.address_valid_ranges address l1_height

-- Some entry of the configuration names the address and covers the height.
abbrev pub Covers : (Bytes → Address) → List AddressValidRangeConfig → Address → ℕ → Type 0
Covers hex [] address h = ⊥
Covers hex (cfg ∷ cfgs) address h =
    ((hex cfg.address ≡ address) × (cfg.from ≤ h) × (h ≤ cfg.to)) ⊎ Covers hex cfgs address h

-- A monitor takes an address for valid at a height of the L1 exactly if an entry of its
-- configuration names it with a range that has the height, both ends included.
pub is_valid_iff :
    (hex : Bytes → Address) (cfgs : List AddressValidRangeConfig) (address : Address) (h : ℕ)
    → (is_valid (new_monitor hex cfgs) address h ≡ true) ↔ Covers hex cfgs address h
unfolding is_valid is_valid_at new_monitor any_valid_at
is_valid_iff hex [] address h = ground arith
is_valid_iff hex (cfg ∷ cfgs) address h = ground (arith, is_valid_iff hex cfgs address h)
