-- ===== src/Sensors/Topology.antt =====
-- crates/loadbear-sensors-windows/src/topology.rs: `detect`. What the system answers, and the records in the
-- buffer that it fills, are a parameter. `on_processor` stands in Sensors/Temperature/Intel.
pub mod Walk
mod Examples
use loadbear.Prelude.{
  ℕ, zero, suc, ◌+◌, ◌*◌, ◌/◌, ◌%◌, ◌^◌, Bool, ◌||◌, Option, none, some, List, [], ◌∷◌, leb, ◌==◌,
  if◌then◌else◌,
}

pub record Topology : Type 0 where
  pub physical_cores : ℕ
  pub logical_processors : ℕ

-- A record for one core: its size in bytes, and a mask of 64 bits for each group.
pub record CoreRecord : Type 0 where
  pub size : ℕ
  pub masks : List ℕ

-- The length that is asked for, whether the buffer was filled, with how many bytes, and the record that is
-- found at an offset.
pub record Processors : Type 0 where
  pub required : ℕ
  pub filled : Bool
  pub bytes : ℕ
  pub record_at : ℕ → CoreRecord

-- The ones among so many bits.
abbrev ones : ℕ → ℕ → ℕ
ones zero x = 0
ones (suc n) x = x % 2 + ones n (x / 2)

-- `count_ones`
pub count_ones : ℕ → ℕ
count_ones = ones 64

-- The loop over the masks of a record, where the sum of 32 bits wraps.
pub add_masks : ℕ → List ℕ → ℕ
unfolding count_ones
add_masks logical [] = logical
add_masks logical (m ∷ masks) = add_masks ((logical + count_ones m) % 2 ^ 32) masks

-- The loop over the records, with fuel for so many: the cores and the logical processors. The three sums
-- of 32 bits wrap.
walk : Processors → ℕ → ℕ → ℕ → ℕ → ℕ × ℕ
unfolding add_masks
walk p zero offset cores logical = (cores, logical)
walk p (suc fuel) offset cores logical =
    let r = p.record_at offset in
    let rest =
      walk p fuel ((offset + r.size) % 2 ^ 32) ((cores + 1) % 2 ^ 32) (add_masks logical r.masks) in
    if leb ((offset + 4 * 2) % 2 ^ 32) p.bytes
    then (if r.size == 0 then (cores, logical) else rest)
    else (cores, logical)

-- The end of `detect`.
counted : ℕ × ℕ → Option Topology
counted (cores, logical) =
    if cores == 0 || logical == 0
    then none
    else some (record { physical_cores = cores; logical_processors = logical })

-- A record has at least one byte, so there are at most as many as bytes.
pub detect : Processors → Option Topology
unfolding walk counted
detect p =
    if p.required == 0
    then none
    else if p.filled
    then counted (walk p (suc p.bytes) 0 0 0)
    else none
