-- ===== src/Sensors/Topology/Walk.antt =====
-- The walk over records that lie one after the other.
use loadbear.Prelude.{
  ℕ, zero, suc, ◌+◌, ◌*◌, ◌%◌, ◌^◌, ◌≤◌, ◌<◌, ◌≡◌, refl, true, false, ◌||◌, none, some, List, [],
  ◌∷◌, arith, leb, ◌==◌, if◌then◌else◌, length,
}
use loadbear.Sensors.Topology.{CoreRecord, Processors, count_ones, add_masks, walk, counted, detect}

-- These records, and no others, lie from the offset on: each has room for its two fields, ends within the
-- bytes, and is followed by the next one.
abbrev pub LieFrom : Processors → ℕ → List CoreRecord → Type 0
LieFrom p offset [] = p.bytes < offset + 8
LieFrom p offset (r ∷ rs) =
    (p.record_at offset ≡ r)
    × (8 ≤ r.size)
    × (offset + r.size ≤ p.bytes)
    × LieFrom p (offset + r.size) rs

-- The ones in the masks of a record, and of all records.
pub threads_of : List ℕ → ℕ
threads_of [] = 0
threads_of (m ∷ masks) = count_ones m + threads_of masks

pub all_threads : List CoreRecord → ℕ
unfolding threads_of
all_threads [] = 0
all_threads (r ∷ rs) = threads_of r.masks + all_threads rs

add_masks-eq-threads :
    (logical : ℕ) (masks : List ℕ)
    → logical < 2 ^ 32
    → add_masks logical masks ≡ (logical + threads_of masks) % 2 ^ 32
unfolding add_masks threads_of
add_masks-eq-threads logical [] h = omega arith
add_masks-eq-threads logical (m ∷ masks) h =
    let ih = add_masks-eq-threads ((logical + count_ones m) % 2 ^ 32) masks (omega arith) in
    omega arith

walk-LieFrom :
    (p : Processors) (rs : List CoreRecord) (fuel offset cores logical : ℕ)
    → p.bytes + 8 < 2 ^ 32
    → p.bytes < fuel + offset
    → offset ≤ p.bytes
    → cores ≤ offset
    → logical < 2 ^ 32
    → LieFrom p offset rs
    → walk p fuel offset cores logical ≡ (cores + length rs, (logical + all_threads rs) % 2 ^ 32)
unfolding walk all_threads
walk-LieFrom p [] zero offset cores logical b f s k g l = absurd (omega arith)
walk-LieFrom p [] (suc fuel) offset cores logical b f s k g l =
    let small : (offset + 4 * 2) % 2 ^ 32 ≡ offset + 8 = omega arith in
    let ended : leb ((offset + 4 * 2) % 2 ^ 32) p.bytes ≡ false = rw small (ground arith) in
    let same : (logical + 0) % 2 ^ 32 ≡ logical = omega arith in
    let none_left : cores + 0 ≡ cores = omega arith in rw (ended, same, none_left) refl
walk-LieFrom p (r ∷ rs) zero offset cores logical b f s k g l = absurd (omega arith)
walk-LieFrom p (r ∷ rs) (suc fuel) offset cores logical b f s k g l =
    let next : (offset + r.size) % 2 ^ 32 ≡ offset + r.size = omega arith in
    let small : (offset + 4 * 2) % 2 ^ 32 ≡ offset + 8 = omega arith in
    let inside : leb ((offset + 4 * 2) % 2 ^ 32) p.bytes ≡ true = rw small (ground arith) in
    let sized : r.size == 0 ≡ false = ground arith in
    let counted_so_far : (cores + 1) % 2 ^ 32 ≡ cores + 1 = omega arith in
    let masks = add_masks-eq-threads logical r.masks g in
    let ih =
      walk-LieFrom p rs fuel (offset + r.size) (cores + 1) (add_masks logical r.masks) b
        (omega arith) l.2 (omega arith) (omega arith) l.3 in
    ground arith

-- Where the records that the system gave lie one after the other, every one is counted as a core, and every
-- bit that is set in a mask of one as a logical processor, modulo 2^32; there is no answer where either count
-- is 0.
pub detect-LieFrom :
    (p : Processors) (rs : List CoreRecord)
    → 0 < p.required
    → p.filled ≡ true
    → p.bytes + 8 < 2 ^ 32
    → LieFrom p 0 rs
    → detect p ≡ (
        if length rs == 0 || all_threads rs % 2 ^ 32 == 0
        then none
        else some
            (record { physical_cores = length rs; logical_processors = all_threads rs % 2 ^ 32 }))
unfolding detect counted
detect-LieFrom p rs r f b l =
    let walked =
      walk-LieFrom p rs (suc p.bytes) 0 0 0 b (omega arith) (omega arith) (omega arith)
        (omega arith) l in
    ground arith
