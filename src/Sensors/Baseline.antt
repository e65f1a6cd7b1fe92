-- ===== src/Sensors/Baseline.antt =====
-- crates/loadbear-sensors-windows/src/baseline.rs: what the disk of this machine normally does. The file
-- and its format are the work of the operating system and of `serde_json`, and are parameters.
pub mod Window
pub mod Median
mod Examples
use loadbear.Prelude.{
  ℕ, ◌-◌, ◌/◌, Bool, true, false, not, ◌&&◌, ◌||◌, String, Option, none, some, List, [], ◌∷◌, ◌++◌,
  ltb, ◌==◌, if◌then◌else◌, ◌>>=◌, length, get_elem?, drop, filter, sort_by,
}
use loadbear.Float.{Float, zero_float}
use loadbear.Sensors.Counters.{CounterSample}

pub record DiskBaseline (D : Type 0) : Type 0 where
  pub samples : List D
  pub dirty : Bool

abbrev pub min_samples : ℕ
min_samples = 120

abbrev pub window : ℕ
window = 512

-- The machine's file for the baseline: where it is, what it holds, whether a write succeeds, and the
-- format of a list of numbers.
pub record Storage (D : Type 0) : Type 0 where
  pub path : Option String
  pub read_to_string : String → Option String
  pub from_str : String → Option (List D)
  pub to_string : List D → Option String
  pub write : String → String → Bool

module _ {D : Type 0} where
  abbrev pub new : DiskBaseline D
  new = record { samples = []; dirty = false }

  -- `Vec::remove(0)` when the window is full
  make_room : List D → List D
  make_room samples = if length samples == window then drop 1 samples else samples

  -- `drain` of the excess
  pub newest : List D → List D
  newest samples = drop (length samples - window) samples

  -- The write, once there is a text: whether it succeeded, and with it whether the baseline is clean.
  written : DiskBaseline D → Bool → DiskBaseline D × Bool
  written b ok = if ok then (record b { dirty = false }, true) else (b, false)

  -- The baseline after the call, and what the call returns.
  pub save_if_changed : Storage D → DiskBaseline D → DiskBaseline D × Bool
  unfolding written
  save_if_changed store b = if not b.dirty then (b, false) else elim store.path [
    | none ↦ (b, false)
    | some path ↦ elim (store.to_string b.samples) [
      | none ↦ (b, false)
      | some text ↦ written b (store.write path text)
    ]
  ]

module _ {D : Type 0} ⦃d : Float D⦄ where
  abbrev pub quiet_queue : D
  quiet_queue = d.decimal 10 1

  abbrev pub saturation_ratio : D
  saturation_ratio = d.decimal 100 1

  -- The early return of `observe`.
  unfoldable pub is_rejected : CounterSample D → Bool
  is_rejected s =
      not (d.is_finite s.disk_seconds_per_transfer)
      || d.le s.disk_seconds_per_transfer zero_float
      || d.lt quiet_queue s.disk_queue_length

  unfoldable pub observe : CounterSample D → DiskBaseline D → DiskBaseline D
  unfolding make_room
  observe s b = if is_rejected s then b else record {
    samples = make_room b.samples ++ s.disk_seconds_per_transfer ∷ [];
    dirty = true;
  }

  -- The test on what was stored.
  abbrev pub is_usable : D → Bool
  is_usable v = d.is_finite v && d.lt zero_float v

  pub restored : Option (List D) → DiskBaseline D
  unfolding newest
  restored none = new
  restored (some samples) = record { samples = newest (filter is_usable samples); dirty = false }

  pub load : Storage D → DiskBaseline D
  load store =
      restored (do path ← store.path; text ← store.read_to_string path; store.from_str text)

  -- The comparison by `partial_cmp`, where numbers that do not compare are equal: it is not `Greater`.
  abbrev pub in_order : D → D → Bool
  in_order a b = not (d.lt b a)

  unfoldable pub median : DiskBaseline D → Option D
  median b =
      if ltb (length b.samples) min_samples
      then none
      else get_elem? (sort_by in_order b.samples) (length (sort_by in_order b.samples) / 2)

  unfoldable pub saturation_point : DiskBaseline D → Option D
  saturation_point b = do m ← median b; some (d.mul m saturation_ratio)
