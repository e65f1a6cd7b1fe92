-- ===== src/App/Tick/Examples.antt =====
-- Rounds of the loop.
use loadbear.Prelude.{
  ℕ, ◌*◌, ◌≤◌, ◌≡◌, refl, inl, true, false, none, some, List, [], ◌∷◌, arith, sort_by,
}
use loadbear.Float.Fixed.{Fixed, num, fixed_float, Fixed-IsOrdered}
use loadbear.Core.Types.{worst}
use loadbear.Core.Verdict.{evaluate}
use loadbear.Core.Tier.{rank, stall_tier}
use loadbear.Core.Tier.Classify.{classify-IsWorst}
use loadbear.Core.Samples.{lower}
use loadbear.Sensors.Counters.{empty_sample, to_stall, median, push}
use loadbear.Sensors.Baseline.{DiskBaseline, Storage, saturation_point, is_rejected}
use loadbear.Sensors.Baseline
use loadbear.Sensors.Baseline.Window.{IsWellFormed}
use loadbear.Sensors.Shared.Samples.{warm}
use loadbear.App.State.{Setup, Round, Loop}
use loadbear.App.Tick.{initial, judged, reading_of, reading_at, processes_at, rounds, view}
use loadbear.App.Tick.Rounds.{IsKept, rounds_load_shown, rounds-IsKept}
use loadbear.App.Tick.Stale.{stale_ignored}

abbrev same : Fixed → Fixed
same x = x

abbrev thousandth : Fixed → ℕ
thousandth x = 0

abbrev setup : Setup Fixed
setup = record { logical = 1; spec = none; from_brand = none; decode = λ bytes. "Tdie" }

abbrev no_file : Storage Fixed
no_file = record {
  path = none;
  read_to_string = λ path. none;
  from_str = λ text. none;
  to_string = λ samples. none;
  write = λ path text. false;
}

-- A round at this time with this run queue, and an old record of temperatures.
abbrev round : ℕ → ℕ → Round Fixed Fixed
round now_ms queue = record {
  raw = record empty_sample { processor_queue_length = num (queue * 1000) 0 };
  layout_mismatch = false;
  record_read = some warm;
  read_ms = now_ms;
  is_running = true;
  now_ms = now_ms;
  raw_processes = [];
  file_description = λ path. none;
  containers = [];
  store = no_file;
}

abbrev unlearned : DiskBaseline Fixed
unlearned = Baseline.new

unlearned-IsWellFormed : IsWellFormed unlearned
unlearned-IsWellFormed = record { bounded = omega arith; usable = tt }

abbrev first : Loop Fixed Fixed
first = initial 1 unlearned

abbrev early : List (Round Fixed Fixed)
early = round 0 16 ∷ []

abbrev later : Loop Fixed Fixed
later = rounds same thousandth setup early first

stall-busy :
    rank (stall_tier (worst (reading_of same thousandth setup (round 2000 16) later).stall).1) ≡ 2
unfolding reading_of reading_at processes_at worst to_stall median push saturation_point
    Baseline.observe Baseline.median is_rejected sort_by rounds
stall-busy = refl

judged-busy : 2 ≤ rank (judged same thousandth setup (round 2000 16) later).tier
unfolding judged
judged-busy =
    let reading = reading_of same thousandth setup (round 2000 16) later in
    omega (arith, (classify-IsWorst (evaluate reading none) reading.stall).1, stall-busy)

rounds_load_shown_example : 2 ≤ rank (view same thousandth setup (round 2000 16) later).tier
rounds_load_shown_example =
    rounds_load_shown same thousandth setup 1 2 unlearned early (round 2000 16)
      ((refl, tt), (tt, tt)) (inl (omega arith, omega arith)) (judged-busy, tt)

rounds-IsKept_example : IsKept same thousandth setup later
rounds-IsKept_example =
    rounds-IsKept same thousandth setup Fixed-IsOrdered 1 unlearned unlearned-IsWellFormed early

stale_ignored_example :
    ((reading_of same thousandth setup (round 2000 0) first).cpu.package_temp_c ≡ none)
    × ((reading_of same thousandth setup (round 2000 0) first).cpu.package_watts ≡ none)
    × ((reading_of same thousandth setup (round 2000 0) first).cpu.tjmax_c ≡ none)
    × ((view same thousandth setup (round 2000 0) first).temp_zones ≡ [])
    × ((view same thousandth setup (round 2000 0) first).notice.temp_available ≡ false)
stale_ignored_example =
    stale_ignored same thousandth setup (round 2000 0) first warm refl (inl (omega arith))
