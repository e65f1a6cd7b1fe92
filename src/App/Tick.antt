-- ===== src/App/Tick.antt =====
-- crates/loadbear-app/src/main.rs: the loop that samples the machine and makes what the window shows. What
-- the counters, the helper, the processes, Docker and the clock give in one round is an argument; the
-- conversions of floating point numbers and of texts are parameters.
pub mod Rounds
pub mod Stale
mod Examples
use loadbear.Prelude.{
  ℕ, ◌+◌, ◌-◌, ◌%◌, ◌^◌, min, Bool, true, false, not, ◌||◌, String, Option, none, some, List, [],
  ◌∷◌, ◌++◌, ◌==◌, if◌then◌else◌, ◌>>=◌, unwrap_or, is_none, map, length, last_of,
}
use loadbear.Float.{Float, zero_float}
use loadbear.Core.Types.{CpuReading, ProcessReading, ContainerReading, Reading, StallSignal}
use loadbear.Core.Spec.{CpuSpec}
use loadbear.Core.Spec.Base.{reported_base_mhz}
use loadbear.Core.Verdict.{Severity, Verdict, ThermalBand, evaluate, thermal_band}
use loadbear.Core.Tier.{
  Tier, rank, Assessment, TierTracker, classify, observe, start, escalate_ms_default,
  settle_ms_default,
}
use loadbear.Core.Contract.{Finding}
use loadbear.Core.Attribution.Groups.{Lowercase}
use loadbear.Core.Attribution.Causes.{diagnose}
use loadbear.Sensors.Counters.{
  CounterSample, SampleWindow, default_window, push, is_settled, median, average, to_stall,
  actual_mhz,
}
use loadbear.Sensors.Baseline.{DiskBaseline, Storage, saturation_point, save_if_changed}
use loadbear.Sensors.Baseline
use loadbear.Sensors.Processes.{RawProcess, ProcessSampler, sample_raw}
use loadbear.Sensors.Processes
use loadbear.Sensors.Shared.{
  SharedTemperature, is_fresh, watts, tjmax, package_temp, zone_list, helper_is_current,
}
use loadbear.App.Words.{
  Notice, temperature_notice, remediation_text, reason_text, driver_word, verdict_title,
}
use loadbear.App.Running.{Contributor, running_list}
use loadbear.App.State.{
  process_every, history_every, baseline_save_every, history_points, HistoryPoint, VerdictView,
  ZoneView, Setup, Round, Loop, View,
}

abbrev debug_severity : Severity → String
debug_severity Severity.ok = "Ok"
debug_severity Severity.degraded = "Degraded"
debug_severity Severity.out_of_spec = "OutOfSpec"

abbrev verdict_view : Finding → VerdictView
verdict_view x = record {
  kind = verdict_title x.verdict.kind;
  severity = debug_severity x.verdict.severity;
  detail = x.verdict.detail;
  basis = x.verdict.basis;
  cause = (do c ← x.cause; some c.label);
  action = (do r ← x.remediation; some (remediation_text r));
}

abbrev band_word : ThermalBand → String
band_word ThermalBand.normal = "normal"
band_word ThermalBand.warm = "warm"
band_word ThermalBand.hot = "hot"
band_word ThermalBand.at_limit = "atlimit"

-- The record, where it is fresh.
pub fresh_record : {D F : Type 0} → Round D F → Option (SharedTemperature F)
fresh_record x = do s ← x.record_read; if is_fresh s x.read_ms then some s else none

-- The first of two values that is there.
abbrev or_else : {A : Type 0} → Option A → Option A → Option A
or_else (some a) o = some a
or_else none o = o

module _ {F : Type 0} where
  -- A point at the end, and no more than the newest of them.
  pub remember : HistoryPoint F → List (HistoryPoint F) → List (HistoryPoint F)
  remember p history = last_of history_points (history ++ p ∷ [])

module _ {F : Type 0} ⦃f : Float F⦄ where
  abbrev pub limit_of : Setup F → Option (SharedTemperature F) → Option F
  limit_of setup published = or_else (do s ← published; tjmax s) (do s ← setup.spec; s.tjmax_c)

  zone_view : Option F → String × F → ZoneView F
  zone_view limit z = record {
    label = z.0;
    celsius = z.1;
    band = (do b ← thermal_band z.1 limit; some (band_word b));
  }

  -- The zones of a record, where there is one.
  zones_of : Setup F → Option (SharedTemperature F) → List (ZoneView F)
  unfolding zone_view
  zones_of setup none = []
  zones_of setup (some s) = map (zone_view (limit_of setup (some s))) (zone_list setup.decode s)

module _ {D F : Type 0} where
  -- `wrapping_add`
  abbrev pub tick_at : Loop D F → ℕ
  tick_at s = (s.tick + 1) % 2 ^ 32

  -- The window of a round.
  abbrev pub window_at : Round D F → Loop D F → SampleWindow D
  window_at x s = push x.raw s.window

  -- The loop before its first round.
  abbrev pub initial : ℕ → DiskBaseline D → Loop D F
  initial logical disk_baseline = record {
    window = default_window;
    process_sampler = Processes.new logical;
    tracker = start escalate_ms_default settle_ms_default;
    history = [];
    tick = 0;
    processes = [];
    disk_baseline = disk_baseline;
    last_tier = Tier.easy;
  }

module _ {D F : Type 0} ⦃d : Float D⦄ where
  -- The baseline of a round.
  abbrev pub baseline_at : Round D F → Loop D F → DiskBaseline D
  baseline_at x s = Baseline.observe x.raw s.disk_baseline

module _ {D F : Type 0} ⦃d : Float D⦄ ⦃f : Float F⦄ ⦃l : Lowercase⦄ (as_f32 : D → F)
    (round_u32 : D → ℕ) where
  -- The sampler and the processes of this round.
  processes_at : ℕ → Round D F → Loop D F → ProcessSampler × List (ProcessReading F)
  processes_at tick x s =
      if tick % process_every == 0 || length s.processes == 0
      then sample_raw as_f32 x.file_description x.raw_processes x.now_ms s.process_sampler
      else (s.process_sampler, s.processes)

  -- The reading of a round, from the sample that is judged.
  unfoldable pub reading_at :
      Setup F → Round D F → CounterSample D → Option D → List (ProcessReading F) → Reading F
  reading_at setup x judged disk_saturation processes = record {
    timestamp_ms = x.now_ms;
    stall = to_stall as_f32 judged setup.logical disk_saturation;
    cpu = record {
      all_core_mhz = actual_mhz round_u32 judged;
      utilization_pct = some (as_f32 judged.processor_time_pct);
      reported_base_mhz =
          reported_base_mhz (round_u32 judged.processor_frequency_mhz) setup.from_brand;
      package_watts = (do s ← fresh_record x; watts s);
      package_temp_c = (do s ← fresh_record x; package_temp s);
      tjmax_c = limit_of setup (fresh_record x);
      throttle = record { asserted = false; reason = none };
    };
    processes = processes;
    containers = x.containers;
  }

  -- The reading of a round, by the median.
  unfoldable pub reading_of : Setup F → Round D F → Loop D F → Reading F
  unfolding reading_at processes_at
  reading_of setup x s =
      reading_at setup x (unwrap_or (median (window_at x s)) x.raw)
        (saturation_point (baseline_at x s)) (processes_at (tick_at s) x s).1

  -- The judgement of a round: the tier of its reading.
  pub judged : Setup F → Round D F → Loop D F → Assessment
  judged setup x s =
      let reading = reading_of setup x s in classify (evaluate reading setup.spec) reading.stall

  -- The history after a round: a point from the raw sample and the mean, every other round.
  history_at : Setup F → Round D F → Loop D F → Tier → List (HistoryPoint F)
  unfolding remember
  history_at setup x s tier =
      let displayed =
        to_stall as_f32 (unwrap_or (average (window_at x s)) x.raw) setup.logical
          (saturation_point (baseline_at x s)) in
      if tick_at s % history_every == 0
      then remember
          (record {
            utilization = as_f32 x.raw.processor_time_pct;
            cpu = displayed.cpu;
            memory = displayed.memory;
            io = displayed.io;
            tier = rank tier;
          })
          s.history
      else s.history

  -- The loop after a round.
  pub advance : Setup F → Round D F → Loop D F → Loop D F
  unfolding processes_at history_at
  advance setup x s =
      let shown = observe s.tracker (judged setup x s) x.now_ms in
      record {
        window = window_at x s;
        process_sampler = (processes_at (tick_at s) x s).0;
        tracker = shown.0;
        history = history_at setup x s shown.1.tier;
        tick = tick_at s;
        processes = (processes_at (tick_at s) x s).1;
        disk_baseline =
            (if tick_at s % baseline_save_every == 0
              then (save_if_changed x.store (baseline_at x s)).0
              else baseline_at x s);
        last_tier = shown.1.tier;
      }

  -- What the window shows after a round.
  pub view : Setup F → Round D F → Loop D F → View D F
  unfolding zones_of
  view setup x s =
      let reading = reading_of setup x s in
      let shown = observe s.tracker (judged setup x s) x.now_ms in
      let published = fresh_record x in
      record {
        tier = shown.1.tier;
        base_mhz = or_else (do p ← setup.spec; some p.base_mhz) reading.cpu.reported_base_mhz;
        mhz = reading.cpu.all_core_mhz;
        watts = reading.cpu.package_watts;
        stall = reading.stall;
        verdicts = map verdict_view (diagnose reading (evaluate reading setup.spec));
        driver = driver_word shown.0.latest;
        reason = reason_text shown.1 shown.0.latest (is_settled (window_at x s));
        history = (advance setup x s).history;
        running = running_list reading shown.1;
        notice =
            temperature_notice x.layout_mismatch (do r ← published; some (helper_is_current r))
              x.is_running;
        temp_zones = zones_of setup published;
        repaint = (if rank shown.1.tier == rank s.last_tier then none else some shown.1.tier);
      }

  -- A run of rounds, each after a sample could be taken.
  pub rounds : Setup F → List (Round D F) → Loop D F → Loop D F
  unfolding advance
  rounds setup [] s = s
  rounds setup (x ∷ xs) s = rounds setup xs (advance setup x s)
