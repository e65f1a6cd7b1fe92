-- ===== src/App/Tick/Stale.antt =====
-- What a record that is not fresh is used for.
use loadbear.Prelude.{
  ℕ, ◌-◌, ◌<◌, ◌≢◌, ◌≡◌, ◌⊎◌, refl, inl, inr, Bool, true, false, none, some, [], ◌>>=◌, arith,
}
use loadbear.Float.{Float}
use loadbear.Core.Attribution.Groups.{Lowercase}
use loadbear.Sensors.Shared.{SharedTemperature, layout_version, stale_after_ms, is_fresh}
use loadbear.App.Words.{temperature_notice}
use loadbear.App.State.{Setup, Round, Loop}
use loadbear.App.Tick.{fresh_record, reading_at, reading_of, zones_of, view}

-- A record of another layout, or one that is more than 15 seconds old.
abbrev pub IsStale : {F : Type 0} → SharedTemperature F → ℕ → Type 0
IsStale s now_ms = (s.version ≢ layout_version) ⊎ (stale_after_ms < now_ms - s.timestamp_ms)

stale_lem :
    {F : Type 0} (s : SharedTemperature F) (now_ms : ℕ)
    → IsStale s now_ms
    → is_fresh s now_ms ≡ false
stale_lem s now_ms (inl h) = ground arith
stale_lem s now_ms (inr h) = ground arith

no_record :
    (mismatch running : Bool) → (temperature_notice mismatch none running).temp_available ≡ false
unfolding temperature_notice
no_record true running = refl
no_record false true = refl
no_record false false = refl

module _ {D F : Type 0} ⦃d : Float D⦄ ⦃f : Float F⦄ ⦃l : Lowercase⦄ (as_f32 : D → F)
    (round_u32 : D → ℕ) where
  -- A record of another layout, or one that is more than 15 seconds old, has no effect: the reading has no
  -- temperature and no power, its limit is that of the specification alone, no zone is shown, and the
  -- temperatures are not said to be available.
  pub stale_ignored :
      (setup : Setup F) (x : Round D F) (s : Loop D F) (r : SharedTemperature F)
      → x.record_read ≡ some r
      → IsStale r x.read_ms
      → ((reading_of as_f32 round_u32 setup x s).cpu.package_temp_c ≡ none)
        × ((reading_of as_f32 round_u32 setup x s).cpu.package_watts ≡ none)
        × ((reading_of as_f32 round_u32 setup x s).cpu.tjmax_c ≡ (do p ← setup.spec; p.tjmax_c))
        × ((view as_f32 round_u32 setup x s).temp_zones ≡ [])
        × ((view as_f32 round_u32 setup x s).notice.temp_available ≡ false)
  unfolding view reading_of reading_at zones_of
  stale_ignored setup x s r read stale =
      let e : fresh_record x ≡ none =
        unfold fresh_record in rw (read, stale_lem r x.read_ms stale) refl in
      rw e (refl, refl, refl, refl, no_record x.layout_mismatch x.is_running)
