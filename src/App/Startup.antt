-- ===== src/App/Startup.antt =====
-- crates/loadbear-app/src/main.rs: what the sampling thread finds out before its loop. The database, the
-- identity of the processor and the number of threads are parameters. The loop before its first round stands
-- in App/Tick.
pub mod Candidates
mod Examples
use loadbear.Prelude.{ℕ, ◌%◌, ◌^◌, min, String, Option, none, some, List, ◌>>=◌, unwrap_or}
use loadbear.Float.{Float}
use loadbear.Core.Spec.{CpuKey, CpuSpec, SpecDb, resolve}
use loadbear.Core.Spec.Base.{base_from_brand}
use loadbear.Sensors.Cpuid.{CpuId, current_cpu_key, brand_string}
use loadbear.App.State.{Setup}

-- `logical`, from the parallelism that is available.
abbrev pub logical_of : Option ℕ → ℕ
logical_of available = unwrap_or (do n ← available; some (n % 2 ^ 32)) 1

-- The number of threads that an entry of the database is asked for.
abbrev pub threads_of : Option ℕ → ℕ
threads_of available = min (logical_of available) 255

module _ {F : Type 0} ⦃f : Float F⦄ where
  -- `spec`
  pub spec_of : SpecDb F → Option CpuKey → ℕ → Option (CpuSpec F)
  spec_of db key threads = do k ← key; m ← resolve db k threads; some m.spec

module _ {D F : Type 0} ⦃d : Float D⦄ ⦃f : Float F⦄ (parse : List ℕ → Option D)
    (round_u32 : D → ℕ) where
  pub setup_of : SpecDb F → CpuId → Option ℕ → (List ℕ → String) → Setup F
  unfolding spec_of
  setup_of db cpuid available decode = record {
    logical = logical_of available;
    spec = spec_of db (current_cpu_key cpuid) (threads_of available);
    from_brand = (do b ← brand_string cpuid; base_from_brand parse round_u32 b);
    decode = decode;
  }
