-- ===== src/Sensors/Processes.antt =====
-- crates/loadbear-sensors-windows/src/processes.rs: the visible processes and their shares of the
-- machine. What the system answers for a process, and the version resource of a file, are parameters.
-- A path is a list of code points, and the text of such a list is a parameter.
pub mod Shares
pub mod Names
pub mod Description
mod Examples
use text.Mathlib.Text.{◌==◌ as str_eq}
use loadbear.Prelude.{
  ℕ, ◌+◌, ◌-◌, ◌*◌, ◌%◌, ◌^◌, max, Bool, true, false, ◌||◌, String, Option, none, some, List, [],
  ◌∷◌, ◌==◌, if◌then◌else◌, ◌>>=◌, map, filter_map, any, length, drop,
}
use loadbear.Float.{Float, zero_float, clamp}
use loadbear.Core.Types.{ProcessReading}

-- The two halves, of 32 bits each, of a time in units of 100 ns.
pub record Filetime : Type 0 where
  pub low : ℕ
  pub high : ℕ

-- The low half has 32 bits, so that `|` is a sum.
abbrev pub filetime_to_u64 : Filetime → ℕ
filetime_to_u64 ft = ft.high * 2 ^ 32 + ft.low

abbrev pub is_separator : ℕ → Bool
is_separator c = c == b'\\' || c == b'/'

-- What `rsplit` at the separators gives first: all that follows the last of them.
pub last_part : List ℕ → List ℕ
last_part [] = []
last_part (c ∷ s) =
    let rest = last_part s in
    if any is_separator s then rest else if is_separator c then s else c ∷ s

abbrev pub same_chars : List ℕ → List ℕ → Bool
same_chars [] [] = true
same_chars (c ∷ s) (e ∷ t) = if c == e then same_chars s t else false
same_chars _ _ = false

-- `strip_suffix`, or else the whole text.
pub without_suffix : List ℕ → List ℕ → List ℕ
without_suffix suffix [] = []
without_suffix suffix (c ∷ s) =
    let rest = c ∷ without_suffix suffix s in if same_chars (c ∷ s) suffix then [] else rest

abbrev pub exe : List ℕ
exe = b'.' ∷ b'e' ∷ b'x' ∷ b'e' ∷ []

abbrev non_empty : List ℕ → Option (List ℕ)
non_empty [] = none
non_empty (c ∷ s) = some (c ∷ s)

-- The part of `image_name` that works on the full path.
pub stem_of : List ℕ → Option (List ℕ)
unfolding last_part without_suffix
stem_of full = non_empty (without_suffix exe (last_part full))

-- What the system answers for a process that can be opened.
pub record Answers : Type 0 where
  pub full_path : Option (List ℕ)
  pub kernel_and_user : Option (Filetime × Filetime)
  pub working_set_size : Option ℕ

pub record RawProcess : Type 0 where
  pub pid : ℕ
  pub name : String
  pub path : String
  pub cpu_100ns : ℕ
  pub working_set_bytes : ℕ

-- `read_process`, where the sum of 64 bits wraps. A process that cannot be opened has no answers.
pub read_process : (List ℕ → String) → (ℕ → Option Answers) → ℕ → Option RawProcess
unfolding stem_of
read_process text answers pid = do
  a ← answers pid
  full ← a.full_path
  stem ← stem_of full
  times ← a.kernel_and_user
  size ← a.working_set_size
  some (record {
    pid = pid;
    name = text stem;
    path = text full;
    cpu_100ns = (filetime_to_u64 times.0 + filetime_to_u64 times.1) % 2 ^ 64;
    working_set_bytes = size;
  })

-- A `HashMap`: an insertion hides what was there under the key.
abbrev pub get : {V : Type 0} → ℕ → List (ℕ × V) → Option V
get k [] = none
get k ((k', v) ∷ m) = if k == k' then some v else get k m

-- `collect` into a map: of two values under one key the later stays.
pub collect_times : List RawProcess → List (ℕ × ℕ) → List (ℕ × ℕ)
collect_times [] m = m
collect_times (p ∷ ps) m = collect_times ps ((p.pid, p.cpu_100ns) ∷ m)

abbrev pub get_name : String → List (String × Option String) → Option (Option String)
get_name k [] = none
get_name k ((k', v) ∷ m) = if str_eq k k' then some v else get_name k m

pub record ProcessSampler : Type 0 where
  pub previous : List (ℕ × ℕ)
  pub last_sample_ms : Option ℕ
  pub logical_cpus : ℕ
  pub names : List (String × Option String)

abbrev pub new : ℕ → ProcessSampler
new logical_cpus = record {
  previous = [];
  last_sample_ms = none;
  logical_cpus = max logical_cpus 1;
  names = [];
}

-- `saturating_sub` on the clock, and zero before the first sample.
abbrev pub elapsed : Option ℕ → ℕ → ℕ
elapsed none now_ms = 0
elapsed (some last) now_ms = now_ms - last

-- The cached name of a path, or the name that its file has now, which is then cached.
name_with :
    (String → Option String)
    → String
    → List (String × Option String)
    → Option (Option String)
    → Option String × List (String × Option String)
name_with file_description path names (some cached) = (cached, names)
name_with file_description path names none =
    (file_description path, (path, file_description path) ∷ names)

pub name_for :
    (String → Option String)
    → String
    → List (String × Option String)
    → Option String × List (String × Option String)
unfolding name_with
name_for file_description path names = name_with file_description path names (get_name path names)

module _ {F : Type 0} where
  abbrev reading_of : RawProcess → Option String → F → ProcessReading F
  reading_of p display_name cpu_percent = record {
    pid = p.pid;
    name = p.name;
    display_name = display_name;
    working_set_bytes = p.working_set_bytes;
    hard_faults_per_sec = none;
    cpu_percent = cpu_percent;
  }

  -- The loop over the processes and their shares, with the names cached so far.
  pub readings_of :
      (String → Option String)
      → (RawProcess → F)
      → List RawProcess
      → List (String × Option String)
      → List (ProcessReading F) × List (String × Option String)
  unfolding name_for
  readings_of file_description share [] names = ([], names)
  readings_of file_description share (p ∷ ps) names =
      let named = name_for file_description p.path names in
      let rest = readings_of file_description share ps named.1 in
      (reading_of p named.0 (share p) ∷ rest.0, rest.1)

module _ {D F : Type 0} ⦃d : Float D⦄ ⦃f : Float F⦄ (as_f32 : D → F) where
  -- The share from the time before, where there was one.
  pub share_from : ℕ → ℕ → ℕ → Option ℕ → F
  share_from logical_cpus elapsed_ms cpu_100ns none = zero_float
  share_from logical_cpus elapsed_ms cpu_100ns (some previous) = as_f32 (
      clamp
        (d.mul
          (d.div
            (d.div (d.of_ℕ (cpu_100ns - previous)) (d.mul (d.of_ℕ elapsed_ms) (d.decimal 100000 1)))
            (d.of_ℕ logical_cpus))
          (d.decimal 1000 1))
        zero_float (d.decimal 1000 1))

  pub share_of_machine : ProcessSampler → RawProcess → ℕ → F
  unfolding share_from
  share_of_machine sampler p elapsed_ms =
      if elapsed_ms == 0
      then zero_float
      else share_from sampler.logical_cpus elapsed_ms p.cpu_100ns (get p.pid sampler.previous)

  -- `sample` on the processes that could be read.
  pub sample_raw :
      (String → Option String)
      → List RawProcess
      → ℕ
      → ProcessSampler
      → ProcessSampler × List (ProcessReading F)
  unfolding readings_of share_of_machine collect_times
  sample_raw file_description raw now_ms sampler =
      let elapsed_ms = elapsed sampler.last_sample_ms now_ms in
      let all =
        readings_of file_description (λ p. share_of_machine sampler p elapsed_ms) raw
          sampler.names in
      (
        record {
          previous = collect_times raw [];
          last_sample_ms = some now_ms;
          logical_cpus = sampler.logical_cpus;
          names = all.1;
        },
        all.0,
      )

  pub sample :
      (List ℕ → String)
      → (String → Option String)
      → (ℕ → Option Answers)
      → List ℕ
      → ℕ
      → ProcessSampler
      → ProcessSampler × List (ProcessReading F)
  unfolding sample_raw read_process
  sample text file_description answers pids now_ms =
      sample_raw file_description (filter_map (read_process text answers) pids) now_ms
