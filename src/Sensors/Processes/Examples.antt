-- ===== src/Sensors/Processes/Examples.antt =====
-- Two processes, sampled twice.
use loadbear.Prelude.{
  ℕ, ◌-◌, ◌≡◌, refl, String, Option, none, some, List, [], ◌∷◌, ◌==◌, if◌then◌else◌, map,
}
use loadbear.Float.{zero_float}
use loadbear.Float.Fixed.{Fixed, num, fixed_float}
use loadbear.Sensors.Processes.{RawProcess, Answers, new, share_from, sample_raw, sample}
use loadbear.Sensors.Processes.Shares.{time_of, shares, shares-sample-sample}

-- A process with this id, after so many units of processor time.
abbrev process : ℕ → ℕ → RawProcess
process pid cpu = record {
  pid = pid;
  name = "code";
  path = "C:\\code.exe";
  cpu_100ns = cpu;
  working_set_bytes = 4096;
}

-- The second sample has a process that the first has not.
abbrev first : List RawProcess
first = process 7 1000000 ∷ []

abbrev second : List RawProcess
second = process 7 6000000 ∷ process 8 90000000 ∷ []

abbrev editor : String → Option String
editor path = some "Editor"

-- Half a second of one of two processors, in one second.
shares-second :
    shares
      (sample_raw
        (λ (x : Fixed). x)
        editor
        second
        2000
        (sample_raw (λ (x : Fixed). x) editor first 1000 (new 2)).0).1
    ≡ num 25000 0 ∷ num 0 0 ∷ []
unfolding sample_raw
shares-second = refl

shares-sample-sample_example :
    shares
      (sample_raw
        (λ (x : Fixed). x)
        editor
        second
        2000
        (sample_raw (λ (x : Fixed). x) editor first 1000 (new 2)).0).1
    ≡ map
        (λ p.
          if 2000 - 1000 == 0
          then zero_float
          else share_from (λ (x : Fixed). x) 2 (2000 - 1000) p.cpu_100ns (time_of p.pid first none))
        second
shares-sample-sample_example =
    shares-sample-sample (λ (x : Fixed). x) editor first second 1000 2000 (new 2)

abbrev code : List ℕ
code = b'c' ∷ b'o' ∷ b'd' ∷ b'e' ∷ []

-- A process that cannot be opened is not in the sample.
abbrev answers : ℕ → Option Answers
answers pid = none

sample-unreadable :
    (sample (λ (x : Fixed). x) (λ s. "code") editor answers (4 ∷ 8 ∷ []) 1000 (new 2)).1 ≡ []
unfolding sample
sample-unreadable = refl
