-- ===== src/Sensors/Mapping/Examples.antt =====
-- A publication and a read that run against each other.
use loadbear.Prelude.{ℕ, zero, suc, ◌<◌, ◌≡◌, refl, true, none, some, Option, arith}
use loadbear.Float.Fixed.{fixed_float}
use loadbear.Sensors.Mapping.{
  Attempt, System, begin_write, store_word, end_write, begin_read, load_word, begin_publish, store,
  end_publish, begin_attempt, load, created, Reach, start, later, read, retry,
}
use loadbear.Sensors.Mapping.Torn.{no_torn_read}

abbrev sevens : ℕ → ℕ
sevens i = 7

abbrev zeros : ℕ → ℕ
zeros i = 0

-- A record of one word is published, and read.
abbrev s0 : System ℕ
s0 = created zeros

abbrev s1 : System ℕ
s1 = record s0 { memory = begin_write sevens s0.memory }

abbrev s2 : System ℕ
s2 = record s1 { memory = store_word 0 sevens s1.memory }

abbrev s3 : System ℕ
s3 = record s2 { memory = end_write sevens s2.memory }

abbrev s4 : System ℕ
s4 = record s3 { reader = some (begin_read zeros s3.memory) }

abbrev last : Attempt ℕ
last = load_word 0 s4.memory (begin_read zeros s3.memory)

abbrev s5 : System ℕ
s5 = record s4 { reader = some last }

s5-Reach : Reach 1 zeros s5
s5-Reach =
    later
      (later
        (later (later (later start (begin_publish sevens refl)) (store 0 sevens refl))
          (end_publish sevens refl only))
        (begin_attempt zeros refl))
      (load 0 (begin_read zeros s3.memory) refl)
  where
    only : (i : ℕ) → i < 1 → s2.memory.words i ≡ sevens i
    only zero h = refl
    only (suc i) h = absurd (omega arith)

all_copied : (i : ℕ) → i < 1 → last.copied i ≡ true
all_copied zero h = refl
all_copied (suc i) h = absurd (omega arith)

no_torn_read_example : last.snapshot 0 ≡ s5.memory.settled 0
no_torn_read_example =
    no_torn_read 1 zeros s5 last s5-Reach refl all_copied refl (omega arith) 0 (omega arith)

-- The third attempt gives a result.
abbrev third : ℕ → Option ℕ
third zero = none
third (suc zero) = none
third (suc (suc i)) = some i

read-third : read third ≡ some 0
unfolding read retry
read-third = refl
