-- ===== src/Sensors/Mapping.antt =====
-- crates/loadbear-sensors-windows/src/mapping.rs: the seqlock that the helper writes and the interface
-- reads. The record is a number of words, which both sides copy one at a time and in any order; the
-- fences give the order of the copies and the sequence. Mapping the memory is the work of the system.
pub mod Torn
pub mod Publish
pub mod Lifetime
mod Examples
use loadbear.Prelude.{
  ℕ, zero, suc, ◌+◌, ◌%◌, ◌^◌, ◌<◌, ◌≡◌, Bool, true, false, Option, none, some, ◌==◌, if◌then◌else◌,
}
use loadbear.Sensors.Shared.{SharedTemperature, layout_version, helper_revision}

-- The record that is written: what describes the writer is stamped, the rest is the reading.
unfoldable pub payload : {F : Type 0} → SharedTemperature F → ℕ → SharedTemperature F
payload reading sequence = record reading {
  sequence = sequence;
  version = layout_version;
  revision = helper_revision;
}

abbrev pub sequence_modulus : ℕ
sequence_modulus = 2 ^ 32

-- The writer's side: how often the sequence has been raised, the words in memory, the record that is
-- being written, and the last one that was written whole.
pub record Shared (W : Type 0) : Type 0 where
  pub raised : ℕ
  pub words : ℕ → W
  pub writing : Option (ℕ → W)
  pub settled : ℕ → W

-- The reader's side, in one attempt: the sequence raised so often when it was read, and the snapshot
-- with the words that are copied already.
pub record Attempt (W : Type 0) : Type 0 where
  pub before : ℕ
  pub snapshot : ℕ → W
  pub copied : ℕ → Bool

pub record System (W : Type 0) : Type 0 where
  pub memory : Shared W
  pub reader : Option (Attempt W)

-- The field `sequence`, of 32 bits.
abbrev pub sequence : ℕ → ℕ
sequence raised = raised % sequence_modulus

abbrev pub update : {A : Type 0} → (ℕ → A) → ℕ → A → ℕ → A
update g i x j = if j == i then x else g j

module _ {W : Type 0} where
  -- `publish`: the sequence becomes odd.
  abbrev pub begin_write : (ℕ → W) → Shared W → Shared W
  begin_write new m = record m { raised = m.raised + 1; writing = some new }

  -- One word of the write.
  abbrev pub store_word : ℕ → (ℕ → W) → Shared W → Shared W
  store_word i new m = record m { words = update m.words i (new i) }

  -- The sequence becomes even.
  abbrev pub end_write : (ℕ → W) → Shared W → Shared W
  end_write new m = record m { raised = m.raised + 1; writing = none; settled = new }

  -- `read`: an attempt after the sequence was read; the snapshot is not written yet.
  abbrev pub begin_read : (ℕ → W) → Shared W → Attempt W
  begin_read blank m = record { before = m.raised; snapshot = blank; copied = λ _. false }

  -- One word of the read.
  abbrev pub load_word : ℕ → Shared W → Attempt W → Attempt W
  load_word i m a = record a {
    snapshot = update a.snapshot i (m.words i);
    copied = update a.copied i true;
  }

  -- The second look at the sequence.
  abbrev pub is_settled : Shared W → Attempt W → Bool
  is_settled m a = sequence m.raised == sequence a.before

  -- One step of either side. A write ends when every word of the record is written; an attempt begins
  -- only at an even sequence, and a new one may begin at any time.
  pub data Step (size : ℕ) (s : System W) : System W → Type 0 where
    begin_publish :
        (new : ℕ → W)
        → s.memory.writing ≡ none
        → Step size s (record s { memory = begin_write new s.memory })
    store :
        (i : ℕ) (new : ℕ → W)
        → s.memory.writing ≡ some new
        → Step size s (record s { memory = store_word i new s.memory })
    end_publish :
        (new : ℕ → W)
        → s.memory.writing ≡ some new
        → ((i : ℕ) → i < size → s.memory.words i ≡ new i)
        → Step size s (record s { memory = end_write new s.memory })
    begin_attempt :
        (blank : ℕ → W)
        → sequence s.memory.raised % 2 ≡ 0
        → Step size s (record s { reader = some (begin_read blank s.memory) })
    load :
        (i : ℕ) (a : Attempt W)
        → s.reader ≡ some a
        → Step size s (record s { reader = some (load_word i s.memory a) })

  -- The memory after `create`, and no attempt yet.
  abbrev pub created : (ℕ → W) → System W
  created words = record {
    memory = record { raised = 0; words = words; writing = none; settled = words };
    reader = none;
  }

  pub data Reach (size : ℕ) (words : ℕ → W) : System W → Type 0 where
    start : Reach size words (created words)
    later : {s t : System W} → Reach size words s → Step size s t → Reach size words t

-- The loop of `read`, from what each of the attempts gives.
pub retry : {R : Type 0} → ℕ → (ℕ → Option R) → Option R
retry zero attempt = none
retry (suc n) attempt =
    let rest = retry n (λ i. attempt (suc i)) in elim (attempt 0) [ none ↦ rest | some r ↦ some r ]

pub read : {R : Type 0} → (ℕ → Option R) → Option R
read = retry 8
