-- ===== src/Sensors/Mapping/Torn.antt =====
-- The seqlock: what every step keeps, and the snapshot of an attempt.
use mathlib.Core.Path.{subst}
use loadbear.Prelude.{
  ℕ, ◌+◌, ◌%◌, ◌<◌, ◌≤◌, ◌≡◌, refl, sym, ap, ◌∙◌, inl, inr, true, Option, none, some, arith,
  Bool-cases, ◌==◌,
}
use loadbear.Sensors.Mapping.{
  sequence_modulus, Shared, Attempt, System, load_word, is_settled, Step, begin_publish, store,
  end_publish, begin_attempt, load, Reach, start, later,
}

module _ {W : Type 0} (size : ℕ) where
  -- The sequence is odd exactly during a write, and outside of one memory holds the last record.
  abbrev pub WriterInv : ℕ → (ℕ → W) → (ℕ → W) → Option (ℕ → W) → Type 0
  WriterInv raised words settled none =
      (raised % 2 ≡ 0) × ((i : ℕ) → i < size → words i ≡ settled i)
  WriterInv raised words settled (some new) = raised % 2 ≡ 1

  -- An attempt began at an even sequence, and as long as that is the sequence, what it copied is the
  -- last record.
  abbrev pub ReaderInv : ℕ → (ℕ → W) → Option (Attempt W) → Type 0
  ReaderInv raised settled none = Unit
  ReaderInv raised settled (some a) =
      (a.before % 2 ≡ 0)
      × (a.before ≤ raised)
      × (a.before ≡ raised → (i : ℕ) → i < size → a.copied i ≡ true → a.snapshot i ≡ settled i)

  pub record Inv (s : System W) : Type 0 where
    pub writer : WriterInv s.memory.raised s.memory.words s.memory.settled s.memory.writing
    pub reader : ReaderInv s.memory.raised s.memory.settled s.reader

  -- A raised sequence leaves an attempt with nothing to claim.
  ReaderInv-raised :
      (raised : ℕ) (old new : ℕ → W) (r : Option (Attempt W))
      → ReaderInv raised old r
      → ReaderInv (raised + 1) new r
  ReaderInv-raised raised old new none i = tt
  ReaderInv-raised raised old new (some a) i = (i.0, omega arith, λ e. absurd (omega arith))

  -- At an even sequence no write is going on.
  idle :
      (raised : ℕ) (words settled : ℕ → W) (w : Option (ℕ → W))
      → WriterInv raised words settled w
      → raised % 2 ≡ 0
      → (i : ℕ) → i < size
      → words i ≡ settled i
  idle raised words settled none inv even i h = inv.1 i h
  idle raised words settled (some new) inv even i h = absurd (omega arith)

  ReaderInv-load :
      (m : Shared W) (i : ℕ) (a : Attempt W)
      → WriterInv m.raised m.words m.settled m.writing
      → ReaderInv m.raised m.settled (some a)
      → ReaderInv m.raised m.settled (some (load_word i m a))
  ReaderInv-load m i a w r = (
    r.0,
    r.1,
    λ e j h c. elim (Bool-cases (j == i)) [
      | inl q ↦
          let same : j ≡ i = ground arith in
          rw q (ap m.words (sym same) ∙ idle _ _ _ m.writing w (omega (arith, r.0)) j h)
      | inr q ↦ rw q (r.2 e j h (rw q at c))
    ],
  )

  Step-Inv : {s t : System W} → Step size s t → Inv s → Inv t
  Step-Inv {s} (begin_publish new e) inv = record {
    writer =
        let w = subst (WriterInv s.memory.raised s.memory.words s.memory.settled) e inv.writer in
        omega (arith, w.0);
    reader = ReaderInv-raised _ _ _ s.reader inv.reader;
  }
  Step-Inv {s} (store i new e) inv = record {
    writer =
        let w : s.memory.raised % 2 ≡ 1 =
          subst (WriterInv s.memory.raised s.memory.words s.memory.settled) e inv.writer in
        rw e w;
    reader = inv.reader;
  }
  Step-Inv {s} (end_publish new e whole) inv = record {
    writer = (
      let w : s.memory.raised % 2 ≡ 1 =
            subst (WriterInv s.memory.raised s.memory.words s.memory.settled) e inv.writer in
          omega arith,
      whole,
    );
    reader = ReaderInv-raised _ _ _ s.reader inv.reader;
  }
  Step-Inv {s} (begin_attempt blank even) inv = record {
    writer = inv.writer;
    reader = (omega arith, omega arith, λ e i h c. absurd cc);
  }
  Step-Inv {s} (load i a e) inv = record {
    writer = inv.writer;
    reader = ReaderInv-load s.memory i a inv.writer (subst (ReaderInv _ _) e inv.reader);
  }

  Reach-Inv : {words : ℕ → W} {s : System W} → Reach size words s → Inv s
  Reach-Inv start = record { writer = (omega arith, λ i h. refl); reader = tt }
  Reach-Inv (later r st) = Step-Inv st (Reach-Inv r)

  -- Whatever the order of the steps, an attempt that has copied every word and finds the sequence
  -- unchanged has a snapshot of the last record that was written whole, provided that the sequence was
  -- raised fewer than 2^32 times since the attempt began.
  pub no_torn_read :
      (words : ℕ → W) (s : System W) (a : Attempt W)
      → Reach size words s
      → s.reader ≡ some a
      → ((i : ℕ) → i < size → a.copied i ≡ true)
      → is_settled s.memory a ≡ true
      → s.memory.raised < a.before + sequence_modulus
      → (i : ℕ) → i < size
      → a.snapshot i ≡ s.memory.settled i
  no_torn_read words s a reach e all same few i h =
      let inv = subst (ReaderInv s.memory.raised s.memory.settled) e (Reach-Inv reach).reader in
      inv.2 (ground (arith, inv.1)) i h (all i h)
