-- ===== src/Sensors/Mapping/Publish.antt =====
-- What a reader makes of a record that was published, and of attempts that fail.
use mathlib.Core.Path.{subst}
use loadbear.Prelude.{
  ℕ, zero, suc, ◌+◌, ◌≤◌, ◌<◌, ◌≡◌, refl, ◌↔◌, inl, inr, true, Option, none, some, arith,
  Option-cases, sym,
}
use loadbear.Float.{Float}
use loadbear.Sensors.Shared.{SharedTemperature, helper_is_current, is_fresh, stale_after_ms}
use loadbear.Sensors.Mapping.{payload, retry, read}

module _ {F : Type 0} ⦃f : Float F⦄ where
  -- A published record passes the tests of the reader: its helper is current, and it is fresh exactly
  -- until 15 seconds after the time of the reading, whatever version and revision the reading carried.
  pub payload-is_fresh :
      (reading : SharedTemperature F) (sequence now_ms : ℕ)
      → (helper_is_current (payload reading sequence) ≡ true)
        × ((is_fresh (payload reading sequence) now_ms ≡ true)
            ↔ (now_ms ≤ reading.timestamp_ms + stale_after_ms))
  unfolding payload
  payload-is_fresh reading sequence now_ms = (refl, (λ e. ground arith, λ h. ground arith))

module _ {R : Type 0} where
  -- A result of so many attempts: that of the first that has one, and none only where each fails.
  abbrev pub FirstOf : ℕ → (ℕ → Option R) → Option R → Type 0
  FirstOf n attempt none = (i : ℕ) → i < n → attempt i ≡ none
  FirstOf n attempt (some r) =
      (i : ℕ) × (i < n) × (attempt i ≡ some r) × ((j : ℕ) → j < i → attempt j ≡ none)

  shift :
      (n : ℕ) (attempt : ℕ → Option R)
      → attempt 0 ≡ none
      → (o : Option R) → FirstOf n (λ i. attempt (suc i)) o
      → FirstOf (suc n) attempt o
  shift n attempt e none h = all
    where
      all : (i : ℕ) → i < suc n → attempt i ≡ none
      all zero l = e
      all (suc i) l = h i (omega arith)
  shift n attempt e (some r) (i, l, k, before) = (suc i, omega arith, k, earlier)
    where
      earlier : (j : ℕ) → j < suc i → attempt j ≡ none
      earlier zero m = e
      earlier (suc j) m = before j (omega arith)

  retry-none :
      (n : ℕ) (attempt : ℕ → Option R)
      → attempt 0 ≡ none
      → retry (suc n) attempt ≡ retry n (λ i. attempt (suc i))
  unfolding retry
  retry-none n attempt e = rw (e, retry)

  retry-some :
      (n : ℕ) (attempt : ℕ → Option R) {r : R} → attempt 0 ≡ some r → retry (suc n) attempt ≡ some r
  unfolding retry
  retry-some n attempt e = rw (e, retry)

  retry-FirstOf : (n : ℕ) (attempt : ℕ → Option R) → FirstOf n attempt (retry n attempt)
  unfolding retry
  retry-FirstOf zero attempt = λ i h. absurd (omega arith)
  retry-FirstOf (suc n) attempt = elim (Option-cases (attempt 0)) [
    | inl e ↦
        subst (FirstOf (suc n) attempt) (sym (retry-none n attempt e))
          (shift n attempt e _ (retry-FirstOf n (λ i. attempt (suc i))))
    | inr (r, e) ↦
        subst (FirstOf (suc n) attempt) (sym (retry-some n attempt e))
          (0, omega arith, e, λ j h. absurd (omega arith))
  ]

  -- `read` gives the result of the first of its eight attempts that has one, and gives up only where
  -- each of the eight fails.
  pub read-FirstOf : (attempt : ℕ → Option R) → FirstOf 8 attempt (read attempt)
  unfolding read
  read-FirstOf attempt = retry-FirstOf 8 attempt
