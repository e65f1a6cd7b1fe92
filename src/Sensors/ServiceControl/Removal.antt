-- ===== src/Sensors/ServiceControl/Removal.antt =====
-- The order of the steps that take the old service off the machine.
use loadbear.Prelude.{
  ℕ, zero, suc, ◌+◌, ◌-◌, ◌≡◌, refl, inl, inr, Bool, true, false, Option, none, some, List, [], ◌∷◌,
  ◌++◌, arith, ◌==◌, if◌then◌else◌, ◌>>=◌, Bool-cases, Option-cases,
}
use loadbear.Sensors.ServiceControl.{
  ServiceState, running, stopped, other_state, Call, open_service, query_status, stop, delete,
  sleep, Host, is_waiting, poll, stopping, stop_and_deregister,
}

-- How far a removal is: nothing is known; the service is there; it is in a state other than stopped; it was
-- told to stop, with so many rounds of waiting left; its state is due to be asked, with so many rounds left
-- after that; it is stopped or its state cannot be told; it is deleted; it is gone as far as the manager lets it.
pub data Removal : Type 0 where
  unopened found live idle removed clear : Removal
  waiting due : ℕ → Removal

abbrev same : ServiceState → ServiceState → Bool
same running running = true
same stopped stopped = true
same other_state other_state = true
same _ _ = false

abbrev same_state : Option ServiceState → Option ServiceState → Bool
same_state none none = true
same_state (some a) (some b) = same a b
same_state _ _ = false

module _ (has_service : Bool) (states : ℕ → Option ServiceState) where
  -- The stage after a call, where the call is allowed at that stage and has the answer of this machine.
  pub after_removal : Removal → Call → Option Removal
  after_removal unopened (open_service true) = if has_service then some found else none
  after_removal unopened (open_service false) = if has_service then none else some clear
  after_removal found (query_status a) =
      if same_state a (states 0) then some (if is_waiting a then live else idle) else none
  after_removal live stop = some (waiting 20)
  after_removal (waiting (suc n)) (sleep ms) = if ms == 150 then some (due n) else none
  after_removal (waiting zero) delete = some removed
  after_removal (due n) (query_status a) =
      if same_state a (states (20 - n))
      then some (if is_waiting a then waiting n else idle)
      else none
  after_removal idle delete = some removed
  after_removal removed (sleep ms) = if ms == 400 then some clear else none
  after_removal stage c = none

  pub after_removals : List Call → Removal → Option Removal
  after_removals [] r = some r
  after_removals (c ∷ cs) r = do r' ← after_removal r c; after_removals cs r'

module _ (has_service : Bool) (states : ℕ → Option ServiceState) where
  -- Nothing follows the end of a removal.
  pub not_from_clear : (c : Call) → after_removal has_service states clear c ≡ none
  unfolding after_removal
  not_from_clear c = refl

  pub after_removals-nil :
      (r r' : Removal) → after_removals has_service states [] r ≡ some r' → some r ≡ some r'
  unfolding after_removals
  after_removals-nil r r' e = e

  pub after_removals-cons :
      (c : Call) (cs : List Call) (r r' : Removal)
      → after_removals has_service states (c ∷ cs) r ≡ some r'
      → (s : Removal) × (after_removal has_service states r c ≡ some s)
        × (after_removals has_service states cs s ≡ some r')
  unfolding after_removals
  after_removals-cons c cs r r' e = elim (Option-cases (after_removal has_service states r c)) [
    | inl n ↦ let e' = rw n at e in absurd (cc (e'))
    | inr (s, k) ↦ let e' = rw k at e in (s, k, e')
  ]

same_state_refl : (a : Option ServiceState) → same_state a a ≡ true
same_state_refl none = refl
same_state_refl (some running) = refl
same_state_refl (some stopped) = refl
same_state_refl (some other_state) = refl

-- The end of the removal.
abbrev pub tail : List Call
tail = delete ∷ sleep 400 ∷ []

module _ (b : Bool) (states : ℕ → Option ServiceState) where
  after_poll :
      (n i : ℕ)
      → i + n ≡ 21
      → after_removals b states (poll n i states ++ tail) (waiting n) ≡ some clear
  unfolding poll after_removals after_removal
  after_poll zero i e = refl
  after_poll (suc n) i e =
      let place : 20 - n ≡ i = omega arith in
      elim (Bool-cases (is_waiting (states i))) [
        | inl w ↦ rw (place, same_state_refl (states i), w) (after_poll n (suc i) (omega arith))
        | inr w ↦ rw (place, same_state_refl (states i), w) refl
      ]

  after_stopping :
      (a : Option ServiceState)
      → after_removals b states (stopping a states ++ tail) (if is_waiting a then live else idle)
        ≡ some clear
  unfolding stopping after_removals after_removal
  after_stopping none = refl
  after_stopping (some stopped) = refl
  after_stopping (some running) = after_poll 20 1 refl
  after_stopping (some other_state) = after_poll 20 1 refl

after_opening :
    (b : Bool) (states : ℕ → Option ServiceState)
    → after_removals b states
        (if b
          then open_service true ∷ query_status (states 0) ∷ stopping (states 0) states ++ tail
          else open_service false ∷ [])
        unopened
      ≡ some clear
unfolding after_removals after_removal
after_opening true states = rw (same_state_refl (states 0)) (after_stopping true states (states 0))
after_opening false states = refl

pub after_deregister :
    (h : Host) → after_removals h.has_service h.states (stop_and_deregister h) unopened ≡ some clear
unfolding stop_and_deregister
after_deregister h = after_opening h.has_service h.states
