-- ===== src/Sensors/ServiceControl/Stopping.antt =====
-- How the old service is taken off the machine: the order of the steps, and how long they take.
use loadbear.Prelude.{
  ℕ, zero, suc, ◌+◌, ◌*◌, ◌≤◌, ◌≡◌, inl, inr, Bool, true, false, Option, none, some, List, [], ◌∷◌,
  ◌++◌, arith, if◌then◌else◌, Bool-cases, count_if, count_if-append,
}
use loadbear.Sensors.ServiceControl.{
  ServiceState, running, stopped, other_state, Call, stop, delete, sleep, Host, is_waiting, poll,
  stopping, stop_and_deregister,
}
use loadbear.Sensors.ServiceControl.Removal.{
  unopened, clear, after_removals, tail, after_deregister,
}

abbrev ms_of : Call → ℕ
ms_of (sleep ms) = ms
ms_of _ = 0

-- The milliseconds that the program sleeps.
abbrev pub slept : List Call → ℕ
slept [] = 0
slept (c ∷ cs) = ms_of c + slept cs

slept-append : (cs ds : List Call) → slept (cs ++ ds) ≡ slept cs + slept ds
slept-append [] ds = omega arith
slept-append (c ∷ cs) ds = omega (arith, slept-append cs ds)

-- The stops and the deletions.
abbrev pub is_stop : Call → Bool
is_stop stop = true
is_stop _ = false

abbrev pub is_delete : Call → Bool
is_delete delete = true
is_delete _ = false

-- Whether a state asks for a stop.
abbrev pub asks : Option ServiceState → ℕ
asks none = 0
asks (some stopped) = 0
asks (some running) = 1
asks (some other_state) = 1

-- What a part of the calls adds up to.
abbrev Totals : List Call → ℕ → ℕ → ℕ → Type 0
Totals cs ms stops deletes =
    (slept cs ≤ ms) × (count_if is_stop cs ≡ stops) × (count_if is_delete cs ≡ deletes)

poll-Totals : (n i : ℕ) (states : ℕ → Option ServiceState) → Totals (poll n i states) (n * 150) 0 0
unfolding poll
poll-Totals zero i states = omega arith
poll-Totals (suc n) i states =
    let rest = poll-Totals n (suc i) states in
    elim (Bool-cases (is_waiting (states i))) [
      | inl e ↦ rw e (omega arith)
      | inr e ↦ rw e (omega arith)
    ]

stopping-Totals :
    (a : Option ServiceState) (states : ℕ → Option ServiceState)
    → Totals (stopping a states) 3000 (asks a) 0
unfolding stopping
stopping-Totals none states = omega arith
stopping-Totals (some stopped) states = omega arith
stopping-Totals (some running) states = let rest = poll-Totals 20 1 states in omega arith
stopping-Totals (some other_state) states = let rest = poll-Totals 20 1 states in omega arith

stop_and_deregister-Totals :
    (h : Host)
    → Totals
        (stop_and_deregister h)
        3400
        (if h.has_service then asks (h.states 0) else 0)
        (if h.has_service then 1 else 0)
unfolding stop_and_deregister
stop_and_deregister-Totals h = elim (Bool-cases h.has_service) [
  | inl e ↦
      let cs = stopping (h.states 0) h.states in
      let total = stopping-Totals (h.states 0) h.states in
      let time = slept-append cs tail in
      let stops = count_if-append is_stop cs tail in
      let deletes = count_if-append is_delete cs tail in rw e (omega arith)
  | inr e ↦ rw e (omega arith)
]

-- Whatever the service answers, the steps come in this order and no other call is made. It is asked whether the
-- service is there, and nothing more is done where it is not. Where it is, its state is asked; a service that
-- is known not to be stopped is told to stop, once, and its state is asked every 150 ms until it is stopped,
-- or cannot be told, or was asked twenty times. Only then it is deleted, once, and 400 ms pass. In all it is
-- waited for at most 3.4 seconds.
pub stop_and_deregister-bounded :
    (h : Host)
    → (after_removals h.has_service h.states (stop_and_deregister h) unopened ≡ some clear)
      × (slept (stop_and_deregister h) ≤ 3400)
      × (count_if is_stop (stop_and_deregister h)
          ≡ (if h.has_service then asks (h.states 0) else 0))
      × (count_if is_delete (stop_and_deregister h) ≡ (if h.has_service then 1 else 0))
stop_and_deregister-bounded h =
    let total = stop_and_deregister-Totals h in (after_deregister h, total.0, total.1, total.2)
