-- ===== src/Core/Tier/Gap.antt =====
-- What a gap in the observations does to the sustained requirement.
use loadbear.Prelude.{
  ℕ, ◌-◌, ◌≤◌, ◌<◌, ◌≡◌, ap, ◌∙◌, true, false, some, none, foldl, List, [], ◌∷◌, ◌++◌, arith, All,
  ltb, leb, filter,
}
use loadbear.Core.Tier.{
  rank, Assessment, Sample, TierTracker, horizon, prune, window, supported_by_all, choose, escalate,
  record_sample, observe,
}

prune_front : (h : ℕ) (x : Sample) (xs : List Sample) → h ≤ x.0 → prune h (x ∷ xs) ≡ x ∷ xs
unfolding prune
prune_front h x xs le = let e : ltb x.0 h ≡ false = ground arith in rw e

-- Of a window in which only the last observation stands.
window_last :
    (now_ms window_ms : ℕ) (seen : Assessment) (xs : List Sample)
    → All (λ s. s.0 < now_ms - window_ms) xs
    → window now_ms window_ms (xs ++ (now_ms, seen) ∷ []) ≡ (now_ms, seen) ∷ []
window_last now_ms window_ms seen [] p =
    let e : leb (now_ms - window_ms) now_ms ≡ true = ground arith in rw (e, filter)
window_last now_ms window_ms seen (x ∷ xs) p =
    let e : leb (now_ms - window_ms) x.0 ≡ false = ground arith in
    rw (e, filter) (window_last now_ms window_ms seen xs p.1)

supported_last :
    (now_ms window_ms : ℕ) (seen : Assessment) (x : Sample) (xs : List Sample)
    → All (λ s. s.0 < now_ms - window_ms) (x ∷ xs)
    → supported_by_all (x ∷ (xs ++ (now_ms, seen) ∷ [])) now_ms window_ms true ≡ some seen
unfolding supported_by_all
supported_last now_ms window_ms seen x xs p =
    let e : ltb (now_ms - window_ms) x.0 ≡ false = ground arith in
    rw e (ap (foldl (choose true) none) (window_last now_ms window_ms seen (x ∷ xs) p))

-- After a gap as long as the escalation window, a single observation moves the tier: if the oldest
-- one that is kept is not older than the horizon, and all were made before the window, the next
-- observation is shown at once where it is worse than what is shown.
pub one_observation_rises :
    (t : TierTracker) (oldest : Sample) (rest : List Sample) (seen : Assessment) (now_ms : ℕ)
    → t.history ≡ oldest ∷ rest
    → horizon t.escalate_ms t.settle_ms now_ms ≤ oldest.0
    → All (λ s. s.0 < now_ms - t.escalate_ms) (oldest ∷ rest)
    → rank t.current.tier < rank seen.tier
    → (observe t seen now_ms).1 ≡ seen
unfolding observe record_sample escalate
one_observation_rises t oldest rest seen now_ms e kept gap worse =
    let x : Sample = (now_ms, seen) in
    let whole : record_sample t seen now_ms ≡ oldest ∷ (rest ++ x ∷ []) =
      ap (λ l. prune (horizon t.escalate_ms t.settle_ms now_ms) (l ++ x ∷ [])) e
      ∙ prune_front _ oldest (rest ++ x ∷ []) kept in
    let answer =
      ap (λ l. supported_by_all l now_ms t.escalate_ms true) whole
      ∙ supported_last now_ms t.escalate_ms seen oldest rest gap in
    let test : ltb (rank t.current.tier) (rank seen.tier) ≡ true = ground arith in
    rw (answer, escalate) (rw test)
