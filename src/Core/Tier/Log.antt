-- ===== src/Core/Tier/Log.antt =====
-- The history of a tracker against the whole log of its observations.
use mathlib.Core.Path.{ap₂, ◌≡⟨◌⟩◌, ◌∎}
use mathlib.Core.List.{append-nil, append_assoc}
use loadbear.Prelude.{
  ℕ, ◌≤◌, ◌≡◌, refl, sym, ap, ◌∙◌, inl, inr, Bool, true, false, List, [], ◌∷◌, ◌++◌, arith, All,
  All_map, All-append, All-filter_of_All, Bool-cases, ltb, leb, leb→le, filter, IsSortedBy,
}
use loadbear.Core.Tier.{
  Sample, TierTracker, start, horizon, prune, record_sample, observe, observe_all,
}

abbrev pub earlier : Sample → Sample → Bool
earlier a b = leb a.0 b.0

-- The times do not fall.
abbrev pub IsOrderly : List Sample → Type 0
IsOrderly = IsSortedBy earlier

abbrev pub since : ℕ → List Sample → List Sample
since h = filter (λ s. leb h s.0)

pub IsOrderly-since : (h : ℕ) (xs : List Sample) → IsOrderly xs → IsOrderly (since h xs)
IsOrderly-since h [] o = tt
IsOrderly-since h (x ∷ xs) o = elim (Bool-cases (leb h x.0)) [
  | inl e ↦ rw (e, filter) (All-filter_of_All _ _ xs o.0, IsOrderly-since h xs o.1)
  | inr e ↦ rw (e, filter) (IsOrderly-since h xs o.1)
]

pub IsOrderly-append :
    (xs : List Sample) (x : Sample)
    → IsOrderly xs
    → All (λ s. s.0 ≤ x.0) xs
    → IsOrderly (xs ++ x ∷ [])
IsOrderly-append [] x o p = (tt, tt)
IsOrderly-append (y ∷ xs) x o p =
    (All-append _ xs (x ∷ []) o.0 (ground arith, tt), IsOrderly-append xs x o.1 p.1)

since_all : (h : ℕ) (xs : List Sample) → All (λ s. h ≤ s.0) xs → since h xs ≡ xs
since_all h [] p = refl
since_all h (x ∷ xs) p =
    let e : leb h x.0 ≡ true = ground arith in rw (e, filter) (ap (◌∷◌ x) (since_all h xs p.1))

-- On times that do not fall the loop that pops the front leaves what is recent enough.
prune-eq-since : (h : ℕ) (xs : List Sample) → IsOrderly xs → prune h xs ≡ since h xs
unfolding prune
prune-eq-since h [] o = refl
prune-eq-since h (x ∷ xs) o = elim (Bool-cases (ltb x.0 h)) [
  | inl e ↦
      let old : leb h x.0 ≡ false = ground arith in rw (e, old, filter) (prune-eq-since h xs o.1)
  | inr e ↦
      let new : leb h x.0 ≡ true = ground arith in
      rw (e, sym (since_all h (x ∷ xs) (leb→le _ _ new, All_map _ _ (λ y q. ground arith) xs o.0)))
]

since-append : (h : ℕ) (xs ys : List Sample) → since h (xs ++ ys) ≡ since h xs ++ since h ys
since-append h [] ys = refl
since-append h (x ∷ xs) ys = elim (Bool-cases (leb h x.0)) [
  | inl e ↦ rw (e, filter) (ap (◌∷◌ x) (since-append h xs ys))
  | inr e ↦ rw (e, filter) (since-append h xs ys)
]

since-since : (h k : ℕ) (xs : List Sample) → h ≤ k → since k (since h xs) ≡ since k xs
since-since h k [] p = refl
since-since h k (x ∷ xs) p = ground (arith, since-since h k xs p)

abbrev pub last_time : ℕ → List Sample → ℕ
last_time now_ms [] = now_ms
last_time now_ms (s ∷ rest) = last_time s.0 rest

module _ (escalate_ms settle_ms : ℕ) where
  horizon_mono :
      (a b : ℕ) → a ≤ b → horizon escalate_ms settle_ms a ≤ horizon escalate_ms settle_ms b
  horizon_mono a b h = omega arith

  -- One observation takes the history of a log to that of the longer log.
  history-observe :
      (t : TierTracker) (past : List Sample) (h : ℕ) (x : Sample)
      → t.escalate_ms ≡ escalate_ms
      → t.settle_ms ≡ settle_ms
      → t.history ≡ since h past
      → h ≤ horizon escalate_ms settle_ms x.0
      → IsOrderly past
      → All (λ s. s.0 ≤ x.0) past
      → (observe t x.1 x.0).0.history ≡ since (horizon escalate_ms settle_ms x.0) (past ++ x ∷ [])
  unfolding observe record_sample
  history-observe t past h x te ts e le o p =
      let k = horizon escalate_ms settle_ms x.0 in
      let kept =
        IsOrderly-append (since h past) x (IsOrderly-since h past o)
          (All-filter_of_All _ _ past p) in
      prune (horizon t.escalate_ms t.settle_ms x.0) (t.history ++ x ∷ [])
      ≡⟨ ap (λ l. prune (horizon t.escalate_ms t.settle_ms x.0) (l ++ x ∷ [])) e ⟩
        prune (horizon t.escalate_ms t.settle_ms x.0) (since h past ++ x ∷ [])
      ≡⟨ ap₂ (λ a b. prune (horizon a b x.0) (since h past ++ x ∷ [])) te ts ⟩
        prune k (since h past ++ x ∷ [])
      ≡⟨ prune-eq-since k _ kept ⟩ since k (since h past ++ x ∷ [])
      ≡⟨ since-append k (since h past) (x ∷ []) ⟩ since k (since h past) ++ since k (x ∷ [])
      ≡⟨ ap (λ l. l ++ since k (x ∷ [])) (since-since h k past le) ⟩
        since k past ++ since k (x ∷ [])
      ≡⟨ sym (since-append k past (x ∷ [])) ⟩ since k (past ++ x ∷ []) ∎

  history-from :
      (t : TierTracker) (past : List Sample) (now_ms : ℕ) (seen : List Sample)
      → t.escalate_ms ≡ escalate_ms
      → t.settle_ms ≡ settle_ms
      → t.history ≡ since (horizon escalate_ms settle_ms now_ms) past
      → IsOrderly past
      → All (λ s. s.0 ≤ now_ms) past
      → IsOrderly seen
      → All (λ s. now_ms ≤ s.0) seen
      → (observe_all t seen).history
        ≡ since (horizon escalate_ms settle_ms (last_time now_ms seen)) (past ++ seen)
  unfolding observe observe_all
  history-from t past now_ms [] te ts e o p q r =
      e ∙ ap (since (horizon escalate_ms settle_ms now_ms)) (sym (append-nil past))
  history-from t past now_ms (x ∷ seen) te ts e o p q r =
      let below : All (λ s. s.0 ≤ x.0) past = All_map _ _ (λ s h. omega arith) past p in
      let step = history-observe t past _ x te ts e (horizon_mono now_ms x.0 r.0) o below in
      history-from (observe t x.1 x.0).0 (past ++ x ∷ []) x.0 seen te ts step
        (IsOrderly-append past x o below) (All-append _ past (x ∷ []) below (omega arith, tt)) q.1
        (All_map _ _ (λ s h. ground arith) seen q.0)
      ∙ ap (since (horizon escalate_ms settle_ms (last_time x.0 seen)))
          (append_assoc past (x ∷ []) seen)

  -- On a clock that does not run backwards, the history of a tracker is the log of all its
  -- observations from the horizon of the last one on: nothing younger is lost, nothing older is kept.
  pub history-observe_all :
      (seen : List Sample)
      → IsOrderly seen
      → (observe_all (start escalate_ms settle_ms) seen).history
        ≡ since (horizon escalate_ms settle_ms (last_time 0 seen)) seen
  history-observe_all seen o =
      history-from (start escalate_ms settle_ms) [] 0 seen refl refl refl tt tt o
        (All_map _ _ (λ s h. omega arith) seen (everything seen))
    where
      everything : (xs : List Sample) → All (λ s. 0 ≤ s.0) xs
      everything [] = tt
      everything (x ∷ xs) = (omega arith, everything xs)
