-- ===== src/Core/Tier/Classify.antt =====
-- The tier of one window against all its inputs, and the reason that travels with it.
use loadbear.Prelude.{
  ℕ, ◌≤◌, ◌<◌, ◌≡◌, refl, ap, leb, leb→le, Bool-cases, All_map, ◌⊎◌, inl, inr, Option, none, some,
  List, [], ◌∷◌, foldl, arith, All, Any, Any-map,
}
use loadbear.Float.{Float}
use loadbear.Core.Types.{StallSignal, worst}
use loadbear.Core.Verdict.{Verdict}
use loadbear.Core.Tier.{
  Tier, easy, rank, TierReason, clear, verdict, stall, Assessment, later_worst, worst_verdict,
  severity_tier, verdict_tier, verdict_reason, stall_tier, classify,
}

abbrev pub verdict_rank : Verdict → ℕ
verdict_rank v = rank (severity_tier v.severity)

-- The greatest verdict is as severe as each, and is one of them.
later_worst-le :
    (o : Option Verdict) (v : Verdict)
    → (rank (verdict_tier o) ≤ rank (verdict_tier (later_worst o v)))
      × (verdict_rank v ≤ rank (verdict_tier (later_worst o v)))
unfolding later_worst
later_worst-le none v = omega arith
later_worst-le (some w) v = ground arith

later_worst-mem :
    (o : Option Verdict) (v w : Verdict) → later_worst o v ≡ some w → (o ≡ some w) ⊎ (v ≡ w)
unfolding later_worst
later_worst-mem o v w e = ground arith

foldl-later_worst-le :
    (o : Option Verdict) (vs : List Verdict)
    → (rank (verdict_tier o) ≤ rank (verdict_tier (foldl later_worst o vs)))
      × All (λ v. verdict_rank v ≤ rank (verdict_tier (foldl later_worst o vs))) vs
foldl-later_worst-le o [] = (omega arith, tt)
foldl-later_worst-le o (v ∷ vs) =
    let (a, rest) = foldl-later_worst-le (later_worst o v) vs in
    let (b, c) = later_worst-le o v in (omega arith, (omega arith, rest))

foldl-later_worst-mem :
    (o : Option Verdict) (vs : List Verdict) (w : Verdict)
    → foldl later_worst o vs ≡ some w
    → (o ≡ some w) ⊎ Any (λ v. v ≡ w) vs
foldl-later_worst-mem o [] w e = inl e
foldl-later_worst-mem o (v ∷ vs) w e = elim (foldl-later_worst-mem (later_worst o v) vs w e) [
  | inl p ↦ elim (later_worst-mem o v w p) [ inl q ↦ inl q | inr q ↦ inr (inl q) ]
  | inr m ↦ inr (inr m)
]

-- The reason of a verdict that decides: it is named unless it is no finding at all.
verdict_reason-cases :
    (w : Verdict)
    → let tier = severity_tier w.severity in
      ((tier ≡ easy) × (verdict_reason tier (some w) ≡ clear))
      ⊎ ((0 < rank tier) × (verdict_reason tier (some w) ≡ verdict w.kind))
unfolding verdict_reason
verdict_reason-cases w = ground arith

module _ {F : Type 0} ⦃f : Float F⦄ (verdicts : List Verdict) (signal : StallSignal F) where
  abbrev from_stall : Tier
  from_stall = stall_tier (worst signal).1

  -- What a reason says of the inputs and of the tier that it stands beside.
  abbrev pub Explains : TierReason → Tier → Type 0
  Explains clear tier = tier ≡ easy
  Explains (verdict k) tier =
      (0 < rank tier) × Any (λ v. (v.kind ≡ k) × (severity_tier v.severity ≡ tier)) verdicts
  Explains (stall r) tier =
      (0 < rank tier) × ((worst signal).0 ≡ r) × (stall_tier (worst signal).1 ≡ tier)

  abbrev pub IsWorst : Assessment → Type 0
  IsWorst a =
      All (λ v. verdict_rank v ≤ rank a.tier) verdicts
      × (rank (stall_tier (worst signal).1) ≤ rank a.tier)
      × Explains a.reason a.tier

  -- The reason that goes with the verdicts, where they decide.
  verdict_reason-Explains :
      (o : Option Verdict)
      → worst_verdict verdicts ≡ o
      → Explains (verdict_reason (verdict_tier o) o) (verdict_tier o)
  unfolding verdict_reason worst_verdict
  verdict_reason-Explains none e = refl
  verdict_reason-Explains (some w) e = elim (verdict_reason-cases w) [
    | inl (p, q) ↦ rw q p
    | inr (p, q) ↦ rw q (
      p,
      elim (foldl-later_worst-mem none verdicts w e) [
        | inl h ↦ absurd (cc)
        | inr m ↦
            Any-map _ _ (λ v h. (ap (λ u. u.kind) h, ap (λ u. severity_tier u.severity) h)) verdicts
              m
      ],
    )
  ]

  verdicts-le : All (λ v. verdict_rank v ≤ rank (verdict_tier (worst_verdict verdicts))) verdicts
  unfolding worst_verdict
  verdicts-le = (foldl-later_worst-le none verdicts).1

  decided_by_verdicts :
      rank from_stall ≤ rank (verdict_tier (worst_verdict verdicts))
      → IsWorst (record {
        tier = verdict_tier (worst_verdict verdicts);
        reason = verdict_reason (verdict_tier (worst_verdict verdicts)) (worst_verdict verdicts);
      })
  decided_by_verdicts h = (verdicts-le, h, verdict_reason-Explains _ refl)

  decided_by_stall :
      rank (verdict_tier (worst_verdict verdicts)) < rank from_stall
      → IsWorst (record { tier = from_stall; reason = stall (worst signal).0 })
  decided_by_stall h = (
    All_map _ _ (λ v p. omega arith) verdicts verdicts-le,
    omega arith,
    (omega arith, refl, refl),
  )

  -- The worst input wins, and the reason is true: no verdict is more severe than the tier, the stall
  -- is no worse than it, and the reason names an input that has exactly this tier, or none where the
  -- tier is `Easy`.
  pub classify-IsWorst : IsWorst (classify verdicts signal)
  unfolding classify
  classify-IsWorst =
      elim (Bool-cases (leb (rank from_stall) (rank (verdict_tier (worst_verdict verdicts))))) [
        | inl e ↦ rw e (decided_by_verdicts (leb→le _ _ e))
        | inr e ↦ rw e (decided_by_stall (ground arith))
      ]
