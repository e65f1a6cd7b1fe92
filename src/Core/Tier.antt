-- ===== src/Core/Tier.antt =====
-- crates/loadbear-core/src/tier.rs: the tier of one window, and the tracker that applies the
-- sustained requirement. Times are `u64` milliseconds, passed in by the caller.
pub mod Classify
pub mod Window
pub mod Shown
pub mod Moves
pub mod Log
pub mod Sustained
pub mod Gap
mod Examples
use loadbear.Prelude.{
  ℕ, ◌-◌, ◌*◌, ◌^◌, min, max, Bool, true, false, not, ◌&&◌, Option, none, some, List, [], ◌∷◌, ◌++◌,
  ltb, leb, ◌==◌, if◌then◌else◌, filter, foldl,
}
use loadbear.Float.{Float}
use loadbear.Core.Types.{Resource, StallSignal, worst}
use loadbear.Core.Verdict.{Severity, VerdictKind, Verdict}

pub data Tier : Type 0 where
  easy braced strained : Tier

-- The derived order.
abbrev pub rank : Tier → ℕ
rank Tier.easy = 0
rank Tier.braced = 1
rank Tier.strained = 2

pub data TierReason : Type 0 where
  clear : TierReason
  verdict : VerdictKind → TierReason
  stall : Resource → TierReason

pub record Assessment : Type 0 where
  pub tier : Tier
  pub reason : TierReason

abbrev pub severity_rank : Severity → ℕ
severity_rank Severity.ok = 0
severity_rank Severity.degraded = 1
severity_rank Severity.out_of_spec = 2

-- `max_by_key` on the severity: the last of the greatest.
unfoldable pub later_worst : Option Verdict → Verdict → Option Verdict
later_worst none v = some v
later_worst (some w) v =
    some (if ltb (severity_rank v.severity) (severity_rank w.severity) then w else v)

unfoldable pub worst_verdict : List Verdict → Option Verdict
unfolding later_worst
worst_verdict = foldl later_worst none

abbrev pub severity_tier : Severity → Tier
severity_tier Severity.out_of_spec = Tier.strained
severity_tier Severity.degraded = Tier.braced
severity_tier Severity.ok = Tier.easy

abbrev pub verdict_tier : Option Verdict → Tier
verdict_tier none = Tier.easy
verdict_tier (some v) = severity_tier v.severity

unfoldable pub verdict_reason : Tier → Option Verdict → TierReason
verdict_reason tier none = TierReason.clear
verdict_reason tier (some v) =
    if ltb 0 (rank tier) then TierReason.verdict v.kind else TierReason.clear

module _ {F : Type 0} ⦃f : Float F⦄ where
  abbrev pub stall_braced : F
  stall_braced = f.decimal 40 2

  abbrev pub stall_strained : F
  stall_strained = f.decimal 80 2

  abbrev pub stall_tier : F → Tier
  stall_tier level =
      if f.le stall_strained level
      then Tier.strained
      else if f.le stall_braced level
      then Tier.braced
      else Tier.easy

  unfoldable pub classify : List Verdict → StallSignal F → Assessment
  classify verdicts signal =
      let from_verdicts = verdict_tier (worst_verdict verdicts) in
      let from_stall = stall_tier (worst signal).1 in
      if leb (rank from_stall) (rank from_verdicts)
      then record {
        tier = from_verdicts;
        reason = verdict_reason from_verdicts (worst_verdict verdicts);
      }
      else record { tier = from_stall; reason = TierReason.stall (worst signal).0 }

abbrev pub escalate_ms_default : ℕ
escalate_ms_default = 1500

abbrev pub settle_ms_default : ℕ
settle_ms_default = 6000

-- An observation with its time.
abbrev pub Sample : Type 0
Sample = ℕ × Assessment

pub record TierTracker : Type 0 where
  pub escalate_ms : ℕ
  pub settle_ms : ℕ
  pub current : Assessment
  pub latest : Assessment
  pub history : List Sample

abbrev pub untroubled : Assessment
untroubled = record { tier = Tier.easy; reason = TierReason.clear }

-- `TierTracker::new`
abbrev pub start : ℕ → ℕ → TierTracker
start escalate_ms settle_ms = record {
  escalate_ms = escalate_ms;
  settle_ms = settle_ms;
  current = untroubled;
  latest = untroubled;
  history = [];
}

abbrev pub u64_max : ℕ
u64_max = 2 ^ 64 - 1

-- The oldest time that is kept; both operations saturate.
abbrev pub horizon : ℕ → ℕ → ℕ → ℕ
horizon escalate_ms settle_ms now_ms = now_ms - min (max escalate_ms settle_ms * 2) u64_max

-- The loop that pops the front.
pub prune : ℕ → List Sample → List Sample
prune h [] = []
prune h ((t, a) ∷ rest) = let pruned = prune h rest in if ltb t h then pruned else (t, a) ∷ rest

-- One round of the loop of `supported_by_all`.
pub choose : Bool → Option Assessment → Sample → Option Assessment
choose worst none (t, a) = some a
choose worst (some c) (t, a) =
    if worst && ltb (rank a.tier) (rank c.tier)
    then some a
    else if not worst && ltb (rank c.tier) (rank a.tier)
    then some a
    else some c

abbrev pub window : ℕ → ℕ → List Sample → List Sample
window now_ms window_ms = filter (λ s. leb (now_ms - window_ms) s.0)

pub supported_by_all : List Sample → ℕ → ℕ → Bool → Option Assessment
unfolding choose
supported_by_all [] now_ms window_ms worst = none
supported_by_all (oldest ∷ rest) now_ms window_ms worst =
    if ltb (now_ms - window_ms) oldest.0
    then none
    else foldl (choose worst) none (window now_ms window_ms (oldest ∷ rest))

-- The branch taken where the tier does not move.
pub refresh : Assessment → Assessment → Assessment
refresh current seen =
    if rank seen.tier == rank current.tier then record current { reason = seen.reason } else current

pub settle : Option Assessment → Assessment → Assessment → Assessment
unfolding refresh
settle none current seen = refresh current seen
settle (some better) current seen =
    if ltb (rank better.tier) (rank current.tier) then better else refresh current seen

pub escalate : Option Assessment → Option Assessment → Assessment → Assessment → Assessment
unfolding settle
escalate none better current seen = settle better current seen
escalate (some worse) better current seen =
    if ltb (rank current.tier) (rank worse.tier) then worse else settle better current seen

-- The history after an observation is recorded and the old ones are dropped.
pub record_sample : TierTracker → Assessment → ℕ → List Sample
unfolding prune
record_sample t seen now_ms =
    prune (horizon t.escalate_ms t.settle_ms now_ms) (t.history ++ (now_ms, seen) ∷ [])

-- The new tracker, and the assessment that is returned.
unfoldable pub observe : TierTracker → Assessment → ℕ → TierTracker × Assessment
observe t seen now_ms =
    let history = record_sample t seen now_ms in
    let shown =
      escalate (supported_by_all history now_ms t.escalate_ms true)
        (supported_by_all history now_ms t.settle_ms false) t.current seen in
    (record t { current = shown; latest = seen; history = history }, shown)

abbrev pub is_settling : TierTracker → Bool
is_settling t = not (rank t.latest.tier == rank t.current.tier)

-- A run of observations.
unfoldable pub observe_all : TierTracker → List Sample → TierTracker
unfolding observe
observe_all t [] = t
observe_all t ((now_ms, seen) ∷ rest) = observe_all (observe t seen now_ms).0 rest
