-- ===== src/Core/Attribution/Groups/Members.antt =====
-- The processes of one name, and what it is to be the group of them.
use text.Mathlib.TextEquality.{eq_iff}
use loadbear.Prelude.{
  ℕ, ◌+◌, ◌-◌, ◌^◌, min, ◌≡◌, refl, sym, ap, ◌∙◌, inl, inr, true, false, String, List, [], ◌∷◌,
  ◌++◌, arith, All, Any, length, filter, Bool-cases,
}
use loadbear.Float.{Float}
use loadbear.Core.Types.{ProcessReading}
use loadbear.Core.Attribution.Groups.{Lowercase, ProcessGroup, same_name}

module _ ⦃l : Lowercase⦄ where
  pub same_name_refl : (a : String) → same_name a a ≡ true
  same_name_refl a = (eq_iff _ _).1 refl

  pub same_name_trans :
      (a b c : String) → same_name a b ≡ true → same_name c b ≡ true → same_name a c ≡ true
  same_name_trans a b c p q = (eq_iff _ _).1 ((eq_iff _ _).0 p ∙ sym ((eq_iff _ _).0 q))

module _ {F : Type 0} ⦃f : Float F⦄ ⦃l : Lowercase⦄ where
  abbrev pub members : String → List (ProcessReading F) → List (ProcessReading F)
  members name = filter (λ p. same_name name p.name)

  abbrev pub total_bytes : List (ProcessReading F) → ℕ
  total_bytes [] = 0
  total_bytes (p ∷ ps) = p.working_set_bytes + total_bytes ps

  -- A group of a list of processes.
  pub record IsGroupOf (ps : List (ProcessReading F)) (g : ProcessGroup F) : Type 0 where
    pub counted : g.count ≡ length (members g.name ps)
    pub summed : g.working_set_bytes ≡ min (total_bytes (members g.name ps)) (2 ^ 64 - 1)
    pub represented :
        Any (λ p. (p.pid ≡ g.representative_pid) × (same_name g.name p.name ≡ true)) ps

  -- No two groups have the same name.
  abbrev pub IsDistinct : List (ProcessGroup F) → Type 0
  IsDistinct [] = Unit
  IsDistinct (g ∷ gs) = All (λ h. same_name g.name h.name ≡ false) gs × IsDistinct gs

  pub record IsPartition (ps : List (ProcessReading F)) (gs : List (ProcessGroup F)) : Type 0 where
    pub groups : All (IsGroupOf ps) gs
    pub distinct : IsDistinct gs
    pub complete : All (λ p. Any (λ g. same_name g.name p.name ≡ true) gs) ps

  pub members-append :
      (name : String) (ps : List (ProcessReading F)) (p : ProcessReading F)
      → same_name name p.name ≡ true
      → (length (members name (ps ++ p ∷ [])) ≡ length (members name ps) + 1)
        × (total_bytes (members name (ps ++ p ∷ []))
            ≡ total_bytes (members name ps) + p.working_set_bytes)
  members-append name [] p e = rw (e, filter) (omega arith)
  members-append name (q ∷ ps) p e = elim (Bool-cases (same_name name q.name)) [
    | inl d ↦ rw (d, filter) (omega (arith, members-append name ps p e))
    | inr d ↦ rw (d, filter) (members-append name ps p e)
  ]

  pub members-append_other :
      (name : String) (ps : List (ProcessReading F)) (p : ProcessReading F)
      → same_name name p.name ≡ false
      → members name (ps ++ p ∷ []) ≡ members name ps
  members-append_other name [] p e = rw (e, filter)
  members-append_other name (q ∷ ps) p e = elim (Bool-cases (same_name name q.name)) [
    | inl d ↦ rw (d, filter) (ap (◌∷◌ q) (members-append_other name ps p e))
    | inr d ↦ rw (d, filter) (members-append_other name ps p e)
  ]
