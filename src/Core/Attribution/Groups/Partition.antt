-- ===== src/Core/Attribution/Groups/Partition.antt =====
-- The groups of `group_by_name` against the processes.
use mathlib.Core.Path.{subst}
use mathlib.Core.List.{append-nil, append_assoc}
use mathlib.Core.Bool.{false≢true}
use loadbear.Prelude.{
  Any-append, Any-last, ◌^◌, ◌≡◌, refl, sym, ap, ◌∙◌, inl, inr, Bool, true, false, String, List, [],
  ◌∷◌, ◌++◌, foldl, arith, All, Any, All_map, All-append, length, All_zip, All_Any, Any_elim,
  filter-eq-nil, ◌<◌, ltb, ◌/◌, if◌then◌else◌, Bool-cases,
}
use loadbear.Float.{Float}
use loadbear.Core.Types.{ProcessReading}
use loadbear.Core.Attribution.Groups.{
  Lowercase, ProcessGroup, new_group, join, same_name, add_process, group_by_name,
}
use loadbear.Core.Attribution.Groups.Members.{
  same_name_refl, same_name_trans, members, total_bytes, IsGroupOf, IsDistinct, IsPartition,
  members-append, members-append_other,
}

module _ {F : Type 0} ⦃f : Float F⦄ ⦃l : Lowercase⦄ where
  module _ (ps : List (ProcessReading F)) (p : ProcessReading F) where
    -- A group of another name is not touched.
    keep :
        (g : ProcessGroup F)
        → same_name g.name p.name ≡ false
        → IsGroupOf ps g
        → IsGroupOf (ps ++ p ∷ []) g
    keep g e i = record {
      counted = rw (members-append_other g.name ps p e) i.counted;
      summed = rw (members-append_other g.name ps p e) i.summed;
      represented = Any-append _ ps _ i.represented;
    }

    -- The group of the name takes the process.
    IsGroupOf-join :
        (g : ProcessGroup F)
        → same_name g.name p.name ≡ true
        → IsGroupOf ps g
        → IsGroupOf (ps ++ p ∷ []) (join g p)
    unfolding join
    IsGroupOf-join g e i = record {
      counted = omega (arith, members-append g.name ps p e, i.counted);
      summed = omega (arith, members-append g.name ps p e, i.summed);
      represented =
          representative (ltb ((join g p).working_set_bytes / (join g p).count) p.working_set_bytes)
            refl;
    }
      where
        test : Bool
        test = ltb ((join g p).working_set_bytes / (join g p).count) p.working_set_bytes

        representative :
            (b : Bool)
            → test ≡ b
            → Any
                (λ q.
                  (q.pid ≡ (if b then p.pid else g.representative_pid))
                  × (same_name g.name q.name ≡ true))
                (ps ++ p ∷ [])
        representative true _ = Any-last _ ps p (refl, e)
        representative false _ = Any-append _ ps _ i.represented

    IsGroupOf-new :
        p.working_set_bytes < 2 ^ 64
        → members p.name ps ≡ []
        → IsGroupOf (ps ++ p ∷ []) (new_group p)
    unfolding new_group
    IsGroupOf-new fits none = record {
      counted = omega (arith, members-append p.name ps p (same_name_refl p.name), ap length none);
      summed =
          omega (arith, members-append p.name ps p (same_name_refl p.name), ap total_bytes none);
      represented = Any-last _ ps p (refl, same_name_refl p.name);
    }

    other :
        (g h : ProcessGroup F)
        → same_name g.name p.name ≡ true
        → same_name g.name h.name ≡ false
        → same_name h.name p.name ≡ false
    other g h e d = elim (Bool-cases (same_name h.name p.name)) [
      | inl q ↦ absurd (false≢true (sym d ∙ same_name_trans _ _ _ e q))
      | inr q ↦ q
    ]

    -- The groups that do not have the name of the process.
    Others : List (ProcessGroup F) → Type 0
    Others = All (λ g. same_name g.name p.name ≡ false)

    add_process-groups :
        p.working_set_bytes < 2 ^ 64
        → (gs : List (ProcessGroup F)) → IsDistinct gs
        → All (IsGroupOf ps) gs
        → (Others gs → members p.name ps ≡ [])
        → All (IsGroupOf (ps ++ p ∷ [])) (add_process gs p)
    unfolding add_process Others
    add_process-groups fits [] d i fresh = (IsGroupOf-new fits (fresh tt), tt)
    add_process-groups fits (g ∷ gs) d i fresh = elim (Bool-cases (same_name g.name p.name)) [
      | inl e ↦ rw e (
        IsGroupOf-join g e i.0,
        All_map _ _ (λ h q. keep h (other g h e q.0) q.1) gs (All_zip _ _ gs d.0 i.1),
      )
      | inr e ↦ rw e (keep g e i.0, add_process-groups fits gs d.1 i.1 (λ o. fresh (e, o)))
    ]

    add_process-differs :
        (name : String) (gs : List (ProcessGroup F))
        → same_name name p.name ≡ false
        → All (λ g. same_name name g.name ≡ false) gs
        → All (λ g. same_name name g.name ≡ false) (add_process gs p)
    unfolding add_process join new_group
    add_process-differs name [] e d = (e, tt)
    add_process-differs name (g ∷ gs) e d = elim (Bool-cases (same_name g.name p.name)) [
      | inl q ↦ rw q d
      | inr q ↦ rw q (d.0, add_process-differs name gs e d.1)
    ]

    add_process-IsDistinct :
        (gs : List (ProcessGroup F)) → IsDistinct gs → IsDistinct (add_process gs p)
    unfolding add_process join
    add_process-IsDistinct [] d = (tt, tt)
    add_process-IsDistinct (g ∷ gs) d = elim (Bool-cases (same_name g.name p.name)) [
      | inl q ↦ rw q d
      | inr q ↦ rw q (add_process-differs g.name gs q d.0, add_process-IsDistinct gs d.1)
    ]

    -- A name that had a group has one still, and the name of the process has one.
    add_process-names :
        (name : String) (gs : List (ProcessGroup F))
        → Any (λ g. same_name g.name name ≡ true) gs
        → Any (λ g. same_name g.name name ≡ true) (add_process gs p)
    unfolding add_process join
    add_process-names name [] m = elim m [ ]
    add_process-names name (g ∷ gs) m = elim (Bool-cases (same_name g.name p.name)) [
      | inl q ↦ rw q m
      | inr q ↦ rw q (elim m [ inl h ↦ inl h | inr h ↦ inr (add_process-names name gs h) ])
    ]

    add_process-own_name :
        (gs : List (ProcessGroup F)) → Any (λ g. same_name g.name p.name ≡ true) (add_process gs p)
    unfolding add_process join new_group
    add_process-own_name [] = inl (same_name_refl p.name)
    add_process-own_name (g ∷ gs) = elim (Bool-cases (same_name g.name p.name)) [
      | inl q ↦ rw q (inl q)
      | inr q ↦ rw q (inr (add_process-own_name gs))
    ]

    -- Where no group has the name, no process before had it.
    fresh_name :
        (gs : List (ProcessGroup F)) (qs : List (ProcessReading F))
        → All (λ q. Any (λ g. same_name g.name q.name ≡ true) gs) qs
        → Others gs
        → members p.name qs ≡ []
    unfolding Others
    fresh_name gs qs c o = filter-eq-nil _ qs (All_map _ _ differs qs c)
      where
        differs :
            (q : ProcessReading F)
            → Any (λ g. same_name g.name q.name ≡ true) gs
            → same_name p.name q.name ≡ false
        differs q m = elim (Bool-cases (same_name p.name q.name)) [
          | inl h ↦ absurd (
              Any_elim _ (λ g k. false≢true (sym k.0 ∙ same_name_trans _ _ _ k.1 h)) gs
                (All_Any _ _ gs o m))
          | inr h ↦ h
        ]

    add_process-IsPartition :
        p.working_set_bytes < 2 ^ 64
        → (gs : List (ProcessGroup F)) → IsPartition ps gs
        → IsPartition (ps ++ p ∷ []) (add_process gs p)
    add_process-IsPartition fits gs i = record {
      groups = add_process-groups fits gs i.distinct i.groups (fresh_name gs ps i.complete);
      distinct = add_process-IsDistinct gs i.distinct;
      complete =
          All-append _ ps (p ∷ [])
            (All_map _ _ (λ q m. add_process-names q.name gs m) ps i.complete)
            (add_process-own_name gs, tt);
    }

  foldl-IsPartition :
      (ps qs : List (ProcessReading F)) (gs : List (ProcessGroup F))
      → All (λ p. p.working_set_bytes < 2 ^ 64) qs
      → IsPartition ps gs
      → IsPartition (ps ++ qs) (foldl add_process gs qs)
  foldl-IsPartition ps [] gs fits i = subst (λ l. IsPartition l gs) (sym (append-nil ps)) i
  foldl-IsPartition ps (q ∷ qs) gs fits i =
      subst (λ l. IsPartition l (foldl add_process (add_process gs q) qs))
        (append_assoc ps (q ∷ []) qs)
        (foldl-IsPartition (ps ++ q ∷ []) qs (add_process gs q) fits.1
          (add_process-IsPartition ps q fits.0 gs i))

  -- Where every working set has 64 bits, grouping is a partition: every process has a group of its
  -- name, no two groups share a name, each group counts its processes and sums their memory up to
  -- the greatest `u64`, and its representative is one of them.
  pub group_by_name-IsPartition :
      (ps : List (ProcessReading F))
      → All (λ p. p.working_set_bytes < 2 ^ 64) ps
      → IsPartition ps (group_by_name ps)
  unfolding group_by_name
  group_by_name-IsPartition ps fits =
      foldl-IsPartition [] ps [] fits (record { groups = tt; distinct = tt; complete = tt })
