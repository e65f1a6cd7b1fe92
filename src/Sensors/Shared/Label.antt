-- ===== src/Sensors/Shared/Label.antt =====
-- Labels and zones, as they are written and read.
use loadbear.Prelude.{
  ℕ, zero, suc, min, ◌<◌, ◌≤◌, ◌≡◌, refl, ap, inl, inr, false, String, List, [], ◌∷◌, arith, All,
  Bool-cases, length, ◌==◌,
}
use loadbear.Float.{Float}
use loadbear.Sensors.Shared.{
  SharedTemperature, max_zones, label_bytes, fill, set_label, present, zone_list,
}

abbrev pub take : {A : Type 0} → ℕ → List A → List A
take zero xs = []
take (suc n) [] = []
take (suc n) (x ∷ xs) = x ∷ take n xs

fill-round : (n : ℕ) (bs : List ℕ) → All (λ b. 0 < b) bs → label_bytes (fill n bs) ≡ take n bs
unfolding label_bytes fill
fill-round zero bs h = refl
fill-round (suc n) [] h = refl
fill-round (suc n) (b ∷ bs) h =
    let e : b == 0 ≡ false = ground arith in rw e (ap (◌∷◌ b) (fill-round n bs h.1))

length-fill : (n : ℕ) (bs : List ℕ) → length (fill n bs) ≡ suc n
unfolding fill
length-fill zero bs = refl
length-fill (suc n) [] = ap suc (length-fill n [])
length-fill (suc n) (b ∷ bs) = ap suc (length-fill n bs)

-- A label without a 0 byte is read back up to its seventh byte, and the slot has 8 bytes: a longer label
-- does not spill.
pub label_bytes-set_label :
    (bs : List ℕ)
    → All (λ b. 0 < b) bs
    → (label_bytes (set_label bs) ≡ take 7 bs) × (length (set_label bs) ≡ 8)
unfolding set_label
label_bytes-set_label bs h = (fill-round 7 bs h, length-fill 7 bs)

module _ {F : Type 0} ⦃f : Float F⦄ (decode : List ℕ → String) where
  present-bounded :
      (n : ℕ) (zs : List F) (ls : List (List ℕ))
      → (length (present decode n zs ls) ≤ n)
        × All (λ z. f.is_nan z.1 ≡ false) (present decode n zs ls)
  unfolding present
  present-bounded zero zs ls = (omega arith, tt)
  present-bounded (suc n) [] ls = (omega arith, tt)
  present-bounded (suc n) (z ∷ zs) [] = (omega arith, tt)
  present-bounded (suc n) (z ∷ zs) (l ∷ ls) =
      let (len, nums) = present-bounded n zs ls in
      elim (Bool-cases (f.is_nan z)) [
        | inl e ↦ rw e (omega arith, nums)
        | inr e ↦ rw e (omega arith, (e, nums))
      ]

  -- Whatever the count in the record says, at most 16 zones are listed, and none of them is NaN.
  pub zone_list-bounded :
      (t : SharedTemperature F)
      → (length (zone_list decode t) ≤ max_zones)
        × All (λ z. f.is_nan z.1 ≡ false) (zone_list decode t)
  unfolding zone_list
  zone_list-bounded t =
      let (len, nums) = present-bounded (min t.zone_count max_zones) t.zones t.zone_labels in
      (omega arith, nums)
