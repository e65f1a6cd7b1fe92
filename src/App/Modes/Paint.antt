-- ===== src/App/Modes/Paint.antt =====
-- The painted pixels of an icon.
use loadbear.Prelude.{ℕ, ◌*◌, ◌/◌, ◌^◌, ◌≤◌, ◌<◌, ◌≡◌, refl, ap, List, [], ◌∷◌, arith, All}
use loadbear.Core.Tier.{Tier}
use loadbear.App.Modes.{tier_rgb, painted}

-- The fourth byte of each pixel.
abbrev pub alphas : List ℕ → List ℕ
alphas (x ∷ y ∷ z ∷ alpha ∷ rest) = alpha ∷ alphas rest
alphas _ = []

abbrev pub IsByte : ℕ → Type 0
IsByte n = n < 256

-- A component that is painted is a byte, no more than it was and no more than the colour's; the product has
-- 16 bits.
abbrev IsPainted : ℕ → ℕ → Type 0
IsPainted x c = (x * c < 2 ^ 16) × (x * c / 255 ≤ x) × (x * c / 255 ≤ c)

paint : (x c : ℕ) → IsByte x → IsByte c → IsPainted x c
paint x c h k = grind arith

-- Each byte is at most the one before in its place.
abbrev pub NoneBrighter : List ℕ → List ℕ → Type 0
NoneBrighter [] [] = Unit {0}
NoneBrighter (x ∷ xs) (y ∷ ys) = (x ≤ y) × NoneBrighter xs ys
NoneBrighter xs ys = ⊥

same_brightness : (xs : List ℕ) → NoneBrighter xs xs
same_brightness [] = tt
same_brightness (x ∷ xs) = (omega arith, same_brightness xs)

-- The white silhouette with these alphas, and one of a colour.
abbrev pub silhouette : ℕ × ℕ × ℕ → List ℕ → List ℕ
silhouette (r, g, b) [] = []
silhouette (r, g, b) (alpha ∷ rest) = r ∷ g ∷ b ∷ alpha ∷ silhouette (r, g, b) rest

painted-silhouette :
    (r g b : ℕ) (rest : List ℕ)
    → painted (r, g, b) (silhouette (255, 255, 255) rest) ≡ silhouette (r, g, b) rest
unfolding painted
painted-silhouette r g b [] = refl
painted-silhouette r g b (alpha ∷ rest) =
    let er : 255 * r / 255 ≡ r = omega arith in
    let eg : 255 * g / 255 ≡ g = omega arith in
    let eb : 255 * b / 255 ≡ b = omega arith in rw (er, eg, eb, painted-silhouette r g b rest) refl

painted-NoneBrighter :
    (r g b : ℕ) (bytes : List ℕ)
    → IsByte r × IsByte g × IsByte b
    → All IsByte bytes
    → NoneBrighter (painted (r, g, b) bytes) bytes
      × (alphas (painted (r, g, b) bytes) ≡ alphas bytes)
unfolding painted
painted-NoneBrighter r g b (x ∷ y ∷ z ∷ alpha ∷ rest) c h =
    let (le, same) = painted-NoneBrighter r g b rest c h.1.1.1.1 in
    let px = paint x r h.0 c.0 in
    let py = paint y g h.1.0 c.1 in
    let pz = paint z b h.1.1.0 c.2 in
    ((px.1, (py.1, (pz.1, (omega arith, le)))), ap (◌∷◌ alpha) same)
painted-NoneBrighter r g b [] c h = (tt, refl)
painted-NoneBrighter r g b (x ∷ []) c h = (same_brightness (x ∷ []), refl)
painted-NoneBrighter r g b (x ∷ y ∷ []) c h = (same_brightness (x ∷ y ∷ []), refl)
painted-NoneBrighter r g b (x ∷ y ∷ z ∷ []) c h = (same_brightness (x ∷ y ∷ z ∷ []), refl)

tier_rgb-AreBytes : (tier : Tier) → let (r, g, b) = tier_rgb tier in IsByte r × IsByte g × IsByte b
tier_rgb-AreBytes Tier.easy = omega arith
tier_rgb-AreBytes Tier.braced = omega arith
tier_rgb-AreBytes Tier.strained = omega arith

-- For every tier: a white silhouette is painted in the colour of the tier and keeps its alphas; and whatever
-- the bytes of an icon, their number and the alphas are kept, and no byte gets larger, so each stays a byte.
pub painted_tier :
    (tier : Tier) (rest bytes : List ℕ)
    → All IsByte bytes
    → (painted (tier_rgb tier) (silhouette (255, 255, 255) rest) ≡ silhouette (tier_rgb tier) rest)
      × NoneBrighter (painted (tier_rgb tier) bytes) bytes
      × (alphas (painted (tier_rgb tier) bytes) ≡ alphas bytes)
painted_tier tier rest bytes h =
    let (r, g, b) = tier_rgb tier in
    let (darker, same) = painted-NoneBrighter r g b bytes (tier_rgb-AreBytes tier) h in
    (painted-silhouette r g b rest, darker, same)
