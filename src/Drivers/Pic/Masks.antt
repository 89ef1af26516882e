-- ===== src/Drivers/Pic/Masks.antt =====
-- The interrupt lines that the mask registers let through.
use catch_os.Base.{
  ℕ, ==_iff, ◌-◌, ◌<◌, ◌≡◌, refl, ◌∙◌, arith, List, [], ◌∷◌, ltb, ◌==◌, ◌||◌, Bool, false,
  if◌then◌else◌,
}
use catch_os.Base.Bits.{every_below, every_below-at, bit_at, bit_at-clear}
use catch_os.Drivers.Pic.{Pic, pic_init, pic_enable_irq}

-- Whether line `i` is masked: 1 or 0.
abbrev pub masked : Pic → ℕ → ℕ
masked p i = if ltb i 8 then bit_at p.pic1 i else bit_at p.pic2 (i - 8)

abbrev IsPic : Pic → Type 0
IsPic p = (p.pic1 < 256) × (p.pic2 < 256)

abbrev pub contains : ℕ → List ℕ → Bool
contains i [] = false
contains i (x ∷ xs) = (i == x) || contains i xs

-- The lines enabled one after another, the last of the list first.
abbrev pub enable_all : List ℕ → Pic → Pic
enable_all [] p = p
enable_all (x ∷ xs) p = pic_enable_irq x (enable_all xs p)

pic_enable_irq-IsPic : (irq : ℕ) (p : Pic) → IsPic p → IsPic (pic_enable_irq irq p)
unfolding pic_enable_irq
pic_enable_irq-IsPic irq p h = ground (arith, h.0, h.1)

enable_all-IsPic : (xs : List ℕ) (p : Pic) → IsPic p → IsPic (enable_all xs p)
enable_all-IsPic [] p h = h
enable_all-IsPic (x ∷ xs) p h = pic_enable_irq-IsPic x (enable_all xs p) (enable_all-IsPic xs p h)

pic_enable_irq-masked :
    (irq : ℕ) (p : Pic) (i : ℕ)
    → IsPic p
    → i < 16
    → masked (pic_enable_irq irq p) i ≡ (if i == irq then 0 else masked p i)
unfolding pic_enable_irq
pic_enable_irq-masked irq p i h hi =
    ground (arith, bit_at-clear p.pic1 irq i, bit_at-clear p.pic2 (irq - 8) (i - 8), h.0, h.1)

pic_init-masked : (p : Pic) (i : ℕ) → i < 16 → masked (pic_init p) i ≡ 1
unfolding pic_init
pic_init-masked p i hi =
    (==_iff _ _).0
      (every_below-at 16 (λ i. masked (pic_init p) i == 1) i (unfold every_below in refl) hi)

-- After `pic_init` and calls of `pic_enable_irq`, exactly the enabled ones of the sixteen lines
-- are unmasked.
pub enable_all-masked :
    (xs : List ℕ) (p : Pic) (i : ℕ)
    → i < 16
    → masked (enable_all xs (pic_init p)) i ≡ (if contains i xs then 0 else 1)
enable_all-masked [] p i hi = pic_init-masked p i hi
enable_all-masked (x ∷ xs) p i hi =
    let ready : IsPic (pic_init p) = unfold pic_init in (omega arith, omega arith) in
    pic_enable_irq-masked x (enable_all xs (pic_init p)) i (enable_all-IsPic xs _ ready) hi
    ∙ ground (arith, enable_all-masked xs p i hi)
