-- ===== src/Drivers/Keyboard/Shift.antt =====
-- The shift keys: what the handler makes of a sequence of scan codes.
use catch_os.Base.{
  ℕ, zero, suc, ◌+◌, ◌%◌, ◌<◌, ◌≡◌, refl, sym, ◌∙◌, arith, List, [], ◌∷◌, Bool, Bool-cases, inl,
  inr, true, false, not, ◌==◌, ◌||◌, if◌then◌else◌, bit_xor,
}
use catch_os.Base.Bits.{every_below, every_below-at}
use catch_os.Drivers.Keyboard.{
  Keyboard, isr_keyboard, scan_code_to_ascii, sc_table_noshift, sc_table_shift,
}

-- A press or a release of one of the two shift keys.
abbrev pub is_shift_code : ℕ → Bool
is_shift_code code = code == 42 || code == 54 || code == 170 || code == 182

-- The two characters that stand for a shift key.
abbrev is_shift_ascii : ℕ → Bool
is_shift_ascii ascii = ascii == 14 || ascii == 15

abbrev same : Bool → Bool → Bool
same a b = if a then b else not b

same_lem : (a b : Bool) → same a b ≡ true → a ≡ b
same_lem true b h = sym h
same_lem false true h = absurd (ground arith)
same_lem false false h = refl

abbrev shift_test : ℕ → ℕ → Bool
shift_test shift code = same (is_shift_ascii (scan_code_to_ascii code shift)) (is_shift_code code)

shift_table : every_below 2 (λ shift. every_below 256 (shift_test shift)) ≡ true
unfolding every_below scan_code_to_ascii sc_table_noshift sc_table_shift
shift_table = refl

-- Whatever the shift state, exactly the codes of the shift keys give the characters of them.
shift_codes :
    (code shift : ℕ)
    → code < 256
    → shift < 2
    → is_shift_ascii (scan_code_to_ascii code shift) ≡ is_shift_code code
shift_codes code shift hc hs = same_lem _ _ (
    every_below-at 256 (shift_test shift) code
      (every_below-at 2 (λ shift. every_below 256 (shift_test shift)) shift shift_table hs) hc)

-- The handler on a sequence of codes, the first of the list first.
abbrev pub run_codes : List ℕ → Keyboard → Keyboard
run_codes [] k = k
run_codes (code ∷ codes) k = run_codes codes (isr_keyboard code k)

abbrev pub shift_count : List ℕ → ℕ
shift_count [] = 0
shift_count (code ∷ codes) =
    if is_shift_code code then suc (shift_count codes) else shift_count codes

abbrev pub AllBytes : List ℕ → Type 0
AllBytes [] = Unit
AllBytes (code ∷ codes) = (code < 256) × AllBytes codes

flip : (s : ℕ) → s < 2 → bit_xor s 1 ≡ (s + 1) % 2
flip zero h = refl
flip (suc zero) h = refl
flip (suc (suc s)) h = absurd (omega arith)

isr_keyboard-shift :
    (code : ℕ) (k : Keyboard)
    → code < 256
    → k.is_shift_key_depressed < 2
    → (isr_keyboard code k).is_shift_key_depressed ≡ (
        if is_shift_code code then (k.is_shift_key_depressed + 1) % 2 else k.is_shift_key_depressed)
unfolding isr_keyboard
isr_keyboard-shift code k hc hs =
    ground
      (arith, shift_codes code k.is_shift_key_depressed hc hs, flip k.is_shift_key_depressed hs)

-- From a shift state of 0 or 1, after any sequence of bytes from the keyboard the state is the
-- parity of the presses and releases of the shift keys so far: a repeated press counts like a
-- release.
pub run_codes-shift_parity :
    (codes : List ℕ) (k : Keyboard)
    → AllBytes codes
    → k.is_shift_key_depressed < 2
    → (run_codes codes k).is_shift_key_depressed
      ≡ (k.is_shift_key_depressed + shift_count codes) % 2
run_codes-shift_parity [] k hc hs = omega arith
run_codes-shift_parity (code ∷ codes) k hc hs =
    let e = isr_keyboard-shift code k hc.0 hs in
    let shift = k.is_shift_key_depressed in
    let after = (isr_keyboard code k).is_shift_key_depressed in
    elim (Bool-cases (is_shift_code code)) [
      | inl y ↦
          (let e2 : after ≡ (shift + 1) % 2 = e ∙ rw y refl in
            let ih = run_codes-shift_parity codes (isr_keyboard code k) hc.1 (omega arith) in
            ih ∙ rw y (omega arith))
      | inr n ↦
          (let e2 : after ≡ shift = e ∙ rw n refl in
            let ih = run_codes-shift_parity codes (isr_keyboard code k) hc.1 (omega arith) in
            ih ∙ rw n (omega arith))
    ]
