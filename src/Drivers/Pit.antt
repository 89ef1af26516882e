-- ===== src/Drivers/Pit.antt =====
-- kernel/drivers/pit.c: the frequency of the interval timer.
use catch_os.Base.{
  mul_le_right, ℕ, true, false, ==_iff, ◌==◌, ◌+◌, ◌*◌, ◌/◌, ◌%◌, ◌^◌, ◌≤◌, ◌<◌, ◌≡◌, refl, sym, ap,
  ◌∙◌, arith, ◌∷◌, ltb, ◌||◌, if◌then◌else◌, bit_and,
}
use catch_os.Base.Bits.{every_below, every_below-at}
use catch_os.Drivers.{Writes, outb}

abbrev pub pit_input_freq : ℕ
pit_input_freq = 1193182

unfoldable pub pit_setfreq : ℕ → Writes → Writes
pit_setfreq hz out =
    if ltb hz 20 || ltb pit_input_freq hz
    then out
    else let divisor = pit_input_freq / hz % 2 ^ 16 in
      let l = bit_and divisor 0xff % 256 in
      let h = bit_and (divisor / 2 ^ 8) 0xff % 256 in outb 0x40 h (outb 0x40 l (outb 0x43 0x36 out))

-- `d & 0xff` of a 16-bit number, by a table over its two bytes.
low_byte_table :
    every_below 256 (λ h. every_below 256 (λ l. bit_and (h * 256 + l) 0xff == l)) ≡ true
unfolding every_below
low_byte_table = refl

pub bit_and-low_byte : (d : ℕ) → d < 65536 → bit_and d 0xff ≡ d % 256
bit_and-low_byte d small =
    let h = d / 256 in
    let l = d % 256 in
    let row =
      every_below-at 256 (λ h. every_below 256 (λ l. bit_and (h * 256 + l) 0xff == l)) h
        low_byte_table (omega arith) in
    let split : h * 256 + l ≡ d = omega arith in
    ap (λ x. bit_and x 0xff) (sym split)
    ∙ (==_iff _ _).0 (every_below-at 256 (λ l. bit_and (h * 256 + l) 0xff == l) l row (omega arith))

-- For 20 to 1193182 Hz, `pit_setfreq` sends the command, then the low and the high byte of a
-- divisor that 16 bits hold: divisor * hz is at most the input frequency, and (divisor + 1) * hz
-- is more.
pit_setfreq-divisor :
    (hz : ℕ) (out : Writes)
    → 20 ≤ hz
    → hz ≤ pit_input_freq
    → (l h : ℕ) × (pit_setfreq hz out ≡ (0x40, h) ∷ (0x40, l) ∷ (0x43, 0x36) ∷ out)
      × (l < 256)
      × (h < 256)
      × ((l + 256 * h) * hz ≤ pit_input_freq)
      × (pit_input_freq < (l + 256 * h + 1) * hz)
unfolding pit_setfreq
pit_setfreq-divisor hz out lo hi =
    let q = pit_input_freq / hz in
    let below : q * hz ≤ pit_input_freq = ground arith in
    let above : pit_input_freq < (q + 1) * hz = ground arith in
    let small : q < 2 ^ 16 = let m = mul_le_right q 20 hz lo in omega arith in
    let fits : q % 65536 ≡ q = omega arith in
    let l0 : q % 256 % 256 % 256 ≡ q % 256 = omega arith in
    let h0 : q / 256 % 256 % 256 % 256 ≡ q / 256 = omega arith in
    let whole : q % 256 + 256 * (q / 256) ≡ q = omega arith in
    let test : (ltb hz 20 || ltb pit_input_freq hz) ≡ false = ground arith in
    (
      q % 256,
      q / 256,
      rw (test, fits, bit_and-low_byte q small, bit_and-low_byte (q / 256) (omega arith))
          (rw (l0, h0) refl),
      omega arith,
      omega arith,
      rw whole below,
      rw whole above,
    )
