-- ===== src/Drivers/Serial.antt =====
-- kernel/drivers/serial.c: the serial line. A byte read from a port comes from outside: the
-- readings of the status port are a list, and the loops that poll it end with `none` when the list
-- does, still waiting.
use catch_os.Base.{
  ℕ, suc, ◌+◌, ◌/◌, ◌^◌, ◌≤◌, ◌<◌, ◌≡◌, refl, arith, List, [], ◌∷◌, ◌==◌, if◌then◌else◌, bit_and,
  Option, none, some, length, ◌%◌, Bool-cases, inl, inr,
}
use catch_os.Drivers.{Writes, outb}

abbrev pub serial_configure_baud_rate : ℕ → ℕ → Writes → Writes
serial_configure_baud_rate base divisor out =
    let out = outb (base + 3) 0x80 out in
    let out = outb base (bit_and (divisor / 2 ^ 8) 0x00ff) out in
    outb base (bit_and divisor 0x00ff) out

abbrev pub serial_configure_line : ℕ → ℕ → Writes → Writes
serial_configure_line base conf out = outb (base + 3) conf out

abbrev pub serial_configure_buffer : ℕ → ℕ → Writes → Writes
serial_configure_buffer base conf out = outb (base + 2) conf out

abbrev pub serial_configure_modem : ℕ → ℕ → Writes → Writes
serial_configure_modem base conf out = outb (base + 4) conf out

abbrev pub serial_defconfig : ℕ → Writes → Writes
serial_defconfig base out =
    let out = serial_configure_baud_rate base 0x01 out in
    let out = serial_configure_line base 0x03 out in
    let out = serial_configure_buffer base 0xc7 out in serial_configure_modem base 0x03 out

-- What the status byte says.
abbrev pub serial_is_transmit_fifo_empty : ℕ → ℕ
serial_is_transmit_fifo_empty reading = bit_and reading 0x20

-- `while (serial_is_transmit_fifo_empty(base) == 0);`: the readings left.
unfoldable pub wait_fifo : List ℕ → Option (List ℕ)
wait_fifo [] = none
wait_fifo (r ∷ rs) =
    let rest = wait_fifo rs in if serial_is_transmit_fifo_empty r == 0 then rest else some rs

-- The rest of `data`, sent byte by byte.
unfoldable pub serial_write : ℕ → List ℕ → List ℕ → Writes → Option (List ℕ × Writes)
serial_write base [] readings out = some (readings, out)
serial_write base (x ∷ xs) readings out = elim (wait_fifo readings) [
  | none ↦ none
  | some rs ↦ serial_write base xs rs (outb base x out)
]

-- How many of the readings find the queue of the device empty.
abbrev pub ready_count : List ℕ → ℕ
ready_count [] = 0
ready_count (r ∷ rs) =
    if serial_is_transmit_fifo_empty r == 0 then ready_count rs else suc (ready_count rs)

-- The bytes as port writes on top of others.
abbrev pub sent : ℕ → List ℕ → Writes → Writes
sent base [] out = out
sent base (x ∷ xs) out = sent base xs ((base, x % 256) ∷ out)

wait_fifo-ready :
    (rs : List ℕ)
    → 0 < ready_count rs
    → (rest : List ℕ) × (wait_fifo rs ≡ some rest) × (suc (ready_count rest) ≡ ready_count rs)
unfolding wait_fifo
wait_fifo-ready [] h = absurd (omega arith)
wait_fifo-ready (r ∷ rs) h = elim (Bool-cases (serial_is_transmit_fifo_empty r == 0)) [
  | inl e ↦ (let (rest, er, n) = wait_fifo-ready rs (ground arith) in (rest, rw e er, rw e n))
  | inr e ↦ (rs, rw e refl, rw e refl)
]

-- `serial_write` returns when the status port is read as ready at least as often as there are
-- bytes; it has then written the bytes to the data port, each once and in their order, and used
-- one ready reading for each.
pub serial_write-sent :
    (base : ℕ) (xs rs : List ℕ) (out : Writes)
    → length xs ≤ ready_count rs
    → (rest : List ℕ) × (serial_write base xs rs out ≡ some (rest, sent base xs out))
      × (ready_count rest + length xs ≡ ready_count rs)
unfolding serial_write
serial_write-sent base [] rs out h = (rs, refl, omega arith)
serial_write-sent base (x ∷ xs) rs out h =
    let (mid, e, n) = wait_fifo-ready rs (omega arith) in
    let (rest, e2, n2) = serial_write-sent base xs mid (outb base x out) (omega arith) in
    (rest, rw (serial_write, e) e2, omega arith)
