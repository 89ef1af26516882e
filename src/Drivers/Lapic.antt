-- ===== src/Drivers/Lapic.antt =====
-- kernel/drivers/lapic.c: the local APIC, by the words written to its registers. Words read from
-- registers come from outside; the loops that poll one end with `none` when their readings do.
use catch_os.Base.{
  ℕ, ◌+◌, ◌*◌, ◌/◌, ◌%◌, ◌^◌, bit_and, bit_or, Option, none, some, List, [], ◌∷◌, leb, ◌==◌,
  if◌then◌else◌, Bool, ℤ, pos, negsuc,
}
use catch_os.Interrupt.{Interrupts, interrupt_register, int_apic_spurious}

-- The offsets of the registers that are used, and the bits of the command register.
abbrev pub lapic_tpr : ℕ
lapic_tpr = 0x80

abbrev pub lapic_eoi : ℕ
lapic_eoi = 0xb0

abbrev pub lapic_svr : ℕ
lapic_svr = 0xf0

abbrev pub icr_init : ℕ
icr_init = 0x500

abbrev pub icr_startup : ℕ
icr_startup = 0x600

abbrev pub icr_send_pending : ℕ
icr_send_pending = 0x1000

abbrev pub icr_assert : ℕ
icr_assert = 0x4000

abbrev pub spurious_ivt : ℕ
spurious_ivt = 0xf

-- The number of the CPU in a reading of the register at 0x20.
unfoldable pub lapic_get_id : ℕ → ℕ
lapic_get_id lapic_id_reg = bit_and (lapic_id_reg / 2 ^ 24) 0xf

unfoldable pub lapic_get_ver : ℕ → ℕ
lapic_get_ver lapic_ver_reg = if leb 0x14 (bit_and lapic_ver_reg 0xff) then 1 else 0

-- `while (*lapic_icr_lo & ICR_SEND_PENDING);`: the readings left.
unfoldable pub wait_sent : List ℕ → Option (List ℕ)
wait_sent [] = none
wait_sent (r ∷ rs) = if bit_and r icr_send_pending == 0 then some rs else wait_sent rs

-- The two halves of the command; the other flags of it are 0.
abbrev pub send_command : ℕ → ℕ → ℕ → List (ℕ × ℕ) → List (ℕ × ℕ)
send_command lapic_base lapic_id low out =
    (lapic_base + 0x300, low) ∷ (lapic_base + 0x310, lapic_id * 2 ^ 24 % 2 ^ 32) ∷ out

unfoldable pub lapic_send_startup :
    ℕ → ℕ → ℕ → List ℕ → List (ℕ × ℕ) → Option (List ℕ × List (ℕ × ℕ))
lapic_send_startup lapic_base lapic_id vector readings out =
    let low = bit_or (bit_or (vector / 4096) icr_startup) icr_assert in
    elim (wait_sent readings) [
      | none ↦ none
      | some rest ↦ some (rest, send_command lapic_base lapic_id low out)
    ]

unfoldable pub lapic_send_init : ℕ → ℕ → List ℕ → List (ℕ × ℕ) → Option (List ℕ × List (ℕ × ℕ))
lapic_send_init lapic_base lapic_id readings out = elim (wait_sent readings) [
  | none ↦ none
  | some rest ↦ some (rest, send_command lapic_base lapic_id (bit_or icr_init icr_assert) out)
]

unfoldable pub lapic_ack : ℕ → List (ℕ × ℕ) → List (ℕ × ℕ)
lapic_ack lapic_base out = (lapic_base + lapic_eoi, 0) ∷ out

pub record Lapic : Type 0 where
  pub lapic_base : ℕ
  pub interrupts : Interrupts
  pub out : List (ℕ × ℕ)

-- `isr` is the address of the handler of spurious interrupts, which only logs, and `svr` a reading
-- of the register.
unfoldable pub lapic_init : Bool → ℕ → ℕ → ℕ → Lapic → ℤ × Lapic
lapic_init has_apic isr svr lapic_base s =
    if has_apic
    then (
      pos 0,
      record {
        lapic_base = lapic_base;
        interrupts = interrupt_register int_apic_spurious isr s.interrupts;
        out =
            (lapic_base + lapic_tpr, 0)
            ∷ (lapic_base + lapic_eoi, 0)
            ∷ (lapic_base + lapic_svr, bit_or svr (bit_or 0x100 spurious_ivt))
            ∷ s.out;
      },
    )
    else (negsuc 0, s)
