-- ===== src/Acpi/Madt/Ends.antt =====
-- The parser of the MADT ends on every memory.
use catch_os.Bitmap.Laws.{IsBytes}
use catch_os.Base.{
  ℕ, zero, suc, ◌+◌, ◌%◌, ◌^◌, ◌<◌, ◌≤◌, ◌≡◌, ◌≢◌, arith, Mem, null, leb, ◌==◌, Bool-cases, inl,
  inr,
}
use catch_os.Base.Words.{load32}
use catch_os.Acpi.Madt.{
  MadtInfo, Parsing, parsed, then_parse, past_array, out_of_fuel, parse_entry, parse_loop,
  madt_parse,
}

parse_entry-ends :
    (mem : Mem) (entry : ℕ) (info : MadtInfo) → parse_entry mem entry info ≢ out_of_fuel
parse_entry-ends mem entry info e = ground arith

then_parse-ends :
    (p : Parsing) (rest : MadtInfo → Parsing)
    → p ≢ out_of_fuel
    → ((info : MadtInfo) → rest info ≢ out_of_fuel)
    → then_parse p rest ≢ out_of_fuel
then_parse-ends (parsed info) rest h k = k info
then_parse-ends past_array rest h k = h
then_parse-ends out_of_fuel rest h k = h

parse_loop-ends :
    (f : ℕ) (mem : Mem) (entry end : ℕ) (info : MadtInfo)
    → end < entry + f
    → 0 < f
    → IsBytes mem
    → end + 2 ^ 8 ≤ 2 ^ 32
    → entry + 2 ^ 8 ≤ 2 ^ 32
    → parse_loop f mem entry end info ≢ out_of_fuel
unfolding parse_loop
parse_loop-ends zero mem entry end info lt some_fuel bytes top small = absurd (omega arith)
parse_loop-ends (suc f) mem entry end info lt some_fuel bytes top small =
    let byte = bytes (entry + 1) in
    let next_entry : (entry + mem (entry + 1)) % 2 ^ 32 ≡ entry + mem (entry + 1) = omega arith in
    elim (Bool-cases (leb ((entry + mem (entry + 1)) % 2 ^ 32) end)) [
      | inr out ↦ rw (parse_loop, out) (λ e. cc)
      | inl within ↦ elim (Bool-cases (mem (entry + 1) == 0)) [
        | inl stop ↦ rw (parse_loop, within, stop) (λ e. cc)
        | inr on ↦
            rw (parse_loop, within, on)
              (then_parse-ends (parse_entry mem entry info) _ (parse_entry-ends mem entry info)
                (λ next.
                  parse_loop-ends f mem ((entry + mem (entry + 1)) % 2 ^ 32) end next
                    (ground (arith, next_entry)) (ground (arith, next_entry)) bytes top
                    (ground (arith, next_entry))))
      ]
    ]

-- For bytes in memory and a table whose first entry and whose end lie 256 bytes below the top of
-- the address space, whatever the table holds: within its fuel the loop of `madt_parse` comes to
-- its end, or to an entry that has no place in the arrays of `struct MADT_info`, where the model
-- stops.
pub madt_parse-ends :
    (mem : Mem) (madt : ℕ) (info : MadtInfo)
    → IsBytes mem
    → madt + load32 mem (madt + 4) + 2 ^ 8 ≤ 2 ^ 32
    → madt + 44 + 2 ^ 8 ≤ 2 ^ 32
    → madt_parse mem madt info ≢ out_of_fuel
unfolding madt_parse
madt_parse-ends mem madt info bytes top small = elim (Bool-cases (madt == null)) [
  | inl e ↦ rw (madt_parse, e) (λ h. cc)
  | inr e ↦
      let below : (madt + load32 mem (madt + 4)) % 2 ^ 32 ≡ madt + load32 mem (madt + 4) =
        omega arith in
      rw (madt_parse, e, below)
        (parse_loop-ends (load32 mem (madt + 4) + 1) mem (madt + 44) (madt + load32 mem (madt + 4))
          _ (omega arith) (omega arith) bytes top small)
]
