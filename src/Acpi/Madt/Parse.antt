-- ===== src/Acpi/Madt/Parse.antt =====
-- What the parser of the MADT records for a table that is laid out in memory.
use catch_os.Base.{
  ℕ, zero, suc, ◌+◌, ◌%◌, ◌^◌, ◌<◌, ◌≤◌, ◌≡◌, ◌≢◌, refl, sym, ap, ◌∙◌, arith, Mem, null, ltb, leb,
  ◌==◌, Bool-cases, inl, inr, true, false, List, [], ◌∷◌, ◌++◌, length,
}
use catch_os.Base.Lists.{snoc-append, append-nil}
use catch_os.Base.Words.{load32}
use catch_os.Acpi.Madt.{
  MadtInfo, parsed, parse_entry, with_processor, with_io_apic, with_override, parse_loop,
  madt_parse,
}
use catch_os.Acpi.Madt.Layout.{
  Entry, local_apic, io_apic, source_override, other, Stands, Entries, processors, io_apics,
  overridden, Legacy, pairs_in, triples_in, pairs-next, triples-next,
}

-- What the parser has added to the information for the entries `es`.
pub record Recorded (before after : MadtInfo) (es : List Entry) : Type 0 where
  pub cpus :
      pairs_in after.processor_ids after.local_apic_ids after.processor_count
      ≡ pairs_in before.processor_ids before.local_apic_ids before.processor_count ++ processors es
  pub apics :
      triples_in after.io_apic_ids after.io_apic_addrs after.io_apic_gsi_base after.io_apic_count
      ≡ triples_in before.io_apic_ids before.io_apic_addrs before.io_apic_gsi_base
          before.io_apic_count
        ++ io_apics es
  pub lines : (irq : ℕ) → after.irq_override irq ≡ overridden es irq (before.irq_override irq)
  pub address : after.local_apic_addr ≡ before.local_apic_addr

-- There is room for the entries `es` in the arrays.
pub record Room (info : MadtInfo) (es : List Entry) : Type 0 where
  pub cpus : info.processor_count + length (processors es) ≤ 128
  pub apics : info.io_apic_count + length (io_apics es) ≤ 32
  pub lines : Legacy es

-- The parser's record of one entry, and the room it leaves.
parse_entry-Recorded :
    (mem : Mem) (p : ℕ) (info : MadtInfo) (e : Entry) (es : List Entry)
    → Stands mem p e
    → Room info (e ∷ es)
    → (next : MadtInfo) × (parse_entry mem p info ≡ parsed next)
      × Room next es
      × ((after : MadtInfo) → Recorded next after es → Recorded info after (e ∷ es))
parse_entry-Recorded mem p info (local_apic id apic) es (t, hi, ha) room =
    let fits : ltb info.processor_count 128 ≡ true = ground (arith, room.cpus) in
    let small : (info.processor_count + 1) % 2 ^ 8 ≡ suc info.processor_count =
      omega (arith, room.cpus) in
    (
      with_processor id apic info,
      rw (t, fits, hi, ha) refl,
      record { cpus = rw small (omega (arith, room.cpus)); apics = room.apics; lines = room.lines },
      λ after r. record {
        cpus =
            r.cpus
            ∙ rw small (
                ap (λ l. l ++ processors es)
                  (pairs-next info.processor_ids info.local_apic_ids info.processor_count id apic)
                ∙ snoc-append _ (id, apic) (processors es));
        apics = r.apics;
        lines = r.lines;
        address = r.address;
      },
    )
parse_entry-Recorded mem p info (io_apic id addr base) es (t, hi, ha, hb) room =
    let fits : ltb info.io_apic_count 32 ≡ true = ground (arith, room.apics) in
    let small : (info.io_apic_count + 1) % 2 ^ 16 ≡ suc info.io_apic_count =
      omega (arith, room.apics) in
    (
      with_io_apic id addr base info,
      rw (t, fits, hi, ha, hb) refl,
      record { cpus = room.cpus; apics = rw small (omega (arith, room.apics)); lines = room.lines },
      λ after r. record {
        cpus = r.cpus;
        apics =
            r.apics
            ∙ rw small (
                ap (λ l. l ++ io_apics es)
                  (triples-next info.io_apic_ids info.io_apic_addrs info.io_apic_gsi_base
                    info.io_apic_count id addr base)
                ∙ snoc-append _ (id, addr, base) (io_apics es));
        lines = r.lines;
        address = r.address;
      },
    )
parse_entry-Recorded mem p info (source_override src mapped) es (t, hs, hm) room =
    let fits : ltb src 24 ≡ true = ground (arith, room.lines) in
    elim (Bool-cases (src == mapped)) [
      | inl same ↦ (
        info,
        rw (t, hs, hm, same) refl,
        record { cpus = room.cpus; apics = room.apics; lines = room.lines.1 },
        λ after r. record {
          cpus = r.cpus;
          apics = r.apics;
          lines = λ irq. rw same (r.lines irq);
          address = r.address;
        },
      )
      | inr differ ↦ (
        with_override src mapped info,
        rw (t, hs, hm, differ, fits) refl,
        record { cpus = room.cpus; apics = room.apics; lines = room.lines.1 },
        λ after r. record {
          cpus = r.cpus;
          apics = r.apics;
          lines = λ irq. rw differ (r.lines irq);
          address = r.address;
        },
      )
    ]
parse_entry-Recorded mem p info (other type) es (t, lt) room =
    let n0 : (type == 0) ≡ false = ground arith in
    let n1 : (type == 1) ≡ false = ground arith in
    let n2 : (type == 2) ≡ false = ground arith in
    (
      info,
      rw (t, n0, n1, n2) refl,
      record { cpus = room.cpus; apics = room.apics; lines = room.lines },
      λ after r. record { cpus = r.cpus; apics = r.apics; lines = r.lines; address = r.address },
    )

Entries-count :
    (mem : Mem) (p end : ℕ) (es : List Entry) → Entries mem p end es → p + length es ≤ end
Entries-count mem p end [] h = omega (arith, h)
Entries-count mem p end (e ∷ es) (st, len, le, rest) =
    let r = Entries-count mem (p + mem (p + 1)) end es rest in omega (arith, r, len)

parse_loop-Recorded :
    (f : ℕ) (mem : Mem) (p end : ℕ) (info : MadtInfo) (es : List Entry)
    → Entries mem p end es
    → Room info es
    → length es < f
    → end + mem (end + 1) < 2 ^ 32
    → (after : MadtInfo) × (parse_loop f mem p end info ≡ parsed after) × Recorded info after es
unfolding parse_loop
parse_loop-Recorded zero mem p end info es h room lt top = absurd (omega arith)
parse_loop-Recorded (suc f) mem p end info [] h room lt top = (
  info,
  (let at : p ≡ end = h in
      let back : (end + mem (end + 1)) % 2 ^ 32 ≡ end + mem (end + 1) = omega arith in
      rw (parse_loop, at, back) (ground arith)),
  record {
    cpus = sym (append-nil _);
    apics = sym (append-nil _);
    lines = λ irq. refl;
    address = refl;
  },
)
parse_loop-Recorded (suc f) mem p end info (e ∷ es) (st, len, le, rest) room lt top =
    let next_entry : (p + mem (p + 1)) % 2 ^ 32 ≡ p + mem (p + 1) = omega arith in
    let within : leb (p + mem (p + 1)) end ≡ true = ground arith in
    let longer : (mem (p + 1) == 0) ≡ false = ground arith in
    let (next, one, room', grow) = parse_entry-Recorded mem p info e es st room in
    let (after, runs, r) =
      parse_loop-Recorded f mem (p + mem (p + 1)) end next es rest room' (omega arith) top in
    (after, rw (parse_loop, next_entry, within, longer, one) runs, grow after r)

-- For a table whose entries fill it, with at most 128 processors and 32 I/O APICs in all and
-- overrides of the lines below 24 only, behind whose end the addition of the length that is read
-- there does not wrap around, `madt_parse` returns. It has appended the ids of the processors and
-- of their local APICs in the order of the table, and likewise the I/O APICs; each line is what
-- the last override that moves it says, and the address of the local APIC is the one in the table.
pub madt_parse-Recorded :
    (mem : Mem) (madt : ℕ) (info : MadtInfo) (es : List Entry)
    → madt ≢ null
    → Entries mem (madt + 44) (madt + load32 mem (madt + 4)) es
    → Room info es
    → let end = madt + load32 mem (madt + 4) in
      end + mem (end + 1) < 2 ^ 32
      → (after : MadtInfo) × (madt_parse mem madt info ≡ parsed after)
        × Recorded (record info { local_apic_addr = load32 mem (madt + 36) }) after es
unfolding madt_parse
madt_parse-Recorded mem madt info es ne h room top =
    let some_table : (madt == null) ≡ false = ground arith in
    let count = Entries-count mem (madt + 44) (madt + load32 mem (madt + 4)) es h in
    let below : (madt + load32 mem (madt + 4)) % 2 ^ 32 ≡ madt + load32 mem (madt + 4) =
      omega arith in
    rw (madt_parse, some_table, below)
      (parse_loop-Recorded (load32 mem (madt + 4) + 1) mem (madt + 44)
        (madt + load32 mem (madt + 4)) _ es h
        (record { cpus = room.cpus; apics = room.apics; lines = room.lines }) (omega arith) top)
