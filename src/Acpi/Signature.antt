-- ===== src/Acpi/Signature.antt =====
-- Tables by their signatures: what is put into the hash table is what is found there.
use catch_os.Base.{
  ℕ, suc, ◌+◌, ◌^◌, ◌<◌, ◌≤◌, ◌≡◌, refl, ap, ◌∙◌, arith, some, none, List, [], ◌∷◌, length, true,
}
use catch_os.HashTable.Pairs.{Pairs}
use catch_os.HashTable.Refine.{IsTable, Fresh, view, hashtable_get-view}
use catch_os.HashTable.Keyed.{keep_first}
use catch_os.HashTable.Insert.{hashtable_insert-view}
use catch_os.Base.Words.{pointer_bytes, word_of-pointer_bytes}
use catch_os.Acpi.{
  Acpi, mem_of, sdt_checksum_ok, until_zero, signature, insert_sdt, acpi_get_sdt_from_sig,
}

until_zero-short : (bs : List ℕ) → length (until_zero bs) ≤ length bs
until_zero-short [] = omega arith
until_zero-short (b ∷ bs) = let r = until_zero-short bs in ground arith

-- A table of the firmware below 2 ^ 32 with a correct checksum, whose signature is not in the hash
-- table yet, is found by its signature once it has been put there, when the allocator next gives
-- two addresses that the hash table does not use and the fuel exceeds the length of every chain by
-- more than one.
pub insert_sdt-found :
    (f sdt : ℕ) (s : Acpi) (pairs : ℕ → Pairs) (p d : ℕ) (ps : List ℕ)
    → IsTable s.nodes s.sdts pairs
    → s.nodes.supply ≡ p ∷ d ∷ ps
    → Fresh p d pairs
    → ((i : ℕ) → suc (length (pairs i)) < f)
    → sdt < 2 ^ 32
    → sdt_checksum_ok (mem_of s) sdt ≡ true
    → view s.sdts pairs (signature (mem_of s) sdt) ≡ none
    → (t : Acpi) × (insert_sdt f sdt s ≡ some t)
      × (acpi_get_sdt_from_sig f (signature (mem_of s) sdt) t ≡ some (sdt, t))
unfolding insert_sdt acpi_get_sdt_from_sig
insert_sdt-found f sdt s pairs p d ps table supplied fresh enough lt correct new =
    let key = signature (mem_of s) sdt in
    let short =
      until_zero-short
        (mem_of s sdt ∷ mem_of s (sdt + 1) ∷ mem_of s (sdt + 2) ∷ mem_of s (sdt + 3) ∷ []) in
    let ins =
      hashtable_insert-view f s.nodes s.sdts pairs p d ps key (pointer_bytes sdt) table supplied
        fresh (omega (arith, short)) (omega (arith, enough (s.sdts.hash key s.sdts.size))) in
    let i = ins.table.hash key ins.table.size in
    let found =
      hashtable_get-view f ins.heap ins.table ins.after key 4 ins.inv
        (omega (arith, ins.longer i, enough i)) in
    let seen : view ins.table ins.after key ≡ some (pointer_bytes sdt) =
      ins.here ∙ ap (λ o. some (keep_first o (pointer_bytes sdt))) new in
    (
      record s { sdts = ins.table; nodes = ins.heap },
      rw (insert_sdt, correct, ins.runs) refl,
      rw (acpi_get_sdt_from_sig, found, seen) (rw (word_of-pointer_bytes sdt lt) refl),
    )
