-- ===== src/Drivers/Keyboard.antt =====
-- kernel/drivers/keyboard.c: scan codes to characters, and the interrupt of the keyboard.
pub mod Shift
use catch_os.Base.{ℕ, ◌^◌, List, [], ◌∷◌, array, bit_and, bit_xor, ◌==◌, ◌||◌, if◌then◌else◌}

abbrev pub key_lshift : ℕ
key_lshift = 14

abbrev pub key_rshift : ℕ
key_rshift = 15

abbrev pub key_backspace : ℕ
key_backspace = 8

-- Characters stand by their codes; the rest of the 256 entries is 0.
unfoldable pub sc_table_noshift : ℕ → ℕ
sc_table_noshift = array 0 (
    0 ∷ 27 ∷ 49 ∷ 50 ∷ 51 ∷ 52 ∷ 53 ∷ 54 ∷ 55 ∷ 56 ∷ 57 ∷ 48 ∷ 45 ∷ 61 ∷ key_backspace ∷ 9 ∷ 113
    ∷ 119 ∷ 101 ∷ 114 ∷ 116 ∷ 121 ∷ 117 ∷ 105 ∷ 111 ∷ 112 ∷ 91 ∷ 93 ∷ 10 ∷ 17 ∷ 97 ∷ 115 ∷ 100 ∷ 102
    ∷ 103 ∷ 104 ∷ 106 ∷ 107 ∷ 108 ∷ 59 ∷ 39 ∷ 96 ∷ key_lshift ∷ 92 ∷ 122 ∷ 120 ∷ 99 ∷ 118 ∷ 98 ∷ 110
    ∷ 109 ∷ 44 ∷ 46 ∷ 47 ∷ key_rshift ∷ 0 ∷ 0 ∷ 32 ∷ 26 ∷ 0 ∷ 0 ∷ 0 ∷ 0 ∷ 0 ∷ 0 ∷ 0 ∷ 0 ∷ 0 ∷ 0 ∷ 0
    ∷ 0 ∷ 0 ∷ 0 ∷ 0 ∷ 0 ∷ 0 ∷ 0 ∷ 0 ∷ 0 ∷ 0 ∷ 0 ∷ 0 ∷ 0 ∷ 0 ∷ 0 ∷ 0 ∷ 0 ∷ 0 ∷ 0 ∷ [])

unfoldable pub sc_table_shift : ℕ → ℕ
sc_table_shift = array 0 (
    0 ∷ 27 ∷ 33 ∷ 64 ∷ 35 ∷ 36 ∷ 37 ∷ 94 ∷ 38 ∷ 42 ∷ 40 ∷ 41 ∷ 95 ∷ 43 ∷ key_backspace ∷ 9 ∷ 81 ∷ 87
    ∷ 69 ∷ 82 ∷ 84 ∷ 89 ∷ 85 ∷ 73 ∷ 79 ∷ 80 ∷ 123 ∷ 125 ∷ 10 ∷ 17 ∷ 65 ∷ 83 ∷ 68 ∷ 70 ∷ 71 ∷ 72 ∷ 74
    ∷ 75 ∷ 76 ∷ 58 ∷ 34 ∷ 126 ∷ key_lshift ∷ 124 ∷ 90 ∷ 88 ∷ 67 ∷ 86 ∷ 66 ∷ 78 ∷ 77 ∷ 44 ∷ 46 ∷ 47
    ∷ key_rshift ∷ 0 ∷ 0 ∷ 32 ∷ 26 ∷ 0 ∷ 0 ∷ 0 ∷ 0 ∷ 0 ∷ 0 ∷ 0 ∷ 0 ∷ 0 ∷ 0 ∷ 0 ∷ 0 ∷ 0 ∷ 0 ∷ 0 ∷ 0
    ∷ 0 ∷ 0 ∷ 0 ∷ 0 ∷ 0 ∷ 0 ∷ 0 ∷ 0 ∷ 0 ∷ 0 ∷ 0 ∷ 0 ∷ 0 ∷ 0 ∷ [])

unfoldable pub scan_code_to_ascii : ℕ → ℕ → ℕ
scan_code_to_ascii scan_code is_shift_depressed =
    if bit_and scan_code (2 ^ 7) == 0
    then (if is_shift_depressed == 0 then sc_table_noshift scan_code else sc_table_shift scan_code)
    else (if scan_code == 170 || scan_code == 182
        then sc_table_noshift (bit_xor scan_code (2 ^ 7))
        else 0)

-- The static variable of the handler, and the characters passed to the registered callback, the
-- latest first; a null `handler` means that none is registered.
pub record Keyboard : Type 0 where
  pub is_shift_key_depressed : ℕ
  pub handler : ℕ
  pub typed : List ℕ

-- `ISR_KEYBOARD` on the byte that the port gives.
unfoldable pub isr_keyboard : ℕ → Keyboard → Keyboard
isr_keyboard scan_code k =
    let ascii = scan_code_to_ascii scan_code k.is_shift_key_depressed in
    if ascii == key_lshift || ascii == key_rshift
    then record k { is_shift_key_depressed = bit_xor k.is_shift_key_depressed 1 }
    else if k.handler == 0
    then k
    else record k { typed = ascii ∷ k.typed }
