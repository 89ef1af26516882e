-- ===== src/Tests/Logging.antt =====
-- The format "a%x" with the value 255, and its text "aFF".
use catch_os.Base.{ℕ, ◌≡◌, arith, inl, List, [], ◌∷◌, array, for_range}
use catch_os.Debug.{Args, Line, dbg_log}
use catch_os.Debug.Render.{IsSent}
use catch_os.Debug.Items.{Item, plain, argument, hex, Reads, logged, ends_plain}
use catch_os.Debug.Format.{dbg_log-Reads}

abbrev args : Args
args = record { va_arg = λ i. 255; static_buffer = 1000; fuel = 64 }

-- A status port that is always ready.
abbrev ready : ℕ → List ℕ
ready n = for_range n 0 (λ i rs. 0x20 ∷ rs) []

abbrev quiet : Line
quiet = record { mem = array 0 (b'a' ∷ b'%' ∷ b'x' ∷ []); readings = ready 65; out = [] }

abbrev items : List Item
items = plain b'a' ∷ argument hex ∷ []

dbg_log-Reads_example :
    (u : Line) × (bytes : List ℕ) × Reads (λ i. 255) 0 items bytes
    × (dbg_log 3 args 0 quiet ≡ logged (ends_plain items) u)
    × IsSent args quiet bytes u
unfolding for_range
dbg_log-Reads_example =
    dbg_log-Reads 3 args 0 items quiet (omega arith) (omega arith) (ground arith)
      (inl (omega arith)) (omega arith, tt) (omega arith)
