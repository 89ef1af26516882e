-- ===== src/PageFrame/Runs.antt =====
-- Runs of free pages, in one byte and in the whole bitmap.
use catch_os.Base.{ℕ, zero, suc, ◌+◌, ◌-◌, ◌≤◌, ◌<◌, ◌≡◌, refl, arith}
use catch_os.Base.{
  ltb→lt, Bool, true, ltb, leb, not, ◌==◌, ◌&&◌, ◌||◌, if◌then◌else◌, Mem, ℤ, pos, negsuc,
}
use catch_os.Base.Bits.{bit_at, every_below, every_below-at}
use catch_os.Bitmap.Laws.{bit}
use catch_os.PageFrame.{best_fit_pos_in}

-- The pages from `i` up to `i + n` are free.
abbrev pub AllFree : Mem → ℕ → ℕ → ℕ → Type 0
AllFree m p i n = (j : ℕ) → i ≤ j → j < i + n → bit m p j ≡ 0

-- How many of the `n` bits from `j` on are 0, up to the first 1.
unfoldable pub run_len : ℕ → ℕ → ℕ → ℕ
run_len b zero j = 0
run_len b (suc n) j = let rest = run_len b n (j + 1) in if bit_at b j == 0 then 1 + rest else 0

-- Bits that are all 0 make a run.
pub run_len-ge :
    (b n j k : ℕ) → k ≤ n → ((i : ℕ) → j ≤ i → i < j + k → bit_at b i ≡ 0) → k ≤ run_len b n j
unfolding run_len
run_len-ge b zero j k le h = omega arith
run_len-ge b (suc n) j zero le h = omega arith
run_len-ge b (suc n) j (suc k) le h = ground (
  arith,
  h j,
  run_len-ge b n (j + 1) k (omega arith) (λ i lo hi. h i (omega arith) (omega arith)),
)

-- A run starts at `j`: the bit below it is no free bit.
abbrev pub starts_run : ℕ → ℕ → Bool
starts_run b j = j == 0 || bit_at b (j - 1) == 1

-- The window fits the byte and is free, and its run is the shortest that is long enough.
abbrev found_test : ℕ → ℕ → ℕ → Bool
found_test b k j =
    leb (j + k) 8
    && starts_run b j
    && every_below 8 (λ i. not (leb j i && ltb i (j + k)) || bit_at b i == 0)
    && every_below 8 (λ i.
      not (starts_run b i && leb k (run_len b (8 - i) i))
      || leb (run_len b (8 - j) j) (run_len b (8 - i) i))

abbrev missed_test : ℕ → ℕ → Bool
missed_test b k = every_below 8 (λ i. ltb (run_len b (8 - i) i) k)

abbrev scan_test : ℕ → ℕ → ℤ → Bool
scan_test b k (pos j) = found_test b k j
scan_test b k (negsuc _) = missed_test b k

scan_table :
    every_below 256 (λ b. every_below 8 (λ k. scan_test b (k + 1) (best_fit_pos_in b (k + 1))))
    ≡ true
unfolding every_below run_len best_fit_pos_in
scan_table = refl

scan_test_lem : (b k : ℕ) → b < 256 → 0 < k → k ≤ 8 → scan_test b k (best_fit_pos_in b k) ≡ true
scan_test_lem b k hb lo hi =
    let e : k - 1 + 1 ≡ k = omega arith in
    rw e at (
      every_below-at 8 (λ k. scan_test b (k + 1) (best_fit_pos_in b (k + 1))) (k - 1)
        (every_below-at 256
          (λ b. every_below 8 (λ k. scan_test b (k + 1) (best_fit_pos_in b (k + 1)))) b scan_table
          hb)
        (omega arith))

module _ (b k : ℕ) (hb : b < 256) (lo : 0 < k) (hi : k ≤ 8) where
  found_facts : (j : ℕ) → best_fit_pos_in b k ≡ pos j → found_test b k j ≡ true
  found_facts j e = rw e at (scan_test_lem b k hb lo hi)

  missed_facts : (m : ℕ) → best_fit_pos_in b k ≡ negsuc m → missed_test b k ≡ true
  missed_facts m e = rw e at (scan_test_lem b k hb lo hi)

  -- The window that the scan of a byte settles on lies in the byte.
  pub found-fits : (j : ℕ) → best_fit_pos_in b k ≡ pos j → j + k ≤ 8
  found-fits j e = ground (arith, found_facts j e)

  -- All its bits are 0.
  pub found-free : (j i : ℕ) → best_fit_pos_in b k ≡ pos j → j ≤ i → i < j + k → bit_at b i ≡ 0
  found-free j i e le lt = ground (
    arith,
    found_facts j e,
    found-fits j e,
    every_below-at 8 (λ i. not (leb j i && ltb i (j + k)) || bit_at b i == 0) i,
  )

  -- For a byte and a request of one to eight pages: the position that the best-fit search finds in
  -- the byte starts a run of free bits, and no other run of the byte that is long enough is
  -- shorter.
  found-shortest :
      (j i : ℕ)
      → best_fit_pos_in b k ≡ pos j
      → i < 8
      → starts_run b i ≡ true
      → k ≤ run_len b (8 - i) i
      → (starts_run b j ≡ true) × (run_len b (8 - j) j ≤ run_len b (8 - i) i)
  found-shortest j i e lt st le = ground (
    arith,
    found_facts j e,
    every_below-at 8
        (λ i.
          not (starts_run b i && leb k (run_len b (8 - i) i))
          || leb (run_len b (8 - j) j) (run_len b (8 - i) i))
        i,
  )

  -- Without a window every run of the byte is too short.
  pub missed-short : (m i : ℕ) → best_fit_pos_in b k ≡ negsuc m → i < 8 → run_len b (8 - i) i < k
  missed-short m i e lt = ltb→lt _ _ (every_below-at 8 _ i (missed_facts m e) lt)
