-- ===== src/Str/Decimal/Laws.antt =====
-- What the decimal conversions leave in their buffer.
use catch_os.Base.{
  ℕ, zero, suc, ◌+◌, ◌-◌, ◌*◌, ◌/◌, ◌%◌, ◌^◌, ◌≤◌, ◌<◌, ◌≡◌, ◌⊎◌, inl, inr, refl, ap, ◌∙◌, arith,
}
use native.Mathlib.Nat.{pow-suc}
use catch_os.Base.{
  Option, none, some, Mem, update, update_self, update_ne, ltb, ltb→lt, ltb→le, leb, ◌&&◌, ◌==◌,
  if◌then◌else◌, Bool-cases, pos,
}
use catch_os.Str.Decimal.{digits_loop, reverse_loop, finish, int_to_str_u}

-- What a segment reads as when its bytes have changed places.
abbrev mirrored : Mem → ℕ → ℕ → ℕ → ℕ
mirrored mem start out a = if leb start a && leb a out then mem (start + out - a) else mem a

abbrev swapped : Mem → ℕ → ℕ → Mem
swapped mem start out = update (update mem start (mem out)) out (mem start)

swapped-mirrored :
    (mem : Mem) (start out a : ℕ)
    → start < out
    → mirrored (swapped mem start out) (start + 1) (out - 1) a ≡ mirrored mem start out a
swapped-mirrored mem start out a lt =
    let sum : start + 1 + (out - 1) ≡ start + out = omega arith in rw sum (ground arith)

mirrored_short : (mem : Mem) (start out a : ℕ) → out ≤ start → mem a ≡ mirrored mem start out a
mirrored_short mem start out a le = ground arith

-- The bytes of a segment change places, and no other byte changes.
reverse_loop_lem :
    (f : ℕ) (mem : Mem) (start out a : ℕ)
    → out - start ≤ f
    → reverse_loop f mem start out a ≡ mirrored mem start out a
unfolding reverse_loop
reverse_loop_lem zero mem start out a h = mirrored_short mem start out a (omega arith)
reverse_loop_lem (suc f) mem start out a h = elim (Bool-cases (ltb start out)) [
  | inl e ↦
      rw (reverse_loop, e)
        (reverse_loop_lem f (swapped mem start out) (start + 1) (out - 1) a (omega arith)
          ∙ swapped-mirrored mem start out a (ltb→lt start out e))
  | inr e ↦ rw (reverse_loop, e) (mirrored_short mem start out a (ltb→le start out e))
]

-- The number that `k` decimal digits in memory stand for, the highest first.
abbrev pub number_at : Mem → ℕ → ℕ → ℕ
number_at m p zero = 0
number_at m p (suc k) = number_at m p k * 10 + (m (p + k) - b'0')

-- The same with the lowest first.
abbrev number_up : Mem → ℕ → ℕ → ℕ
number_up m p zero = 0
number_up m p (suc k) = m p - b'0' + 10 * number_up m (p + 1) k

number_up-same :
    (m n : Mem) (p k : ℕ)
    → ((a : ℕ) → p ≤ a → a < p + k → m a ≡ n a)
    → number_up m p k ≡ number_up n p k
number_up-same m n p zero h = refl
number_up-same m n p (suc k) h =
    let ih = number_up-same m n (p + 1) k (λ a l u. h a (omega arith) (omega arith)) in
    ground (arith, h p)

number_at-reversed :
    (m n : Mem) (p q k : ℕ)
    → ((i : ℕ) → i < k → n (p + i) ≡ m (q + (k - 1 - i)))
    → number_at n p k ≡ number_up m q k
number_at-reversed m n p q zero h = refl
number_at-reversed m n p q (suc k) h =
    let ih = number_at-reversed m n p (q + 1) k (λ i lt. h i (omega arith) ∙ ap m (omega arith)) in
    let last : n (p + k) ≡ m q = h k (omega arith) ∙ ap m (omega arith) in omega (arith, ih, last)

-- What the loop over the digits leaves: the number between the start and its end, in digits.
record Written (mem : Mem) (start bufsize n : ℕ) (m : Mem) (out left : ℕ) : Type 0 where
  some_digit : start < out
  fits : out + left ≡ start + bufsize
  value : number_up m start (out - start) ≡ n
  digits : (a : ℕ) → start ≤ a → a < out → (b'0' ≤ m a) × (m a ≤ b'9')
  kept : (a : ℕ) → (a < start) ⊎ (out ≤ a) → m a ≡ mem a

abbrev Outcome : Mem → ℕ → ℕ → ℕ → Mem × Option (ℕ × ℕ) → Type 0
Outcome mem start bufsize n r =
    (r.1 ≡ none)
    ⊎ ((out : ℕ) × (left : ℕ) × (r.1 ≡ some (out, left)) × Written mem start bufsize n r.0 out left)

one_digit :
    (mem : Mem) (start n : ℕ)
    → n < 10
    → number_up (update mem start (n % 10 + b'0')) start (start + 1 - start) ≡ n
one_digit mem start n lt = let e : start + 1 - start ≡ 1 = omega arith in rw e (ground arith)

more-Written :
    (mem : Mem) (start b n : ℕ) {r : Mem × Option (ℕ × ℕ)}
    → Outcome (update mem start (n % 10 + b'0')) (start + 1) b (n / 10) r
    → Outcome mem start (suc b) n r
more-Written mem start b n (inl e) = inl e
more-Written mem start b n {r} (inr (out, left, e, w)) =
    let lowest : r.0 start ≡ n % 10 + b'0' =
      w.kept start (inl (omega arith)) ∙ update_self mem start _ in
    let more : start + 1 < out = w.some_digit in
    let longer : out - start ≡ suc (out - (start + 1)) = omega arith in
    inr (
      out,
      left,
      e,
      record {
        some_digit = omega arith;
        fits = omega (arith, w.fits);
        value = rw longer (omega (arith, lowest, w.value));
        digits = λ x lo hi. ground (arith, w.digits x, lowest);
        kept = λ x o.
            w.kept x (elim o [ inl l ↦ inl (omega arith) | inr g ↦ inr g ])
            ∙ update_ne mem start _ x (λ q. elim o [ inl l ↦ omega arith | inr g ↦ omega arith ]);
      },
    )

digits_loop-Written :
    (mem : Mem) (start bufsize n : ℕ)
    → Outcome mem start bufsize n (digits_loop mem start bufsize n)
unfolding digits_loop
digits_loop-Written mem start zero n = inl refl
digits_loop-Written mem start (suc b) n = elim (Bool-cases (n / 10 == 0)) [
  | inl e ↦
      rw (digits_loop, e)
        (inr (
          start + 1,
          b,
          refl,
          record {
            some_digit = omega arith;
            fits = omega arith;
            value = one_digit mem start n (ground arith);
            digits = λ x lo hi. ground arith;
            kept = λ x o. ground arith;
          },
        ))
  | inr e ↦
      rw (digits_loop, e)
        (more-Written mem start b n
          (digits_loop-Written (update mem start (n % 10 + b'0')) (start + 1) b (n / 10)))
]

positive : (c q : ℕ) → q < 10 ^ c → 0 < q → 0 < c
positive zero q lt some_q = absurd (omega arith)
positive (suc c) q lt some_q = omega arith

-- Ten times as many numbers fit one digit more.
digits_loop-ends :
    (b : ℕ) (mem : Mem) (start n : ℕ)
    → n < 10 ^ b
    → 0 < b
    → (out : ℕ) × (left : ℕ) × ((digits_loop mem start (suc b) n).1 ≡ some (out, suc left))
unfolding digits_loop
digits_loop-ends zero mem start n lt room = absurd (omega arith)
digits_loop-ends (suc c) mem start n lt room = elim (Bool-cases (n / 10 == 0)) [
  | inl e ↦ (start + 1, c, rw (digits_loop, e) refl)
  | inr e ↦
      (let bound : n < 10 ^ c * 10 = rw (pow-suc 10 c) at lt in
        let one : 0 < c = positive c (n / 10) (omega arith) (ground arith) in
        let (out, left, ends) =
          digits_loop-ends c (update mem start (n % 10 + b'0')) (start + 1) (n / 10) (omega arith)
            one in
        (out, left, rw (digits_loop, e) ends))
]

digits_loop-kept :
    (b : ℕ) (mem : Mem) (start n a : ℕ)
    → (a < start) ⊎ (start + b ≤ a)
    → (digits_loop mem start b n).0 a ≡ mem a
unfolding digits_loop
digits_loop-kept zero mem start n a o = refl
digits_loop-kept (suc b) mem start n a o =
    ground (arith, digits_loop-kept b (update mem start (n % 10 + b'0')) (start + 1) (n / 10) a)

-- What a successful conversion leaves: the digits of `n` and the terminator in the buffer.
pub record Decimal (mem : Mem) (start bufsize n : ℕ) (m : Mem) : Type 0 where
  pub count : ℕ
  pub fits : (0 < count) × (count < bufsize)
  pub digits : (i : ℕ) → i < count → (b'0' ≤ m (start + i)) × (m (start + i) ≤ b'9')
  pub value : number_at m start count ≡ n
  pub terminated : m (start + count) ≡ 0
  pub kept : (a : ℕ) → (a < start) ⊎ (start + bufsize ≤ a) → m a ≡ mem a

finish-Decimal :
    (mem m : Mem) (start bufsize n out left : ℕ)
    → Written mem start bufsize n m out (suc left)
    → Decimal mem start bufsize n (reverse_loop (out - start) (update m out 0) start (out - 1))
finish-Decimal mem m start bufsize n out left w =
    let u = update m out 0 in
    let back = λ (a : ℕ). reverse_loop_lem (out - start) u start (out - 1) a (omega arith) in
    let more : start < out = w.some_digit in
    let room = w.fits in
    record {
      count = out - start;
      fits = (omega arith, omega arith);
      digits = λ i lt. ground (arith, back (start + i), w.digits (out - 1 - i));
      value =
          number_at-reversed m (reverse_loop (out - start) u start (out - 1)) start start
            (out - start) (λ i lt. back (start + i) ∙ ground arith)
          ∙ w.value;
      terminated = ground (arith, back (start + (out - start)));
      kept = λ a o.
          back a ∙ ground arith ∙ w.kept a (elim o [ inl l ↦ inl l | inr g ↦ inr (omega arith) ]);
    }

-- A number of at most `b` digits, for a positive `b`, is converted in a buffer of `b` + 1 bytes:
-- `_int_to_str_u` returns 0 and leaves the decimal digits of the number, the highest first, and
-- the terminator; no byte outside the buffer changes.
pub int_to_str_u-Decimal :
    (mem : Mem) (out b n : ℕ)
    → n < 10 ^ b
    → 0 < b
    → (m : Mem) × (int_to_str_u mem out (suc b) n ≡ (pos 0, m)) × Decimal mem out (suc b) n m
unfolding int_to_str_u
int_to_str_u-Decimal mem out b n lt room =
    let (end, left, e) = digits_loop-ends b mem out n lt room in
    ended (digits_loop mem out (suc b) n) end left e (digits_loop-Written mem out (suc b) n)
  where
    ended :
        (r : Mem × Option (ℕ × ℕ)) (end left : ℕ)
        → r.1 ≡ some (end, suc left)
        → Outcome mem out (suc b) n r
        → (m : Mem) × (finish out r ≡ (pos 0, m)) × Decimal mem out (suc b) n m
    ended (m, o) end left e (inl e2) = absurd (cc)
    ended (m, o) end left e (inr (end2, left2, e2, w)) =
        let same_end : end2 ≡ end = ground arith in
        let same_left : left2 ≡ suc left = ground arith in
        (
          reverse_loop (end - out) (update m end 0) out (end - 1),
          rw e refl,
          finish-Decimal mem m out (suc b) n end left (rw (same_end, same_left) at w),
        )
