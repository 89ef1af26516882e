-- ===== src/Timer/Delay.antt =====
-- How long `delay_bootstrap` waits.
use catch_os.Base.{
  ℕ, zero, suc, ◌+◌, ◌*◌, ◌/◌, ◌%◌, ◌^◌, ◌<◌, ◌≡◌, refl, arith, ap, some, ltb, if◌then◌else◌,
  Bool-cases, inl, inr, true, false,
}
use catch_os.Timer.{Timer, isr_systime_bootstrap, wait_ticks, stop_of, delay_bootstrap}

wait_ticks_lem :
    (f n : ℕ) (t : Timer)
    → n < f
    → t.ticks + n < 2 ^ 32
    → wait_ticks f (t.ticks + n) t ≡ some (record t { ticks = t.ticks + n })
unfolding wait_ticks isr_systime_bootstrap
wait_ticks_lem zero n t lt room = absurd (omega arith)
wait_ticks_lem (suc f) zero t lt room =
    let e : ltb t.ticks (t.ticks + 0) ≡ false = ground arith in
    let none_left : t.ticks ≡ t.ticks + 0 = omega arith in
    rw (wait_ticks, e) (ap (λ n. some (record t { ticks = n })) none_left)
wait_ticks_lem (suc f) (suc n) t lt room =
    let e : ltb t.ticks (t.ticks + suc n) ≡ true = ground arith in
    let next : (t.ticks + 1) % 2 ^ 32 ≡ t.ticks + 1 = omega arith in
    let sum : t.ticks + 1 + n ≡ t.ticks + suc n = omega arith in
    let ih = wait_ticks_lem f n (record t { ticks = t.ticks + 1 }) (omega arith) (omega arith) in
    rw (wait_ticks, e, next) (rw sum at ih)

stops_at_once :
    (f stop : ℕ) (t : Timer) → ltb t.ticks stop ≡ false → wait_ticks (suc f) stop t ≡ some t
unfolding wait_ticks
stops_at_once f stop t e = rw (wait_ticks, e) refl

-- With a fuel above the number of ticks that the delay of `ms` takes, and a count of ticks of 32
-- bits: `delay_bootstrap` returns. It has waited for that number of ticks if the count does not
-- run over before, and otherwise for none.
pub delay_bootstrap-waits :
    (f ms : ℕ) (t : Timer)
    → t.ticks < 2 ^ 32
    → ms * t.freq % 2 ^ 32 / 1000 < f
    → let n = ms * t.freq % 2 ^ 32 / 1000 in
      delay_bootstrap f ms t
      ≡ some (record t { ticks = if ltb (t.ticks + n) (2 ^ 32) then t.ticks + n else t.ticks })
unfolding delay_bootstrap
delay_bootstrap-waits zero ms t small lt = absurd (omega arith)
delay_bootstrap-waits (suc f) ms t small lt =
    let n = ms * t.freq % 2 ^ 32 / 1000 in
    elim (Bool-cases (ltb (t.ticks + n) (2 ^ 32))) [
      | inl e ↦
          (let whole : stop_of ms t ≡ t.ticks + n = ground arith in
            rw (delay_bootstrap, whole, e) (wait_ticks_lem (suc f) n t lt (ground arith)))
      | inr e ↦
          (let late : ltb t.ticks (stop_of ms t) ≡ false = ground arith in
            rw (delay_bootstrap, e) (stops_at_once f (stop_of ms t) t late))
    ]
