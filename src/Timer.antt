-- ===== src/Timer.antt =====
-- kernel/timer/timer.c: the count of ticks, and the rotation of the timer interrupt over the CPUs.
pub mod Delay
pub mod Rotation
use catch_os.Base.{
  ℕ, ◌+◌, ◌*◌, ◌/◌, ◌%◌, ◌^◌, Option, none, some, List, [], ◌∷◌, ltb, Bool, zero, suc,
  if◌then◌else◌,
}
use catch_os.Drivers.{Writes}
use catch_os.Drivers.Pit.{pit_setfreq}
use catch_os.Interrupt.{Interrupts, interrupt_register, int_systime}
use catch_os.Tasks.{Tasks}
use catch_os.Tasks.Schedule.{task_isr_tick}

-- The static variables, `cpuno` of the handler among them, and the CPUs that the interrupt was
-- redirected to, the latest first.
pub record Timer : Type 0 where
  pub ticks : ℕ
  pub freq : ℕ
  pub cpuno : ℕ
  pub redirected : List ℕ

unfoldable pub isr_systime_bootstrap : Timer → Timer
isr_systime_bootstrap t = record t { ticks = (t.ticks + 1) % 2 ^ 32 }

-- `count` is `smp_get_cpu_count()`, `ids` the local APICs of the MADT.
unfoldable pub rotate : ℕ → (ℕ → ℕ) → Timer → Timer
rotate count ids t =
    let next = (t.cpuno + 1) % 2 ^ 8 % count in
    record t { ticks = (t.ticks + 1) % 2 ^ 32; cpuno = next; redirected = ids next ∷ t.redirected }

-- `ISR_SYSTIME_SCHED` on CPU `cpu`; the fuel is for `schedule`.
unfoldable pub isr_systime_sched : ℕ → ℕ → (ℕ → ℕ) → ℕ → Timer → Tasks → Option (Timer × Tasks)
isr_systime_sched f count ids cpu t s = elim (task_isr_tick f s cpu) [
  | none ↦ none
  | some s' ↦ some (rotate count ids t, s')
]

abbrev pub getticks : Timer → ℕ
getticks t = t.ticks

-- The tick at which a delay of `ms` ends.
abbrev pub stop_of : ℕ → Timer → ℕ
stop_of ms t = (t.ticks + ms * t.freq % 2 ^ 32 / 1000) % 2 ^ 32

-- `timer_init_bootstrap` and `timer_init_sched`, which differ in the handler.
unfoldable pub timer_init : ℕ → ℕ → Timer × Writes × Interrupts → Timer × Writes × Interrupts
timer_init handler hz (t, out, s) =
    (record t { freq = hz }, pit_setfreq hz out, interrupt_register int_systime handler s)

-- `while (_ticks < stop)` of `delay_bootstrap`, by fuel: each `hlt` lasts until the timer
-- interrupt.
unfoldable pub wait_ticks : ℕ → ℕ → Timer → Option Timer
wait_ticks zero stop t = none
wait_ticks (suc f) stop t =
    let rest = wait_ticks f stop (isr_systime_bootstrap t) in
    if ltb t.ticks stop then rest else some t

unfoldable pub delay_bootstrap : ℕ → ℕ → Timer → Option Timer
delay_bootstrap f ms t = wait_ticks f (stop_of ms t) t
