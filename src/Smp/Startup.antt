-- ===== src/Smp/Startup.antt =====
-- Which commands `start_APs` sends.
use catch_os.Base.{
  ℕ, zero, suc, ◌+◌, ◌*◌, ◌/◌, ◌%◌, ◌^◌, ◌≤◌, ◌<◌, ◌≡◌, refl, arith, ap, ◌∙◌, some, List, [], ◌∷◌,
  bit_and, bit_or, Bool-cases, ◌==◌, if◌then◌else◌, inl, inr, ℤ, pos, negsuc, false, Bool, Option,
}
use catch_os.Acpi.Madt.{MadtInfo}
use catch_os.Drivers.Lapic.{
  wait_sent, lapic_send_init, lapic_send_startup, icr_startup, icr_assert, icr_send_pending,
}
use catch_os.Smp.{
  Smp, Machine, look, success, with_sent, prepare_trampoline_params, send_init, send_startup,
  try_again, try_first, start_ap, start_aps,
}

-- The readings that find no command pending.
abbrev pub idle_count : List ℕ → ℕ
idle_count [] = 0
idle_count (r ∷ rs) = if bit_and r icr_send_pending == 0 then suc (idle_count rs) else idle_count rs

wait_sent-idle :
    (rs : List ℕ)
    → 0 < idle_count rs
    → (rest : List ℕ) × (wait_sent rs ≡ some rest) × (suc (idle_count rest) ≡ idle_count rs)
unfolding wait_sent
wait_sent-idle [] h = absurd (omega arith)
wait_sent-idle (r ∷ rs) h = elim (Bool-cases (bit_and r icr_send_pending == 0)) [
  | inl e ↦ (rs, rw e refl, rw e refl)
  | inr e ↦ (let (rest, er, n) = wait_sent-idle rs (ground arith) in (rest, rw e er, rw e n))
]

-- The two words of a command on top of others.
abbrev pub command : ℕ → ℕ → ℕ → List (ℕ × ℕ) → List (ℕ × ℕ)
command base id low out = (base + 0x300, low) ∷ (base + 0x310, id * 2 ^ 24 % 2 ^ 32) ∷ out

abbrev pub init_word : ℕ
init_word = 0x4500

abbrev pub startup_word : Machine → ℕ
startup_word k = bit_or (bit_or (k.trampoline_func / 4096) icr_startup) icr_assert

-- What one CPU is sent: the initialisation and one start-up, or two when no CPU has set the flag
-- by the look at it that `looks` others went before.
abbrev pub commands_to : Machine → ℕ → ℕ → ℕ → List (ℕ × ℕ) → List (ℕ × ℕ)
commands_to k base id looks out =
    let once = command base id (startup_word k) (command base id init_word out) in
    if k.sets_flag looks then once else command base id (startup_word k) once

-- The looks behind a start.
abbrev pub looks_after : Machine → ℕ → ℕ
looks_after k looks = if k.sets_flag looks then looks + 1 else looks + 2

-- The CPUs from `i` on in the order of the table, but for the one with the id 0.
abbrev pub commands_from : Machine → MadtInfo → ℕ → ℕ → ℕ → List (ℕ × ℕ) → List (ℕ × ℕ)
commands_from k m zero i looks out = out
commands_from k m (suc n) i looks out =
    let id = m.local_apic_ids i in
    if id == 0
    then commands_from k m n (i + 1) looks out
    else commands_from k m n (i + 1) (looks_after k looks)
        (commands_to k m.local_apic_addr id looks out)

-- How many commands that needs at most.
abbrev pub needed : MadtInfo → ℕ → ℕ → ℕ
needed m zero i = 0
needed m (suc n) i = (if m.local_apic_ids i == 0 then 0 else 3) + needed m n (i + 1)

module _ (k : Machine) where
  send_init-sent :
      (base id : ℕ) (s : Smp)
      → 0 < idle_count s.readings
      → (u : Smp) × (send_init base id s ≡ some u)
        × (u.out ≡ command base id init_word s.out)
        × (u.ap_startup_successful ≡ s.ap_startup_successful)
        × (u.looks ≡ s.looks)
        × (suc (idle_count u.readings) ≡ idle_count s.readings)
  unfolding send_init lapic_send_init
  send_init-sent base id s idle =
      let (rest, e, n) = wait_sent-idle s.readings idle in
      (
        with_sent 10 s (rest, command base id init_word s.out),
        rw (send_init, lapic_send_init, e) refl,
        refl,
        refl,
        refl,
        n,
      )

  send_startup-sent :
      (base id ms : ℕ) (s : Smp)
      → 0 < idle_count s.readings
      → (u : Smp) × (send_startup k base id ms s ≡ some u)
        × (u.out ≡ command base id (startup_word k) s.out)
        × (u.ap_startup_successful ≡ s.ap_startup_successful)
        × (u.looks ≡ s.looks)
        × (suc (idle_count u.readings) ≡ idle_count s.readings)
  unfolding send_startup lapic_send_startup
  send_startup-sent base id ms s idle =
      let (rest, e, n) = wait_sent-idle s.readings idle in
      (
        with_sent ms s (rest, command base id (startup_word k) s.out),
        rw (send_startup, lapic_send_startup, e) refl,
        refl,
        refl,
        refl,
        n,
      )

  -- The second try ends with the flag clear, however it ends.
  try_again-sent :
      (base id : ℕ) (s : Smp)
      → 0 < idle_count s.readings
      → (u : Smp) × (result : ℤ) × (try_again k base id s ≡ some (result, u))
        × (u.out ≡ command base id (startup_word k) s.out)
        × (u.ap_startup_successful ≡ false)
        × (u.looks ≡ s.looks + 1)
        × (suc (idle_count u.readings) ≡ idle_count s.readings)
  try_again-sent base id s idle =
      let (w, ew, ow, fw, lw, nw) = send_startup-sent base id 1000 s idle in
      elim (Bool-cases (look k w).ap_startup_successful) [
        | inl later ↦ (
          (success (look k w)).1,
          pos 0,
          rw (try_again, ew, later) refl,
          ow,
          refl,
          rw lw refl,
          nw,
        )
        | inr never ↦
            (look k w, negsuc 0, rw (try_again, ew, never) refl, ow, never, rw lw refl, nw)
      ]

  -- A start begins and ends with the flag clear.
  start_ap-sent :
      (base id : ℕ) (s : Smp)
      → s.ap_startup_successful ≡ false
      → 3 ≤ idle_count s.readings
      → (u : Smp) × (result : ℤ) × (start_ap k base id s ≡ some (result, u))
        × (u.out ≡ commands_to k base id s.looks s.out)
        × (u.ap_startup_successful ≡ false)
        × (u.looks ≡ looks_after k s.looks)
        × (idle_count s.readings ≤ 3 + idle_count u.readings)
  unfolding start_ap prepare_trampoline_params
  start_ap-sent base id s clear idle =
      let start = prepare_trampoline_params k base s in
      let (t, et, ot, ft, lt, nt) = send_init-sent base id start (omega arith) in
      let (u, eu, ou, fu, lu, nu) = send_startup-sent base id 1 t (omega arith) in
      let once : u.out ≡ command base id (startup_word k) (command base id init_word s.out) =
        ou ∙ ap (command base id (startup_word k)) ot in
      let at : u.looks ≡ s.looks = lu ∙ lt in
      let flag : (look k u).ap_startup_successful ≡ k.sets_flag s.looks =
        rw (fu ∙ ft ∙ clear, at) refl in
      let tries : Bool → Option (ℤ × Smp) =
        λ set. if set then some (success (look k u)) else try_again k base id (look k u) in
      let first : start_ap k base id s ≡ tries (look k u).ap_startup_successful =
        rw (start_ap, et, try_first, eu) refl in
      elim (Bool-cases (k.sets_flag s.looks)) [
        | inl answered ↦ (
          (success (look k u)).1,
          pos 0,
          first ∙ ap tries (flag ∙ answered),
          rw answered once,
          refl,
          rw (answered, at) refl,
          omega arith,
        )
        | inr not_yet ↦
            (let (w, result, ew, ow, fw, lw, nw) =
                try_again-sent base id (look k u) (omega arith) in
              (
                w,
                result,
                first ∙ ap tries (flag ∙ not_yet) ∙ ew,
                rw not_yet (ow ∙ ap (command base id (startup_word k)) once),
                fw,
                rw (not_yet, lw, at) (omega arith),
                omega arith,
              ))
      ]

  -- With `AP_STARTUP_SUCCESSFUL` clear and three idle readings of the command register for each
  -- CPU to start: the loop of `start_APs` comes to an end and leaves the flag clear. It has sent
  -- to each CPU from `i` on, in the order of the table and but for the local APIC 0, the
  -- initialisation and one start-up interrupt, and a second one exactly when no CPU, be it this
  -- one or a late one, has set the flag between the last look at it and the first look for this
  -- CPU, and nothing else.
  pub start_aps-sent :
      (m : MadtInfo) (n i : ℕ) (s : Smp)
      → s.ap_startup_successful ≡ false
      → needed m n i ≤ idle_count s.readings
      → (u : Smp) × (start_aps k m n i s ≡ some u)
        × (u.out ≡ commands_from k m n i s.looks s.out)
        × (u.ap_startup_successful ≡ false)
  unfolding start_aps
  start_aps-sent m zero i s clear idle = (s, refl, refl, clear)
  start_aps-sent m (suc n) i s clear idle = elim (Bool-cases (m.local_apic_ids i == 0)) [
    | inl e ↦
        (let (u, eu, o, c) = start_aps-sent m n (i + 1) s clear (ground arith) in
          (u, rw (start_aps, e) eu, rw e o, c))
    | inr e ↦
        (let (t, result, et, ot, ct, lt, nt) =
            start_ap-sent m.local_apic_addr (m.local_apic_ids i) s clear (ground arith) in
          let (u, eu, o, c) = start_aps-sent m n (i + 1) t ct (ground arith) in
          (
            u,
            rw (start_aps, e, et) eu,
            rw e (o ∙ rw lt (ap (commands_from k m n (i + 1) (looks_after k s.looks)) ot)),
            c,
          ))
  ]
