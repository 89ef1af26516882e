-- ===== src/Tests/Tasking.antt =====
-- The tasks and the scheduler on a small system.
use catch_os.Base.{ℕ, ◌≡◌, refl, arith, null, ◌==◌, if◌then◌else◌}
use catch_os.Base.{some, [], ◌∷◌, true, pos}
use catch_os.Tasks.{Tasks, TaskStruct, task_ready, task_running, join_joinable}
use catch_os.Tasks.Create.{CodeAddrs, NewArgs, find_slot, task_new, task_return, task_join_step}
use catch_os.Tasks.Count.{count_slots}
use catch_os.Tasks.Slots.{IsListed, IsFresh, Creation, task_new-Creation}
use catch_os.Tasks.Lifecycle.{
  IsRunning, Ended, task_return-Ended, task_join-return, StackMap, task_new-StackMap,
}
use catch_os.Tasks.Schedule.{pick, schedule}
use catch_os.Tasks.Pick.{Best, pick-Best}
use catch_os.Tasks.Fair.{Scheduled, schedule-Scheduled}

abbrev task : ℕ → ℕ → TaskStruct
task pid prio = record {
  esp = 0;
  eip = 0;
  pid = pid;
  state = task_ready;
  static_prio = pos prio;
  dynamic_prio = pos 0;
  stack_bottom = 0x9000;
  stack_size = 0;
  interruptible = true;
  join_state = join_joinable;
  sleep_avg = pos 0;
}

-- Task 0, at address 100, runs on CPU 0; task 1, at address 200, is ready.
abbrev two : Tasks
two = record {
  task_at = λ p. if p == 100 then record (task 0 4) { state = task_running } else task 1 2;
  word = λ a. 0;
  freed = [];
  tasks = λ i. if i == 0 then 100 else if i == 1 then 200 else null;
  nr_tasks = pos 2;
  current = λ cpu. if cpu == 0 then 100 else null;
}

two-IsListed : IsListed two
unfolding count_slots
two-IsListed = record { counted = refl; pids = λ i lt ne. ground arith }

two-IsRunning : IsRunning two 0
two-IsRunning = record { there = omega arith; slot = omega arith; listed = refl; running = refl }

abbrev code : CodeAddrs
code = record { task_startup = 0x1000; on_current_task_return_cb = 0x2000 }

abbrev args : NewArgs
args = record {
  fp = 0x3000;
  arg = 5;
  stack_size = 0x600;
  priority = pos 3;
  task_mem = 300;
  stack_mem = 0x8000;
  flags = 2;
}

args-IsFresh : IsFresh two 300
args-IsFresh = (omega arith, λ i lt. ground arith)

task_new-Creation_example :
    Creation code two args args-IsFresh two-IsListed (task_new code two args)
task_new-Creation_example = task_new-Creation code two args args-IsFresh two-IsListed

task_return-Ended_example : Ended two 0 (task_return two 0)
task_return-Ended_example = task_return-Ended two 0 two-IsListed two-IsRunning

task_join-return_example :
    let (done, t) = task_join_step (task_return two 0) 100 in
    (done ≡ true) × (t.freed ≡ 100 ∷ 0x9000 ∷ [])
task_join-return_example = task_join-return two 0 two-IsListed two-IsRunning refl

third_task : (task_new code two args).0 ≡ 300
unfolding task_new find_slot
third_task = refl

task_new-StackMap_example :
    let t = (task_new code two args).1 in
    StackMap code args t.word (t.task_at 300).esp × ((t.task_at 300).stack_bottom ≡ 0x8000)
task_new-StackMap_example =
    task_new-StackMap code two args (omega arith) (omega arith) (rw third_task (omega arith))

pick-Best_example : Best two 64 (pick two)
pick-Best_example = pick-Best two

schedule-Scheduled_example : (t : Tasks) × (schedule 2 two 0 ≡ some t) × Scheduled two 0 t
schedule-Scheduled_example =
    schedule-Scheduled 0 two 0 1 two-IsListed
      (record { slot = omega arith; ready = refl; counter = refl; prio = omega arith })
