-- ===== src/Scheduler/Tests.antt =====
-- The ready queue on the processes at 100, 200 and 300, of which the first is blocked.
use stak_os.Base.{ℕ, refl, [], ◌∷◌, arith, ◌==◌, if◌then◌else◌}
use stak_os.Process.{Process, ProcessState, ready, blocked, zombie, Procs}
use stak_os.Scheduler.{Sched, scheduler_dequeue, scheduler_yield, scheduler_init, quantum}
use stak_os.Scheduler.Yield.{Yielded, scheduler_yield-Yielded}
use stak_os.Scheduler.Fairness.{RunsWithin, scheduler_yield-fair}
use stak_os.Scheduler.Reach.{WellFormed, start, step, yield, preempt, Reachable-WellFormed}
use stak_os.Scheduler.Queue.{IsQueue}
use stak_os.Scheduler.Dequeue.{Dequeued, scheduler_dequeue_lem}

abbrev process : ProcessState → (next : ℕ) → Process
process st next = record {
  pid = 1;
  name = [];
  state = st;
  esp = 0;
  cr3 = 0;
  parent_pid = 0;
  priority = 5;
  ticks_remaining = 5;
  sleep_ticks = 0;
  exit_code = 0;
  kernel_stack_top = 0;
  stack_frame_lo = 0;
  stack_frame_hi = 0;
  user_entry = 0;
  user_stack_top = 0;
  fds = [];
  next = next;
}

abbrev processes : Procs
processes p =
    if p == 100
    then process blocked 200
    else if p == 200
    then process ready 300
    else process ready 0

abbrev waiting : Sched
waiting = record {
  procs = processes;
  queue_head = 100;
  queue_tail = 300;
  queue_size = 3;
  zombie_head = 0;
  current_process = 400;
  esp0 = 0;
  esp = 0;
  cr3 = 0;
}

waiting-IsQueue : IsQueue waiting (100 ∷ 200 ∷ 300 ∷ [])
waiting-IsQueue = record {
  seg = (refl, omega arith, (refl, omega arith, (refl, omega arith, refl)));
  distinct = ((omega arith, (omega arith, tt)), ((omega arith, tt), (tt, tt)));
  tail = refl;
  size = refl;
  small = omega arith;
}

scheduler_dequeue_lem_example :
    Dequeued waiting 200 (100 ∷ 200 ∷ 300 ∷ []) (scheduler_dequeue 4 waiting 200)
scheduler_dequeue_lem_example =
    scheduler_dequeue_lem waiting 200 4 (100 ∷ 200 ∷ 300 ∷ []) waiting-IsQueue (omega arith)
      (omega arith)

scheduler_yield-Yielded_example :
    Yielded waiting 200 (300 ∷ 100 ∷ 200 ∷ []) (scheduler_yield waiting)
scheduler_yield-Yielded_example =
    scheduler_yield-Yielded waiting (100 ∷ []) 200 (300 ∷ []) waiting-IsQueue (refl, tt) refl

scheduler_yield-fair_example : RunsWithin waiting 300 3
scheduler_yield-fair_example =
    scheduler_yield-fair waiting (100 ∷ 200 ∷ []) 300 [] waiting-IsQueue refl

-- The zombies at 100, which has no parent, and at 200, whose parent is the process at 300.
abbrev ended : Procs
ended p =
    if p == 100
    then record (process zombie 200) { pid = 2 }
    else if p == 200
    then record (process zombie 0) { pid = 3; parent_pid = 1 }
    else process ready 0

abbrev with_zombies : Sched
with_zombies = record waiting { procs = ended; zombie_head = 100 }

Reachable-WellFormed_example : WellFormed (quantum (scheduler_yield (scheduler_init waiting)))
Reachable-WellFormed_example =
    Reachable-WellFormed (quantum (scheduler_yield (scheduler_init waiting))) (
      step (step (start waiting refl) (yield (scheduler_init waiting)))
        (preempt (scheduler_yield (scheduler_init waiting))))
