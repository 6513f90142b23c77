-- ===== src/Scheduler.antt =====
-- kernel/scheduler.c: the ready queue and the zombie list, threaded through the `next` fields of
-- the process structures. The loops run on fuel, and `none` means that the fuel ran out; the loop
-- of `pick_next` counts to `queue_size`.
pub mod Queue
pub mod Enqueue
pub mod Dequeue
pub mod Erase
pub mod Pick
pub mod Switch
pub mod Yield
pub mod Fairness
pub mod Wake
pub mod Lists
pub mod Reap
pub mod Orphans
pub mod Parents
pub mod Sweep
pub mod Run
pub mod Reach
mod Tests
use stak_os.Base.{
  ℕ, zero, suc, ◌+◌, ◌-◌, Bool, true, false, not, ◌&&◌, ◌||◌, Option, none, some, List, [], ◌∷◌,
  ◌==◌, if◌then◌else◌, ltb,
}
use stak_os.Base.Words.{add32, sub32}
use stak_os.Process.{
  process_lookup, proc_table_remove, Process, ProcessState, ready, running, blocked, zombie, dead,
  state_eq, Procs, put,
}

-- The statics of scheduler.c, `current_process` and the structures that they point to; `esp0` is
-- the field of the TSS, `cr3` the register, and `esp` the stack pointer that a switch saves.
pub record Sched : Type 0 where
  pub procs : Procs
  pub queue_head : ℕ
  pub queue_tail : ℕ
  pub queue_size : ℕ
  pub zombie_head : ℕ
  pub current_process : ℕ
  pub esp0 : ℕ
  pub esp : ℕ
  pub cr3 : ℕ

abbrev pub set_next : Procs → ℕ → ℕ → Procs
set_next procs p q = put procs p (record (procs p) { next = q })

abbrev pub set_state : Procs → ℕ → ProcessState → Procs
set_state procs p st = put procs p (record (procs p) { state = st })

pub scheduler_enqueue : Sched → (proc : ℕ) → Sched
scheduler_enqueue s proc =
    let fresh = set_next (set_state s.procs proc ready) proc 0 in
    if proc == 0
    then s
    else if s.queue_head == 0
    then record s {
      procs = fresh;
      queue_head = proc;
      queue_tail = proc;
      queue_size = add32 s.queue_size 1;
    }
    else record s {
      procs = set_next fresh s.queue_tail proc;
      queue_tail = proc;
      queue_size = add32 s.queue_size 1;
    }

-- The search of `scheduler_dequeue`, at `cur` behind `prev`.
pub dequeue_loop : (fuel : ℕ) → Sched → (proc prev cur : ℕ) → Option Sched
dequeue_loop zero s proc prev cur = none
dequeue_loop (suc fuel) s proc prev cur =
    let rest = dequeue_loop fuel s proc cur (s.procs cur).next in
    let after = (s.procs cur).next in
    let linked = if prev == 0 then s.procs else set_next s.procs prev after in
    if cur == 0
    then some s
    else if cur == proc
    then some (record s {
      procs = set_next linked cur 0;
      queue_head = if prev == 0 then after else s.queue_head;
      queue_tail = if cur == s.queue_tail then prev else s.queue_tail;
      queue_size = sub32 s.queue_size 1;
    })
    else rest

pub scheduler_dequeue : (fuel : ℕ) → Sched → (proc : ℕ) → Option Sched
scheduler_dequeue fuel s proc =
    if proc == 0 || s.queue_head == 0 then some s else dequeue_loop fuel s proc 0 s.queue_head

pub scheduler_mark_zombie : (fuel : ℕ) → Sched → (proc : ℕ) → Option Sched
scheduler_mark_zombie fuel s proc =
    if proc == 0 then some s else elim (scheduler_dequeue fuel s proc) [
      | none ↦ none
      | some s' ↦
          some (record s' { procs = set_next s'.procs proc s'.zombie_head; zombie_head = proc })
    ]

-- One round of `pick_next`: the head goes to the tail.
pub rotate : Sched → Sched
rotate s =
    let next = s.queue_head in
    let behind = (s.procs next).next in
    let procs1 = set_next s.procs next 0 in
    if behind == 0
    then record s { procs = procs1; queue_head = next; queue_tail = next }
    else record s {
      procs = set_next procs1 s.queue_tail next;
      queue_head = behind;
      queue_tail = next;
    }

-- The loop of `pick_next`, with `queue_size - checked` rounds left: the pointer that it returns.
pub pick_loop : (rounds : ℕ) → Sched → ℕ × Sched
pick_loop zero s = (0, s)
pick_loop (suc rounds) s =
    let next = s.queue_head in
    let s' = rotate s in
    let rest = pick_loop rounds s' in
    if state_eq (s'.procs next).state ready then (next, s') else rest

pub pick_next : Sched → ℕ × Sched
pick_next s = if s.queue_head == 0 then (0, s) else pick_loop s.queue_size s

-- `context_switch` of boot/context_switch.asm: the stack pointer of `old` is saved and that of
-- `new` loaded, with its page directory.
pub context_switch : Sched → (old new : ℕ) → Sched
context_switch s old new =
    let saved = put s.procs old (record (s.procs old) { esp = s.esp }) in
    record s { procs = saved; esp = (saved new).esp; cr3 = (saved new).cr3 }

pub do_switch : Sched → (next : ℕ) → Sched
do_switch s next =
    let old = s.current_process in
    let procs1 =
      if state_eq (s.procs old).state running then set_state s.procs old ready else s.procs in
    let procs2 = set_state procs1 next running in
    let procs3 =
      put procs2 next (record (procs2 next) { ticks_remaining = (procs2 next).priority }) in
    if old == next
    then s
    else context_switch
        (record s { procs = procs3; esp0 = (procs3 next).kernel_stack_top; current_process = next })
        old next

pub scheduler_yield : Sched → Sched
scheduler_yield s =
    let (next, s') = pick_next s in
    if next == 0 || next == s.current_process then s' else do_switch s' next

-- The wake-up loop of `scheduler_tick`, at `p`.
pub wake : Process → Process
wake p =
    let ticks = sub32 p.sleep_ticks 1 in
    if state_eq p.state blocked && ltb 0 p.sleep_ticks
    then record p { sleep_ticks = ticks; state = if ticks == 0 then ready else p.state }
    else p

pub wake_loop : (fuel : ℕ) → Procs → (p : ℕ) → Option Procs
wake_loop zero procs p = none
wake_loop (suc fuel) procs p =
    let procs' = put procs p (wake (procs p)) in
    let rest = wake_loop fuel procs' (procs' p).next in if p == 0 then some procs else rest

-- The quantum of the current process, and the switch when it has run out.
pub quantum : Sched → Sched
quantum s =
    let cur = s.current_process in
    let left = (s.procs cur).ticks_remaining in
    let s1 =
      if ltb 0 left
      then record s {
        procs = put s.procs cur (record (s.procs cur) { ticks_remaining = left - 1 });
      }
      else s in
    let (next, s2) = pick_next s1 in
    if (s1.procs cur).ticks_remaining == 0 && ltb 0 s1.queue_size
    then if not (next == 0) && not (next == cur) then do_switch s2 next else record s2 {
      procs =
          put s2.procs cur (record (s2.procs cur) { ticks_remaining = (s2.procs cur).priority });
    }
    else s1

pub is_pid_alive : Procs → (proc_table : List ℕ) → (pid : ℕ) → Bool
is_pid_alive procs proc_table pid =
    let p = process_lookup procs proc_table pid in
    if pid == 0
    then false
    else if p == 0
    then false
    else not (state_eq (procs p).state zombie) && not (state_eq (procs p).state dead)

-- The loop of `scheduler_reap_zombies` at `cur` behind `prev`: the table of processes, from which
-- `process_free` takes the orphans, and the orphans, whose memory it frees, in their order.
pub reap_loop :
    (fuel : ℕ) → Sched → (proc_table : List ℕ) → (prev cur : ℕ) → Option (Sched × List ℕ × List ℕ)
reap_loop zero s proc_table prev cur = none
reap_loop (suc fuel) s proc_table prev cur =
    let following = (s.procs cur).next in
    let unlinked =
      if prev == 0
      then record s { zombie_head = following }
      else record s { procs = set_next s.procs prev following } in
    let kept = reap_loop fuel s proc_table cur following in
    let reaped : Option (Sched × List ℕ × List ℕ) =
      elim (reap_loop fuel unlinked (proc_table_remove proc_table cur) prev following) [
        | none ↦ none
        | some (s', table, orphans) ↦ some (s', table, cur ∷ orphans)
      ] in
    if cur == 0
    then some (s, proc_table, [])
    else if is_pid_alive s.procs proc_table (s.procs cur).parent_pid
    then kept
    else reaped

pub scheduler_reap_zombies : (fuel : ℕ) → Sched → List ℕ → Option (Sched × List ℕ × List ℕ)
scheduler_reap_zombies fuel s proc_table = reap_loop fuel s proc_table 0 s.zombie_head

pub scheduler_init : Sched → Sched
scheduler_init s =
    let empty = record s { queue_head = 0; queue_tail = 0; queue_size = 0 } in
    let idle = s.current_process in
    let s' = scheduler_enqueue empty idle in
    if idle == 0 then empty else record s' { procs = set_state s'.procs idle running }
