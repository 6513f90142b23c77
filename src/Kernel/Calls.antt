-- ===== src/Kernel/Calls.antt =====
-- What a system call on files, or one that the kernel does not know, leaves alone.
use stak_os.Base.{
  ◌==◌, ◌||◌, not, Bool, Bool-cases, false, length, ◌+◌, ◌⊎◌, inl, inr, ℕ, ◌<◌, ◌≤◌, ◌≡◌, ◌≢◌, refl,
  some, List, arith, ne→==, eq→==,
}
use native.Mathlib.Decide.{ℕ_discrete}
use stak_os.Base.Run.{Run, done}
use stak_os.Base.Text.{text}
use stak_os.Base.Words.{u32_mod}
use stak_os.Scheduler.Queue.{put_ne}
use stak_os.Vga.{Vga, kprint, vga_set_color}
use stak_os.Vga.Digits.{kprint_int-some}
use stak_os.Syscall.{Io, minus_one, write_loop, sys_write, sys_open, sys_read, sys_close}
use stak_os.Syscall.Effects.{Leaves, open-Leaves, close-Leaves, read-Leaves}
use stak_os.Kernel.{Kernel, process_of}
use stak_os.Kernel.Exit.{
  Registers, io_of, with_io, string_at, touches, unknown_call, syscall_handler,
}

-- The parts of the kernel that are the same, among them every process but the current one.
pub record Isolated (k k' : Kernel) : Type 0 where
  pub pmm : k'.pmm ≡ k.pmm
  pub heap : k'.heap ≡ k.heap
  pub kernel_pd : k'.kernel_pd ≡ k.kernel_pd
  pub proc_table : k'.proc_table ≡ k.proc_table
  pub next_pid : k'.next_pid ≡ k.next_pid
  pub tick_count : k'.tick_count ≡ k.tick_count
  pub current : k'.sched.current_process ≡ k.sched.current_process
  pub queue_head : k'.sched.queue_head ≡ k.sched.queue_head
  pub queue_tail : k'.sched.queue_tail ≡ k.sched.queue_tail
  pub queue_size : k'.sched.queue_size ≡ k.sched.queue_size
  pub zombie_head : k'.sched.zombie_head ≡ k.sched.zombie_head
  pub esp0 : k'.sched.esp0 ≡ k.sched.esp0
  pub esp : k'.sched.esp ≡ k.sched.esp
  pub cr3 : k'.sched.cr3 ≡ k.sched.cr3
  pub files : k'.files ≡ k.files
  pub others : (x : ℕ) → x ≢ k.sched.current_process → process_of k' x ≡ process_of k x

pub Isolated-io : (k : Kernel) (r : ℕ × Io) → r.1.files ≡ k.files → Isolated k (with_io k r).1
Isolated-io k r same = record {
  pmm = refl;
  heap = refl;
  kernel_pd = refl;
  proc_table = refl;
  next_pid = refl;
  tick_count = refl;
  current = refl;
  queue_head = refl;
  queue_tail = refl;
  queue_size = refl;
  zombie_head = refl;
  esp0 = refl;
  esp = refl;
  cr3 = refl;
  files = same;
  others = λ x ne. put_ne k.sched.procs k.sched.current_process x r.1.proc ne;
}

Isolated-screen : (k : Kernel) (v : Vga) → Isolated k (record k { screen = v })
Isolated-screen k v = record {
  pmm = refl;
  heap = refl;
  kernel_pd = refl;
  proc_table = refl;
  next_pid = refl;
  tick_count = refl;
  current = refl;
  queue_head = refl;
  queue_tail = refl;
  queue_size = refl;
  zombie_head = refl;
  esp0 = refl;
  esp = refl;
  cr3 = refl;
  files = refl;
  others = λ x ne. refl;
}

-- How a call ends.
pub record Ended (k : Kernel) (r : Registers) (run : Run (ℕ × Kernel)) : Type 0 where
  pub result : ℕ
  pub after : Kernel
  pub ends : run ≡ done (result, after)
  pub isolated : Isolated k after
  pub outside : (a : ℕ) → (a < r.ecx) ⊎ (r.ecx + r.edx ≤ a) → after.mem a ≡ k.mem a
  pub unknown : 5 < r.eax → result ≡ minus_one

module _ (k : Kernel) (r : Registers) where
  Ended-io :
      (x : ℕ × Io)
      → r.eax ≤ 5
      → x.1.files ≡ k.files
      → ((a : ℕ) → (a < r.ecx) ⊎ (r.ecx + r.edx ≤ a) → x.1.mem a ≡ k.mem a)
      → Ended k r (done (with_io k x))
  Ended-io x l files out = record {
    result = x.0;
    after = (with_io k x).1;
    ends = refl;
    isolated = Isolated-io k x files;
    outside = out;
    unknown = λ h. absurd (omega (arith, l, h));
  }

  Ended-Leaves :
      (x : ℕ × Io) → r.eax ≤ 5 → Leaves (io_of k) r.ecx r.edx x.1 → Ended k r (done (with_io k x))
  Ended-Leaves x l v = Ended-io x l v.files v.outside

  Ended-write : r.eax ≤ 5 → Ended k r (done (with_io k (sys_write (io_of k) r.ebx r.ecx r.edx)))
  unfolding sys_write
  Ended-write l = elim (Bool-cases (not (r.ebx == 1) || r.ecx == 0)) [
    | inl e ↦ rw e (Ended-io (minus_one, io_of k) l refl (λ a out. refl))
    | inr e ↦ rw e (
        Ended-io (r.edx, record (io_of k) { screen = write_loop r.edx k.mem r.ecx k.screen }) l refl
          (λ a out. refl))
  ]

  unknown_call-Ended : r.eax < u32_mod → Ended k r (unknown_call k r.eax)
  unfolding unknown_call
  unknown_call-Ended word =
      let (v, out) =
        kprint_int-some (kprint (vga_set_color k.screen 12) (text "[syscall] unknown number: "))
          r.eax in
      rw out (record {
        result = minus_one;
        after = record k { screen = vga_set_color (kprint v (text "\n")) 7 };
        ends = refl;
        isolated = Isolated-screen k (vga_set_color (kprint v (text "\n")) 7);
        outside = λ a off. refl;
        unknown = λ h. refl;
      })

  module _ (own : ℕ → Bool) (fuel : ℕ) (word : r.eax < u32_mod) (not_exit : r.eax ≢ 1)
      (not_yield : r.eax ≢ 2) (buffer : (r.eax ≡ 0) ⊎ (r.eax ≡ 4) → touches own r.edx r.ecx ≡ false)
      (path : r.eax ≡ 3
        → r.ebx ≢ 0
        → (p : List ℕ) × (string_at fuel k.mem r.ebx ≡ some p)
          × (touches own (length p + 1) r.ebx ≡ false)) where
    open-Ended : r.eax ≢ 0 → r.eax ≡ 3 → Ended k r (syscall_handler own fuel k r)
    unfolding syscall_handler sys_open
    open-Ended n0 e =
        rw (ne→== r.eax 0 n0, ne→== r.eax 1 not_exit, ne→== r.eax 2 not_yield, eq→== r.eax 3 e)
          (elim (ℕ_discrete r.ebx 0) [
            | yes z ↦
                rw (eq→== r.ebx 0 z)
                  (Ended-io (minus_one, io_of k) (omega (arith, e)) refl (λ a out. refl))
            | no nz ↦
                let (p, found, apart) = path e nz in
                rw (ne→== r.ebx 0 nz, found, apart)
                  (Ended-Leaves (sys_open (io_of k) (some p)) (omega (arith, e))
                    (open-Leaves (io_of k) p r.ecx r.edx))
          ])

    file_call-Ended : r.eax ≢ 0 → r.eax ≢ 3 → Ended k r (syscall_handler own fuel k r)
    unfolding syscall_handler
    file_call-Ended n0 n3 =
        rw (ne→== r.eax 0 n0, ne→== r.eax 1 not_exit, ne→== r.eax 2 not_yield, ne→== r.eax 3 n3)
          (elim (ℕ_discrete r.eax 4) [
            | yes e ↦
                rw (eq→== r.eax 4 e, buffer (inr e))
                  (Ended-Leaves (sys_read (io_of k) r.ebx r.ecx r.edx) (omega (arith, e))
                    (read-Leaves (io_of k) r.ebx r.ecx r.edx))
            | no n4 ↦ elim (ℕ_discrete r.eax 5) [
              | yes e ↦
                  rw (ne→== r.eax 4 n4, eq→== r.eax 5 e)
                    (Ended-Leaves (sys_close (io_of k) r.ebx) (omega (arith, e))
                      (close-Leaves (io_of k) r.ebx r.ecx r.edx))
              | no n5 ↦ rw (ne→== r.eax 4 n4, ne→== r.eax 5 n5) (unknown_call-Ended word)
            ]
          ])

    -- Every system call but exit and yield ends, when its buffer or its path does not reach the statics
    -- and the process structures of the kernel, and, for an open, the fuel reaches the NUL of the path.
    -- It changes the screen, the caller's own structure and the bytes of its buffer, and leaves alone
    -- all other memory, the frames, the heap, the files, the table of processes, the queue, the
    -- registers of the scheduler and every other process. A call with an unknown number, a fork among
    -- them, gives -1.
    pub syscall_handler-Ended : Ended k r (syscall_handler own fuel k r)
    unfolding syscall_handler
    syscall_handler-Ended = elim (ℕ_discrete r.eax 0) [
      | yes e ↦ rw (eq→== r.eax 0 e, buffer (inl e)) (Ended-write (omega (arith, e)))
      | no n0 ↦ elim (ℕ_discrete r.eax 3) [
        | yes e ↦ open-Ended n0 e
        | no n3 ↦ file_call-Ended n0 n3
      ]
    ]
