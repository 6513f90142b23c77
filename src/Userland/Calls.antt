-- ===== src/Userland/Calls.antt =====
-- The calls that userland/test_prog.c makes, one by one.
use stak_os.Base.{
  Bool, true, zero, suc, false, ◌||◌, ℕ, ◌+◌, ◌≤◌, ◌<◌, ◌≡◌, ◌≢◌, ◌⊎◌, refl, ap, ◌∙◌, true, some,
  List, arith, ne→==, length,
}
use stak_os.Base.Run.{Run, done}
use stak_os.Memory.{Mem}
use stak_os.Vga.{Vga, kprint}
use stak_os.Syscall.{Io, sys_open, sys_read, sys_close, sys_write}
use stak_os.Kernel.{Kernel}
use stak_os.Kernel.Exit.{touches, syscall_handler, io_of, with_io}
use stak_os.Kernel.Calls.{Isolated, Isolated-io}
use stak_os.Userland.{length_loop, syscall3, write}
use stak_os.Userland.Strings.{holds, holds-same, length_loop_lem, write_loop_lem, string_at_lem}
use stak_os.Syscall.Effects.{Leaves, open-Leaves, close-Leaves, read-Leaves}

-- A string of the program, apart from the address 0, from its buffer and from the kernel's own data.
pub record IsPlaced (own : ℕ → Bool) (m : Mem) (buf p : ℕ) (s : List ℕ) : Type 0 where
  pub nonnull : p ≢ 0
  pub string : holds m p s ≡ true
  pub foreign : touches own (length s + 1) p ≡ false
  pub apart : (p + length s < buf) ⊎ (buf + 4 ≤ p)

-- What some calls of the program do: the screen is then `v`, and of the memory only the buffer may
-- have changed.
pub record Did (k k' : Kernel) (buf : ℕ) (v : Vga) : Type 0 where
  pub isolated : Isolated k k'
  pub screen : k'.screen ≡ v
  pub outside : (a : ℕ) → (a < buf) ⊎ (buf + 4 ≤ a) → k'.mem a ≡ k.mem a

Isolated-trans : {k k' k'' : Kernel} → Isolated k k' → Isolated k' k'' → Isolated k k''
Isolated-trans i j = record {
  pmm = j.pmm ∙ i.pmm;
  heap = j.heap ∙ i.heap;
  kernel_pd = j.kernel_pd ∙ i.kernel_pd;
  proc_table = j.proc_table ∙ i.proc_table;
  next_pid = j.next_pid ∙ i.next_pid;
  tick_count = j.tick_count ∙ i.tick_count;
  current = j.current ∙ i.current;
  queue_head = j.queue_head ∙ i.queue_head;
  queue_tail = j.queue_tail ∙ i.queue_tail;
  queue_size = j.queue_size ∙ i.queue_size;
  zombie_head = j.zombie_head ∙ i.zombie_head;
  esp0 = j.esp0 ∙ i.esp0;
  esp = j.esp ∙ i.esp;
  cr3 = j.cr3 ∙ i.cr3;
  files = j.files ∙ i.files;
  others = λ x ne. j.others x (λ e. ne (e ∙ i.current)) ∙ i.others x ne;
}

pub Did-trans :
    {k k' k'' : Kernel} {buf : ℕ} {v w : Vga} → Did k k' buf v → Did k' k'' buf w → Did k k'' buf w
Did-trans d e = record {
  isolated = Isolated-trans d.isolated e.isolated;
  screen = e.screen;
  outside = λ a out. e.outside a out ∙ d.outside a out;
}

pub Did-IsPlaced :
    {own : ℕ → Bool} {k k' : Kernel} {buf : ℕ} {v : Vga} {p : ℕ} (s : List ℕ)
    → Did k k' buf v
    → IsPlaced own k.mem buf p s
    → IsPlaced own k'.mem buf p s
Did-IsPlaced {own} {k} {k'} {buf} {v} {p} s d i = record {
  nonnull = i.nonnull;
  string =
      holds-same s k.mem k'.mem p (λ a l l'. d.outside a (ground (arith, i.apart, l, l'))) i.string;
  foreign = i.foreign;
  apart = i.apart;
}

Leaves-Did :
    (k : Kernel) (buf : ℕ) (r : ℕ × Io)
    → Leaves (io_of k) buf 4 r.1
    → Did k (with_io k r).1 buf k.screen
Leaves-Did k buf r l = record {
  isolated = Isolated-io k r l.files;
  screen = l.screen;
  outside = l.outside;
}

neither : (a b : Bool) → (a || b) ≡ false → (a ≡ false) × (b ≡ false)
neither true b e = cc
neither false b e = (refl, e)

touches-less : (own : ℕ → Bool) (n p : ℕ) → touches own (suc n) p ≡ false → touches own n p ≡ false
unfolding touches
touches-less own zero p e = refl
touches-less own (suc n) p e =
    let (here, rest) = neither (own p) (touches own (suc n) (p + 1)) e in
    rw here (touches-less own n (p + 1) rest)

-- A call that comes back.
abbrev pub Returns : Kernel → (buf : ℕ) → Vga → Run (ℕ × Kernel) → Type 0
Returns k buf v r = (result : ℕ) × (k' : Kernel) × (r ≡ done (result, k')) × Did k k' buf v

module _ (own : ℕ → Bool) (fuel : ℕ) (k : Kernel) (buf : ℕ) where
  pub write_lem :
      (p : ℕ) (s : List ℕ)
      → IsPlaced own k.mem buf p s
      → length s < fuel
      → Returns k buf (kprint k.screen s) (write own fuel k p)
  unfolding write syscall_handler sys_write
  write_lem p s i l =
      let next : suc (length s) ≡ length s + 1 = omega arith in
      let first : p + 0 ≡ p = omega arith in
      let len : length_loop fuel k.mem p 0 ≡ some (length s) =
        length_loop_lem s fuel k.mem p 0 (rw first i.string) l ∙ ap some (omega arith) in
      let io : Io = record (io_of k) { screen = kprint k.screen s } in
      (
        length s,
        (with_io k (length s, io)).1,
        rw
            (
              len,
              touches-less own (length s) p (rw next i.foreign),
              ne→== p 0 i.nonnull,
              write_loop_lem s k.mem p k.screen i.string,
            )
            refl,
        record {
          isolated = Isolated-io k (length s, io) refl;
          screen = refl;
          outside = λ a out. refl;
        },
      )

  pub open_lem :
      (p : ℕ) (s : List ℕ)
      → IsPlaced own k.mem buf p s
      → length s < fuel
      → Returns k buf k.screen (syscall3 own fuel k 3 p 0 0)
  unfolding syscall_handler
  open_lem p s i l =
      let r = sys_open (io_of k) (some s) in
      (
        r.0,
        (with_io k r).1,
        rw (ne→== p 0 i.nonnull, string_at_lem s fuel k.mem p i.string l, i.foreign) refl,
        Leaves-Did k buf r (open-Leaves (io_of k) s buf 4),
      )

  pub read_lem :
      (fd : ℕ) → touches own 4 buf ≡ false → Returns k buf k.screen (syscall3 own fuel k 4 fd buf 4)
  unfolding syscall_handler
  read_lem fd foreign =
      let r = sys_read (io_of k) fd buf 4 in
      (r.0, (with_io k r).1, rw foreign refl, Leaves-Did k buf r (read-Leaves (io_of k) fd buf 4))

  pub close_lem : (fd : ℕ) → Returns k buf k.screen (syscall3 own fuel k 5 fd 0 0)
  unfolding syscall_handler
  close_lem fd =
      let r = sys_close (io_of k) fd in
      (r.0, (with_io k r).1, refl, Leaves-Did k buf r (close-Leaves (io_of k) fd buf 4))
