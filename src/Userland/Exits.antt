-- ===== src/Userland/Exits.antt =====
-- userland/test_prog.c from its start to its exit.
use stak_os.Base.{
  Bool, false, ℕ, ◌<◌, ◌≡◌, inl, inr, refl, ap, ◌∙◌, ◌&&◌, List, ◌==◌, ltb, arith, Bool-cases,
  length,
}
use stak_os.Base.Text.{text}
use stak_os.Base.Run.{Run, done, ◌>>=◌}
use stak_os.Memory.{Mem}
use stak_os.Vga.{Vga, kprint}
use stak_os.Kernel.{Kernel}
use stak_os.Kernel.Exit.{process_exit, touches, syscall_handler}
use stak_os.Userland.{Layout, syscall3, write, is_magic, read_back, before_exit, start}
use stak_os.Userland.Calls.{
  write_lem, open_lem, read_lem, close_lem, IsPlaced, Did, Did-trans, Did-IsPlaced, Returns,
}

abbrev pub greeting : List ℕ
greeting = text "hello from a real loaded ELF binary\n"

abbrev pub read_ok : List ℕ
read_ok = text "ring-3 file read: ELF magic OK\n"

abbrev pub read_bad : List ℕ
read_bad = text "ring-3 file read: MISMATCH\n"

abbrev pub open_failed : List ℕ
open_failed = text "ring-3 file open: FAILED\n"

-- The strings of the program stand in memory.
pub record IsLoaded (own : ℕ → Bool) (m : Mem) (l : Layout) : Type 0 where
  pub msg : IsPlaced own m l.buf l.msg greeting
  pub path : IsPlaced own m l.buf l.path (text "test.elf")
  pub ok : IsPlaced own m l.buf l.ok read_ok
  pub bad : IsPlaced own m l.buf l.bad read_bad
  pub fail : IsPlaced own m l.buf l.fail open_failed

Did-IsLoaded :
    {own : ℕ → Bool} {k k' : Kernel} {l : Layout} {v : Vga}
    → Did k k' l.buf v
    → IsLoaded own k.mem l
    → IsLoaded own k'.mem l
Did-IsLoaded d i = record {
  msg = Did-IsPlaced greeting d i.msg;
  path = Did-IsPlaced (text "test.elf") d i.path;
  ok = Did-IsPlaced read_ok d i.ok;
  bad = Did-IsPlaced read_bad d i.bad;
  fail = Did-IsPlaced open_failed d i.fail;
}

-- The second line on the screen.
pub data Verdict : List ℕ → Type 0 where
  checked : Verdict read_ok
  mismatch : Verdict read_bad
  not_opened : Verdict open_failed

-- A part of the program that comes back after one more line.
abbrev Prints : Kernel → (buf : ℕ) → Vga → Run (ℕ × Kernel) → Type 0
Prints k buf v r = (line : List ℕ) × Verdict line × Returns k buf (kprint v line) r

Did-screen : {k k' : Kernel} {buf : ℕ} {v w : Vga} → Did k k' buf v → v ≡ w → Did k k' buf w
Did-screen d e = record { isolated = d.isolated; screen = d.screen ∙ e; outside = d.outside }

module _ (own : ℕ → Bool) (l : Layout) (fuel : ℕ) (enough : 36 < fuel)
    (buffer : touches own 4 l.buf ≡ false) where
  write_close :
      (k k1 : Kernel) (fd p : ℕ) (line : List ℕ)
      → Did k k1 l.buf k.screen
      → IsPlaced own k1.mem l.buf p line
      → length line < fuel
      → Returns k l.buf
          (kprint k.screen line)
          (do w ← write own fuel k1 p; syscall3 own fuel w.1 5 fd 0 0)
  write_close k k1 fd p line d1 i small =
      let (w, k2, e2, d2) = write_lem own fuel k1 l.buf p line i small in
      let (c, k3, e3, d3) = close_lem own fuel k2 l.buf fd in
      (
        c,
        k3,
        rw e2 e3,
        Did-screen (Did-trans d1 (Did-trans d2 d3)) (d2.screen ∙ ap (λ v. kprint v line) d1.screen),
      )

  read_back-Prints :
      (k : Kernel) (fd : ℕ)
      → IsLoaded own k.mem l
      → Prints k l.buf k.screen (read_back own l fuel k fd)
  unfolding read_back
  read_back-Prints k fd i =
      let (n, k1, e1, d1) = read_lem own fuel k l.buf fd buffer in
      let i1 = Did-IsLoaded d1 i in
      elim (Bool-cases (n == 4 && is_magic k1.mem l.buf)) [
        | inl good ↦
            let (c, k2, e2, d2) =
              write_close k k1 fd l.ok read_ok d1 i1.ok (omega (arith, enough)) in
            (read_ok, checked, (c, k2, rw (e1, good) e2, d2))
        | inr not_good ↦
            let (c, k2, e2, d2) =
              write_close k k1 fd l.bad read_bad d1 i1.bad (omega (arith, enough)) in
            (read_bad, mismatch, (c, k2, rw (e1, not_good) e2, d2))
      ]

  before_exit-Prints :
      (k : Kernel)
      → IsLoaded own k.mem l
      → Prints k l.buf (kprint k.screen greeting) (before_exit own l fuel k)
  unfolding before_exit
  before_exit-Prints k i =
      let (w, k1, e1, d1) =
        write_lem own fuel k l.buf l.msg greeting i.msg (omega (arith, enough)) in
      let i1 = Did-IsLoaded d1 i in
      let (fd, k2, e2, d2) =
        open_lem own fuel k1 l.buf l.path (text "test.elf") i1.path (omega (arith, enough)) in
      let i2 = Did-IsLoaded d2 i1 in
      let so_far : Did k k2 l.buf (kprint k.screen greeting) =
        Did-screen (Did-trans d1 d2) d1.screen in
      elim (Bool-cases (ltb fd 2_147_483_648)) [
        | inl opened ↦
            let (line, verdict, (c, k3, e3, d3)) = read_back-Prints k2 fd i2 in
            (
              line,
              verdict,
              (
                c,
                k3,
                rw (e1, e2, opened) e3,
                Did-screen (Did-trans so_far d3) (ap (λ v. kprint v line) so_far.screen),
              ),
            )
        | inr not_opened_ ↦
            let (c, k3, e3, d3) =
              write_lem own fuel k2 l.buf l.fail open_failed i2.fail (omega (arith, enough)) in
            (
              open_failed,
              not_opened,
              (
                c,
                k3,
                rw (e1, e2, not_opened_) e3,
                Did-screen (Did-trans so_far d3) (ap (λ v. kprint v open_failed) so_far.screen),
              ),
            )
      ]

  -- With its strings in memory, apart from address 0, from its buffer and, like the buffer, from the
  -- kernel's statics and process structures, and fuel for the longest string, the demonstration
  -- program reaches its exit with code 0 in every state of the kernel. By then it has printed its
  -- greeting and one line more, and of the memory only the four bytes of its buffer may have changed,
  -- of the processes only its own, and the frames, the heap, the files, the table of processes and the
  -- queue are as before.
  pub start-exits :
      (k : Kernel)
      → IsLoaded own k.mem l
      → (line : List ℕ) × (k' : Kernel) × Verdict line
        × Did k k' l.buf (kprint (kprint k.screen greeting) line)
        × (start own l fuel k ≡ (do k1 ← process_exit fuel k' 0; done (0, k1)))
  unfolding start syscall_handler
  start-exits k i =
      let (line, verdict, (c, k', e, d)) = before_exit-Prints k i in
      (line, k', verdict, d, rw e refl)
