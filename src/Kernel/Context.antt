-- ===== src/Kernel/Context.antt =====
-- boot/context_switch.asm: the registers on the stack of a process that does not run.
pub mod Resume
use stak_os.Base.{ℕ, ◌+◌, [], ◌∷◌}
use stak_os.Memory.{Mem, load32}
use stak_os.Kernel.Create.{push_words}

-- What a process goes on with: `eip` is where the call of `context_switch` returns to, and `esp` the
-- stack pointer then.
pub record Context : Type 0 where
  pub edi : ℕ
  pub esi : ℕ
  pub ebp : ℕ
  pub ebx : ℕ
  pub edx : ℕ
  pub ecx : ℕ
  pub eax : ℕ
  pub eflags : ℕ
  pub eip : ℕ
  pub esp : ℕ

-- The call, and the pushes: the stack pointer that goes into the old process, and the memory.
pub save_context : Mem → Context → ℕ × Mem
save_context m c =
    push_words m c.esp
      (c.eip ∷ c.eflags ∷ c.eax ∷ c.ecx ∷ c.edx ∷ c.ebx ∷ c.ebp ∷ c.esi ∷ c.edi ∷ [])

-- The pops from the stack pointer of the new process on, and the return.
pub restore_context : Mem → (esp : ℕ) → Context
restore_context m esp = record {
  edi = load32 m esp;
  esi = load32 m (esp + 4);
  ebp = load32 m (esp + 8);
  ebx = load32 m (esp + 12);
  edx = load32 m (esp + 16);
  ecx = load32 m (esp + 20);
  eax = load32 m (esp + 24);
  eflags = load32 m (esp + 28);
  eip = load32 m (esp + 32);
  esp = esp + 36;
}
