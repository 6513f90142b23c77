-- ===== src/Kernel/Tests.antt =====
-- The end of the current process of the sample kernel, system calls, ticks and new processes.
use stak_os.Base.{Bool, false, leb, ◌==◌, if◌then◌else◌, ℕ, ◌≡◌, refl, List, arith}
use stak_os.Memory.{load32}
use stak_os.Kmalloc.Sample.{memory, heap}
use stak_os.Process.{zombie, Process, put}
use stak_os.Kernel.{Kernel, Image}
use stak_os.Kernel.Create.{zeroed, push_words, first_frame}
use stak_os.Kernel.Context.{Context, save_context, restore_context}
use stak_os.Kernel.Context.Resume.{restore-save, first_frame-starts}
use stak_os.Kernel.Exit.{Registers, touches, syscall_handler}
use stak_os.Kernel.Sample.{sample_sched, sample_kernel}
use stak_os.Kernel.Calls.{Ended, syscall_handler-Ended}

-- The static variables from 0x10_0000 on.
abbrev statics : ℕ → Bool
statics a = leb 0x10_0000 a

-- A read of 4 bytes to 8192, from a descriptor that is not open.
abbrev read_call : Registers
read_call = record { eax = 4; ebx = 3; ecx = 8192; edx = 4 }

apart : touches statics 4 8192 ≡ false
unfolding touches
apart = refl

syscall_handler-Ended_example :
    Ended sample_kernel read_call (syscall_handler statics 3 sample_kernel read_call)
syscall_handler-Ended_example =
    syscall_handler-Ended sample_kernel read_call statics 3 (omega arith) (omega arith)
      (omega arith) (λ _. apart) (λ e nz. absurd (omega (arith, e)))

-- The process of the block at 4096 is a zombie without a parent.
abbrev orphaned : Kernel
orphaned = record sample_kernel {
  mem = memory;
  heap = heap;
  sched = record sample_sched {
    procs = λ p.
        if p == 4112
        then record zeroed { pid = 3; state = zombie; parent_pid = 9 }
        else sample_sched.procs p;
    zombie_head = 4112;
  };
}

-- The process of the block at 4096 is created.
abbrev newcomer : Process
newcomer = record zeroed { pid = 3 }

abbrev creating : (table : List ℕ) → Kernel
creating table = record sample_kernel {
  mem = memory;
  heap = heap;
  sched = record sample_sched { procs = put sample_sched.procs 4112 newcomer };
  proc_table = table;
}

abbrev stopped : Context
stopped = record {
  edi = 1;
  esi = 2;
  ebp = 3;
  ebx = 4;
  edx = 5;
  ecx = 6;
  eax = 7;
  eflags = 514;
  eip = 1_048_576;
  esp = 8192;
}

restore-save_example :
    let (esp, m') = save_context (λ a. 0) stopped in restore_context m' esp ≡ stopped
restore-save_example =
    restore-save (λ a. 0) stopped
      (record {
        edi_word = omega arith;
        esi_word = omega arith;
        ebp_word = omega arith;
        ebx_word = omega arith;
        edx_word = omega arith;
        ecx_word = omega arith;
        eax_word = omega arith;
        eflags_word = omega arith;
        eip_word = omega arith;
        esp_room = omega arith;
        esp_aligned = refl;
      })

abbrev image : Image
image = record { idle_pcb = 100; stack_top = 0; process_exit_at = 1_052_672; trampoline_at = 0 }

first_frame-starts_example :
    let (esp, m') = push_words (λ a. 0) 12288 (first_frame image 1_056_768) in
    (restore_context m' esp ≡ record {
      edi = 0;
      esi = 0;
      ebp = 0;
      ebx = 0;
      edx = 0;
      ecx = 0;
      eax = 0;
      eflags = 0x202;
      eip = 1_056_768;
      esp = 12284;
    })
    × (load32 m' 12284 ≡ 1_052_672)
first_frame-starts_example =
    first_frame-starts image (λ a. 0) 12288 1_056_768 (omega arith) refl (omega arith) (omega arith)
