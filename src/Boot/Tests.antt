-- ===== src/Boot/Tests.antt =====
-- The machine that starts with the sample kernel.
use stak_os.Base.{inr, arith, ◌≡◌, refl, none, false, [], ◌∷◌, ◌++◌, replicate}
use stak_os.Base.Run.{done, ◌>>=◌}
use stak_os.Keyboard.{keyboard_handler}
use stak_os.Kernel.Exit.{pit_handler}
use stak_os.Kernel.Sample.{sample_kernel}
use stak_os.Boot.{
  Links, Machine, init_tables, running_machine, interrupt, kernel_main, multiboot2_magic,
}
use stak_os.Pmm.Sample.{sample_info, sample_tags, sample_info-AreTags}
use stak_os.Boot.Main.{IsStarted, kernel_main-IsStarted}
use stak_os.Boot.Handlers.{interrupt-started}

abbrev links : Links
links = record {
  image = record { idle_pcb = 0; stack_top = 0; process_exit_at = 0; trampoline_at = 0 };
  fuel = 4;
  kernel_end = 0;
  kernel_pd = 0;
  identity_pts = 0;
  tss_at = 0;
  isr = λ n. 0;
  irq = λ n. 0;
  isr128 = 0;
  mask1 = 0;
  mask2 = 0;
  test_prog_blob = 0;
  test_prog_blob_size = 0;
}

abbrev off : Machine
off = record {
  kernel = sample_kernel;
  keyboard = record { kb_buf = replicate 256 0; kb_head = 0; kb_tail = 0; shift = false };
  gdt = [];
  tss = record { esp0 = 0; ss0 = 0; iomap_base = 0 };
  idt = [];
  handlers = replicate 16 none;
  ports = [];
}

abbrev on : Machine
on = running_machine (init_tables links off) sample_kernel

abbrev told : Machine
told = record on { ports = on.ports ++ ((0x20, 0x20) ∷ []) }

interrupt-started_example :
    (interrupt 4 on 32 30
      ≡ (pit_handler 4 sample_kernel >>= (λ k'. done (record told { kernel = k' }))))
    × (interrupt 4 on 33 30 ≡ done (record told { keyboard = keyboard_handler on.keyboard 30 }))
interrupt-started_example = interrupt-started links off sample_kernel refl 4 30

-- The kernel ends at 2 MB, with its tables at 1 MB and the idle process at 100.
abbrev linked : Links
linked = record links {
  image = record { idle_pcb = 100; stack_top = 0; process_exit_at = 0; trampoline_at = 0 };
  fuel = 20;
  kernel_end = 2_097_152;
  kernel_pd = 1_081_344;
  identity_pts = 1_048_576;
}

abbrev loaded : Machine
loaded = record off {
  kernel = record sample_kernel {
    mem = sample_info;
    pmm = record { bitmap = []; total_frames = 0; free_frames = 0 };
  };
}

kernel_main-IsStarted_example :
    (m' : Machine) × (kernel_main linked loaded multiboot2_magic 4096 ≡ done m')
    × IsStarted linked 4096 sample_tags m'.kernel
kernel_main-IsStarted_example =
    kernel_main-IsStarted linked 4096 sample_tags (omega arith) loaded
      (record {
        tags = sample_info-AreTags;
        few = omega arith;
        end_word = omega arith;
        tables_page = refl;
        directory_page = refl;
        tables_inside = omega arith;
        directory_inside = omega arith;
        apart = inr (omega arith);
        heap_zero = refl;
        none_free = refl;
        fuel_tags = omega arith;
        fuel_heap = omega arith;
      })
      refl
