-- ===== src/Kmalloc/Tests.antt =====
-- The heap on the sample chain, and its start.
use stak_os.Base.{ℕ, ◌≡◌, ◌≢◌, ◌⊎◌, inl, refl, ◌&&◌, false, some, List, arith, leb}
use stak_os.Memory.{Mem}
use stak_os.Kmalloc.{kmalloc_init, align4, kmalloc, kfree, returns}
use stak_os.Pmm.Sample.{sample_pmm, sample_pmm-IsValid, zero_used}
use stak_os.Kmalloc.Init.{Initialised, kmalloc_init-Initialised}
use stak_os.Kmalloc.Sample.{memory, heap, blocks, heap-IsHeap}
use stak_os.Kmalloc.Chain.{Block}
use stak_os.Kmalloc.Live.{Live, AllBlocks, footprint}
use stak_os.Kmalloc.Merged.{Settled}
use stak_os.Kmalloc.Calls.{IsHeap}
use stak_os.Kmalloc.Contract.{GivesBlock, kmalloc-fresh, kfree-releases}

kmalloc-fresh_example :
    (ptr : ℕ) × (after : Mem) × (bs' : List Block) × (kmalloc 3 heap memory 100 ≡ some (ptr, after))
    × IsHeap after heap bs'
    × (footprint bs' ≡ footprint blocks)
    × ((a n : ℕ) → Live a n blocks → Live a n bs')
    × (((ptr ≡ 0) × AllBlocks (λ b. (b.is_free && leb (align4 100) b.bytes) ≡ false) blocks)
        ⊎ ((ptr ≢ 0) × GivesBlock 100 blocks bs' ptr))
kmalloc-fresh_example = kmalloc-fresh heap-IsHeap 3 100 (omega arith) (omega arith) (omega arith)

kfree-releases_example :
    (after : Mem) × (bs' : List Block) × (kfree 3 heap memory 4112 ≡ some (returns after))
    × IsHeap after heap bs'
    × (footprint bs' ≡ footprint blocks)
    × ((k : ℕ) → ¬ (Live 4096 k bs'))
    × ((a' k : ℕ) → a' ≢ 4096 → Live a' k blocks → Live a' k bs')
    × ((a' k : ℕ) → Live a' k bs' → Live a' k blocks)
    × Settled bs'
kfree-releases_example = kfree-releases heap-IsHeap 3 4096 64 (inl (refl, refl, refl)) (omega arith)

kmalloc_init-Initialised_example :
    Initialised 0 4
      (λ a. 0)
      sample_pmm
      (kmalloc_init 4 (record { heap_start = 0; heap_total_bytes = 0 }) (λ a. 0) sample_pmm)
kmalloc_init-Initialised_example = kmalloc_init-Initialised (λ a. 0) sample_pmm-IsValid zero_used 4
