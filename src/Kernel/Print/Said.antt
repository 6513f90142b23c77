-- ===== src/Kernel/Print/Said.antt =====
-- Printing always succeeds, and changes nothing but the screen.
use stak_os.Base.{ℕ, ◌<◌, ◌≡◌, refl, true, false, some, List, [], ◌∷◌, length}
use stak_os.Base.Run.{done}
use stak_os.Base.Text.{text}
use stak_os.Kmalloc.Chain.{Block}
use stak_os.Kmalloc.Calls.{IsHeap}
use stak_os.Kmalloc.Counts.{blocks_of, bytes_of, kmalloc_stats_lem}
use stak_os.Vga.{Vga, vga_set_color, vga_putchar, kprint, kprint_hex}
use stak_os.Vga.Digits.{kprint_int-some}
use stak_os.Kernel.{Kernel}
use stak_os.Kernel.Print.{
  Piece, lit, str, int, hex, chr, color, print, print_all, say, print_heap, kmalloc_print_stats,
}

print-some : (v : Vga) (p : Piece) → (w : Vga) × (print v p ≡ some w)
unfolding print
print-some v (lit s) = (kprint v (text s), refl)
print-some v (str s) = (kprint v s, refl)
print-some v (int n) = kprint_int-some v n
print-some v (hex n) = (kprint_hex v n, refl)
print-some v (chr c) = (vga_putchar v c, refl)
print-some v (color c) = (vga_set_color v c, refl)

print_all-some : (v : Vga) (ps : List Piece) → (w : Vga) × (print_all v ps ≡ some w)
unfolding print_all
print_all-some v [] = (v, refl)
print_all-some v (p ∷ ps) =
    let (w, e) = print-some v p in let (x, e') = print_all-some w ps in (x, rw (print_all, e) e')

pub say-done :
    (k : Kernel) (ps : List Piece) → (w : Vga) × (say k ps ≡ done (record k { screen = w }))
unfolding say
say-done k ps = let (w, e) = print_all-some k.screen ps in (w, rw (say, e) refl)

-- The report of a well-formed heap is printed, with more fuel than blocks.
pub kmalloc_print_stats-done :
    (fuel : ℕ) (k : Kernel) (bs : List Block)
    → IsHeap k.mem k.heap bs
    → length bs < fuel
    → (w : Vga) × (kmalloc_print_stats fuel k ≡ done (record k { screen = w }))
unfolding kmalloc_print_stats
kmalloc_print_stats-done fuel k bs v l =
    let stats = kmalloc_stats_lem fuel k.mem k.heap bs v l in
    let (w, e) = say-done k (
      print_heap k.heap (record {
        total_blocks = length bs;
        free_blocks = blocks_of true bs;
        used_blocks = blocks_of false bs;
        free_bytes = bytes_of true bs;
        used_bytes = bytes_of false bs;
      })) in
    (w, rw (kmalloc_print_stats, stats) e)
