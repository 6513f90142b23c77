-- ===== src/Vga/Tests.antt =====
-- The screen with its cursor in the last cell.
use stak_os.Base.{arith}
use stak_os.Vga.{Vga, vga_putchar}
use stak_os.Vga.Screen.{OnScreen, Kept, vga_putchar-Kept}

abbrev corner : Vga
corner = record { vga_buf = λ k. 0; vga_row = 24; vga_col = 79; vga_color = 7 }

corner-OnScreen : OnScreen corner
corner-OnScreen = record { row = omega arith; col = omega arith }

vga_putchar-Kept_example : Kept corner (vga_putchar corner 65)
vga_putchar-Kept_example = vga_putchar-Kept corner 65 corner-OnScreen
