-- ===== src/RamFs/Tests.antt =====
-- The file table with two slots, the first in use by a file named "a".
use stak_os.Base.{false, List, [], ◌∷◌}
use stak_os.RamFs.{RamFile}
use stak_os.RamFs.Table.{new_file}

abbrev file_a : RamFile
file_a = new_file (97 ∷ []) 4096 10

abbrev unused : RamFile
unused = record file_a { in_use = false }

abbrev table : List RamFile
table = file_a ∷ unused ∷ []

abbrev both : List RamFile
both = file_a ∷ new_file (98 ∷ []) 8192 20 ∷ []
