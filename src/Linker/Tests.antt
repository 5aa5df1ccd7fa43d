-- ===== src/Linker/Tests.antt =====
-- An application at 1000 with two words in its global offset table and one in its procedure table.
use operating_system_cortex.Base.{◌≡◌, refl, ◌==◌, if◌then◌else◌, arith, ok, inr}
use operating_system_cortex.Linker.{Words, dynamic_linker}
use operating_system_cortex.Linker.Relocation.{Linked, dynamic_linker-Linked}

abbrev words : Words
words a =
    if a == 1012
    then 100
    else if a == 1016
    then 108
    else if a == 1020
    then 200
    else if a == 1024
    then 204
    else 0x40

dynamic_linker-Linked_example :
    (m' : Words) × (dynamic_linker 3 1000 words ≡ ok m') × Linked 1000 1100 2 1200 1 words m'
dynamic_linker-Linked_example =
    dynamic_linker-Linked 3 1000 1100 2 1200 1 words
      (refl, refl, refl, refl, omega arith, inr (omega arith)) (omega arith) (omega arith)
      (omega arith) (omega arith)
