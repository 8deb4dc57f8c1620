-- ===== src/Elf/Examples.antt =====
-- kernel/kernel/elf.c with an executable of one segment.
use hojicha.CString.{Memory}
use hojicha.Elf.{
  ElfHeader, ProgramHeader, Elf, Bytes, is_valid_header, elf_read, elf_map, load_segments,
  prepare_user_stack, elf_launch,
}
use hojicha.Elf.Stack.{total, Ready, prepare_user_stack-Ready}
use hojicha.Elf.Load.{AllFit, Outside}
use hojicha.Elf.Start.{Started, elf_launch-Started}
use hojicha.Common.{◌≡◌, inr, refl, List, [], ◌∷◌, map, none, some, true, false, arith}

abbrev header : ElfHeader
header = record {
  magic = 1179403647;
  bits = 2;
  abi = 0;
  type_of_file = 2;
  isa = 62;
  offset_entry = 2097152;
  offset_prog_header_table = 64;
  count_prog_header_table_entry = 1;
}

-- Two bytes of the file, and two more in memory.
abbrev segment : ProgramHeader
segment = record {
  type_of_segment = 1;
  buffer_offset = 120;
  load_vaddr = 2097152;
  buffer_size = 2;
  mapped_size = 4;
}

abbrev elf : Elf
elf = record { header = header; program_headers = segment ∷ []; buffer = 4294967296 }

abbrev file : Memory
file = λ q. 7

-- "ls" with the argument "-l".
abbrev argv : List Bytes
argv = (108 ∷ 115 ∷ []) ∷ (45 ∷ 108 ∷ []) ∷ []

-- Of an executable and of one for another machine.
headers :
    (is_valid_header header ≡ true)
    × (is_valid_header (record header { isa = 3 }) ≡ false)
    × (elf_map elf true ≡ ((2097152, 1) ∷ [], true))
    × (elf_map elf false ≡ ([], false))
unfolding is_valid_header elf_map
headers = (refl, refl, refl, refl)

-- A header full of zeros, and one that is read from a buffer of no bytes.
read_headers :
    (elf_read (λ q. 0) 4096 64 true true true ≡ none) × (elf_read file 4096 0 true true true ≡ none)
unfolding elf_read
read_headers = (refl, refl)

aborts :
    (prepare_user_stack file 4096 8192 (none ∷ []) [] true ≡ none)
    × (prepare_user_stack file 4096 8192 [] [] false ≡ none)
    × (prepare_user_stack file 4096 4100 [] [] true ≡ none)
unfolding prepare_user_stack
aborts = (refl, refl, refl)

prepare_user_stack-Ready_example :
    Ready file 4096 8192 argv
      ((65 ∷ []) ∷ [])
      (prepare_user_stack file 4096 8192 (map some argv) ((65 ∷ []) ∷ []) true)
unfolding total
prepare_user_stack-Ready_example =
    prepare_user_stack-Ready file 4096 8192 argv ((65 ∷ []) ∷ []) (omega arith) (omega arith)

elf_launch-Started_example :
    Started file elf argv [] segment 1 (elf_launch file elf (map some argv) [] true)
unfolding total AllFit Outside load_segments
elf_launch-Started_example =
    elf_launch-Started file elf argv [] 4294967416 4294967418 [] segment [] 1 refl
      (inr (omega arith, omega arith, omega arith, omega arith, inr (omega arith)), tt) refl
      (omega arith) (omega arith) tt (omega arith) (omega arith)
