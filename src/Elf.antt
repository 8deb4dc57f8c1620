-- ===== src/Elf.antt =====
-- kernel/kernel/elf.c: reading the headers of an executable, loading its segments and building the
-- first stack of a program.
--
-- Memory is one map from addresses to bytes. An object that the code allocates for itself is a value,
-- and whether the allocator has room is a Boolean argument; `memcpy` is `CString.copy_up`. A call of `abort` is the result `none`.
-- The entries of `argv` and `envp` are the bytes of the strings without the final 0.
mod Examples
pub mod Words
pub mod Stack
pub mod Load
pub mod Start
use hojicha.CString.{Memory, write, copy_up, memset}
use hojicha.Common.{
  ℕ, zero, suc, ◌+◌, ◌-◌, ◌*◌, ◌/◌, ◌%◌, ◌^◌, Bool, true, false, not, ◌||◌, ltb, leb, ◌==◌,
  if◌then◌else◌, Option, none, some, List, [], ◌∷◌, ◌++◌, map, length,
}

-- A number of `n` bytes, the lowest first.
unfoldable pub read_le : ℕ → Memory → ℕ → ℕ
read_le zero m a = 0
read_le (suc n) m a = m a + 256 * read_le n m (a + 1)

unfoldable pub write_le : ℕ → Memory → ℕ → ℕ → Memory
write_le zero m a w = m
write_le (suc n) m a w = write_le n (write m a (w % 256)) (a + 1) (w / 256)

-- The fields of `struct elf_header` that are used.
pub record ElfHeader : Type 0 where
  pub magic : ℕ
  pub bits : ℕ
  pub abi : ℕ
  pub type_of_file : ℕ
  pub isa : ℕ
  pub offset_entry : ℕ
  pub offset_prog_header_table : ℕ
  pub count_prog_header_table_entry : ℕ

pub record ProgramHeader : Type 0 where
  pub type_of_segment : ℕ
  pub buffer_offset : ℕ
  pub load_vaddr : ℕ
  pub buffer_size : ℕ
  pub mapped_size : ℕ

pub record Elf : Type 0 where
  pub header : ElfHeader
  pub program_headers : List ProgramHeader
  pub buffer : ℕ

unfoldable pub header_at : Memory → ℕ → ElfHeader
unfolding read_le
header_at m a = record {
  magic = read_le 4 m a;
  bits = read_le 1 m (a + 4);
  abi = read_le 1 m (a + 7);
  type_of_file = read_le 2 m (a + 16);
  isa = read_le 2 m (a + 18);
  offset_entry = read_le 8 m (a + 24);
  offset_prog_header_table = read_le 8 m (a + 32);
  count_prog_header_table_entry = read_le 2 m (a + 56);
}

unfoldable pub program_header_at : Memory → ℕ → ProgramHeader
unfolding read_le
program_header_at m a = record {
  type_of_segment = read_le 4 m a;
  buffer_offset = read_le 8 m (a + 8);
  load_vaddr = read_le 8 m (a + 16);
  buffer_size = read_le 8 m (a + 32);
  mapped_size = read_le 8 m (a + 40);
}

unfoldable pub program_headers_at : ℕ → Memory → ℕ → List ProgramHeader
unfolding program_header_at
program_headers_at zero m a = []
program_headers_at (suc n) m a = program_header_at m a ∷ program_headers_at n m (a + 56)

unfoldable pub is_valid_header : ElfHeader → Bool
is_valid_header h =
    if not (h.magic == 1179403647)
    then false
    else if not (h.type_of_file == 2)
    then false
    else if not (h.abi == 0)
    then false
    else if not (h.bits == 2)
    then false
    else if not (h.isa == 62)
    then false
    else true

-- The three Booleans are the outcomes of the three allocations. A buffer that is too small for a
-- header is logged, and read all the same.
unfoldable pub elf_read : Memory → (buffer size : ℕ) → Bool → Bool → Bool → Option Elf
unfolding header_at program_headers_at is_valid_header
elf_read m buffer size has_header has_program_headers has_elf =
    let header = header_at m buffer in
    if not has_header
    then none
    else if not (is_valid_header header)
    then none
    else if not has_program_headers
    then none
    else if not has_elf
    then none
    else some (record {
      header = header;
      program_headers =
          program_headers_at header.count_prog_header_table_entry m
            ((buffer + header.offset_prog_header_table) % 2 ^ 64);
      buffer = buffer;
    })

-- The calls of `vmm_map`, as pairs of an address and a number of pages, and the result.
unfoldable pub map_segments : List ProgramHeader → List (ℕ × ℕ) × Bool
map_segments [] = ([], true)
map_segments (p ∷ ps) =
    let (calls, ok) = map_segments ps in
    if p.type_of_segment == 1
    then ((p.load_vaddr, (p.mapped_size + 4096 - 1) % 2 ^ 64 / 4096) ∷ calls, ok)
    else if p.type_of_segment == 2
    then ([], false)
    else (calls, ok)

unfoldable pub elf_map : Elf → (has_vmm : Bool) → List (ℕ × ℕ) × Bool
unfolding map_segments
elf_map elf has_vmm = if has_vmm then map_segments elf.program_headers else ([], false)

-- The memory and `highest_loaded_addr` after one program header.
unfoldable pub load_segment : (buffer : ℕ) → Memory × ℕ → ProgramHeader → Memory × ℕ
unfolding copy_up memset
load_segment buffer (m, highest) p =
    let segment_end = (p.load_vaddr + p.mapped_size) % 2 ^ 64 in
    let copied = copy_up p.buffer_size m p.load_vaddr ((buffer + p.buffer_offset) % 2 ^ 64) in
    if p.type_of_segment == 1
    then (
      if ltb p.buffer_size p.mapped_size
          then memset (p.mapped_size - p.buffer_size) copied (p.load_vaddr + p.buffer_size) 0
          else copied,
      if ltb highest segment_end then segment_end else highest,
    )
    else (m, highest)

unfoldable pub load_segments : (buffer : ℕ) → Memory × ℕ → List ProgramHeader → Memory × ℕ
unfolding load_segment
load_segments buffer r [] = r
load_segments buffer r (p ∷ ps) = load_segments buffer (load_segment buffer r p) ps

abbrev pub Bytes : Type 0
Bytes = List ℕ

-- `memcpy` of a string with its final 0.
unfoldable pub write_string : Memory → ℕ → Bytes → Memory
write_string m a [] = write m a 0
write_string m a (c ∷ cs) = write_string (write m a c) (a + 1) cs

-- The loops over `argv` and `envp`: the memory, `strings_top` and the addresses of the strings. An
-- entry `none` is NULL, which only `argv` can have. The code
-- subtracts on unsigned words, and `strings_top` is never below `stack_bottom`.
unfoldable pub push_strings :
    (stack_bottom : ℕ)
    → Memory
    → (strings_top : ℕ) → List (Option Bytes)
    → Option (Memory × (ℕ × List ℕ))
unfolding write_string
push_strings bottom m top [] = some (m, (top, []))
push_strings bottom m top (none ∷ ss) = none
push_strings bottom m top (some s ∷ ss) =
    let len = length s + 1 in
    let rest = push_strings bottom (write_string m (top - len) s) (top - len) ss in
    if ltb (top - bottom) len then none else elim rest [
      | none ↦ none
      | some (m', (top', addrs)) ↦ some (m', (top', (top - len) ∷ addrs))
    ]

unfoldable pub store_words : Memory → ℕ → List ℕ → Memory
unfolding write_le
store_words m a [] = m
store_words m a (w ∷ ws) = store_words (write_le 8 m a w) (a + 8) ws

abbrev pub frame_words : (argc : ℕ) → (argv_user envp_user : List ℕ) → List ℕ
frame_words argc argv_user envp_user = argc ∷ (argv_user ++ (0 ∷ (envp_user ++ (0 ∷ 0 ∷ []))))

-- The frame below the strings, and the stack pointer.
unfoldable pub push_frame :
    (stack_bottom argc : ℕ)
    → (argv_user : List ℕ) → Memory
    → (strings_top : ℕ) → (envp_user : List ℕ) → Option (Memory × ℕ)
unfolding store_words
push_frame bottom argc argv_user m top envp_user =
    let frame_size = (1 + argc + 1 + length envp_user + 1 + 1) * 8 % 2 ^ 64 in
    let stack_start = (top - frame_size) / 16 * 16 in
    if ltb (top - bottom) frame_size
    then none
    else if ltb stack_start bottom
    then none
    else some (store_words m stack_start (frame_words argc argv_user envp_user), stack_start)

infixr 4 ◌then_push◌
abbrev pub ◌then_push◌ :
    Option (Memory × (ℕ × List ℕ))
    → (Memory → ℕ → List ℕ → Option (Memory × ℕ))
    → Option (Memory × ℕ)
none then_push f = none
some (m, (top, addrs)) then_push f = f m top addrs

-- `allocated` is whether both arrays of addresses can be allocated.
unfoldable pub prepare_user_stack :
    Memory
    → (stack_bottom stack_top : ℕ) → (argv : List (Option Bytes)) → (envp : List Bytes)
    → (allocated : Bool) → Option (Memory × ℕ)
unfolding push_strings push_frame
prepare_user_stack m bottom top argv envp allocated =
    if not allocated
    then none
    else push_strings bottom m top argv then_push λ m' top' argv_user.
        push_strings bottom m' top' (map some envp)
        then_push push_frame bottom (length argv) argv_user

-- What `elf_launch` leaves before it enters the program; `mapped` are its calls of `vmm_map`. Like the code,
-- the function does not look at the result of `elf_map`.
pub record Launch : Type 0 where
  pub memory : Memory
  pub mapped : List (ℕ × ℕ)
  pub brk : ℕ
  pub stack_start : ℕ
  pub rsp : ℕ
  pub rip : ℕ

unfoldable pub elf_launch :
    Memory
    → Elf
    → (argv : List (Option Bytes)) → (envp : List Bytes) → (allocated : Bool) → Option Launch
unfolding elf_map load_segments prepare_user_stack
elf_launch m elf argv envp allocated =
    let (loaded, highest) = load_segments elf.buffer (m, 1048576) elf.program_headers in
    let stack = 140737488351232 - 16384 in
    let initial_brk = ((highest + 4096 - 1) % 2 ^ 64 / 4096 * 4096 + 4096) % 2 ^ 64 in
    if leb stack initial_brk
    then none
    else elim (prepare_user_stack loaded stack (stack + 16384) argv envp allocated) [
      | none ↦ none
      | some (m', rsp) ↦ some (record {
        memory = m';
        mapped = (elf_map elf true).0 ++ ((stack, 4) ∷ []);
        brk = initial_brk;
        stack_start = stack;
        rsp = rsp;
        rip = elf.header.offset_entry;
      })
    ]
