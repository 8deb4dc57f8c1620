-- ===== src/Elf/Start.antt =====
-- `elf_launch` of kernel/kernel/elf.c as a whole.
use hojicha.CString.{Memory}
use hojicha.Elf.{
  ProgramHeader, Elf, Bytes, Launch, load_segment, load_segments, prepare_user_stack, elf_map,
  elf_launch, frame_words,
}
use hojicha.Elf.Words.{Holds}
use hojicha.Elf.Stack.{total, Spells, prepare_user_stack-Ready}
use hojicha.Elf.Load.{is_load, AllFit, Outside, load_segments-copies}
use hojicha.Common.{
  ℕ, ◌+◌, ◌-◌, ◌*◌, ◌/◌, ◌%◌, ◌^◌, ◌<◌, ◌≤◌, ◌≡◌, inl, refl, List, [], ◌∷◌, ◌++◌, length, map,
  Option, none, some, true, ltb, leb, arith, ap, ◌∙◌, if◌then◌else◌, if_no,
}

-- Where the stack of a program begins.
abbrev pub user_stack : ℕ
user_stack = 140737488351232 - 16384

load_segment-highest :
    (buffer : ℕ) (m : Memory) (highest : ℕ) (p : ProgramHeader)
    → highest ≤ (load_segment buffer (m, highest) p).1
unfolding load_segment
load_segment-highest buffer m highest p = ground arith

load_segment-end :
    (buffer : ℕ) (m : Memory) (highest : ℕ) (p : ProgramHeader)
    → is_load p ≡ true
    → p.load_vaddr + p.mapped_size < 2 ^ 64
    → p.load_vaddr + p.mapped_size ≤ (load_segment buffer (m, highest) p).1
unfolding load_segment
load_segment-end buffer m highest p load h = ground (arith, load, h)

load_segments-highest :
    (buffer : ℕ) (m : Memory) (highest : ℕ) (ps : List ProgramHeader)
    → highest ≤ (load_segments buffer (m, highest) ps).1
unfolding load_segments
load_segments-highest buffer m highest [] = omega arith
load_segments-highest buffer m highest (p ∷ ps) =
    let r = load_segment buffer (m, highest) p in
    omega (arith, load_segment-highest buffer m highest p, load_segments-highest buffer r.0 r.1 ps)

-- No segment ends above the highest address.
load_segments-end :
    (buffer : ℕ) (m : Memory) (highest : ℕ) (pre : List ProgramHeader) (p : ProgramHeader)
    (post : List ProgramHeader)
    → is_load p ≡ true
    → p.load_vaddr + p.mapped_size < 2 ^ 64
    → p.load_vaddr + p.mapped_size ≤ (load_segments buffer (m, highest) (pre ++ p ∷ post)).1
unfolding load_segments
load_segments-end buffer m highest [] p post load h =
    let r = load_segment buffer (m, highest) p in
    omega
      (arith, load_segment-end buffer m highest p load h, load_segments-highest buffer r.0 r.1 post)
load_segments-end buffer m highest (x ∷ pre) p post load h =
    let r = load_segment buffer (m, highest) x in load_segments-end buffer r.0 r.1 pre p post load h

-- The program starts at its entry, with its arguments on the stack, and the byte `i` of the segment `p` is
-- that of the file, or 0 behind the file's part.
abbrev pub Started :
    Memory → Elf → (argv envp : List Bytes) → ProgramHeader → ℕ → Option Launch → Type 0
Started m elf argv envp p i r =
    (l : Launch) × (argv_user : List ℕ) × (envp_user : List ℕ) × (r ≡ some l)
    × (l.rip ≡ elf.header.offset_entry)
    × (l.brk < user_stack)
    × (user_stack ≤ l.rsp)
    × (l.rsp % 16 ≡ 0)
    × Holds l.memory l.rsp (frame_words (length argv) argv_user envp_user)
    × Spells l.memory (l.rsp + 8 * (length argv + length envp + 4)) (user_stack + 16384) argv_user
        argv
    × Spells l.memory (l.rsp + 8 * (length argv + length envp + 4)) (user_stack + 16384) envp_user
        envp
    × (l.memory (p.load_vaddr + i)
        ≡ (if ltb i p.buffer_size then m (elf.buffer + p.buffer_offset + i) else 0))

-- `elf_launch` starts the program, when the segments are no larger in the file than in memory, the file is
-- apart from all of them, the highest address leaves two pages to the stack, and the stack has room for the
-- arguments. Of a segment `p` that ends below 2 ^ 64, each byte `i` that no later segment covers is in place.
pub elf_launch-Started :
    (m : Memory) (elf : Elf) (argv envp : List Bytes) (lo hi : ℕ) (pre : List ProgramHeader)
    (p : ProgramHeader) (post : List ProgramHeader) (i : ℕ)
    → elf.program_headers ≡ pre ++ p ∷ post
    → AllFit elf.buffer lo hi (pre ++ p ∷ post)
    → is_load p ≡ true
    → i < p.mapped_size
    → p.load_vaddr + p.mapped_size < 2 ^ 64
    → Outside (p.load_vaddr + i) post
    → (load_segments elf.buffer (m, 1048576) (pre ++ p ∷ post)).1 + 8192 ≤ user_stack
    → total argv + total envp + 8 * (length argv + length envp + 4) + 15 ≤ 16384
    → Started m elf argv envp p i (elf_launch m elf (map some argv) envp true)
unfolding elf_launch
elf_launch-Started m elf argv envp lo hi pre p post i same fits load h ends out low room =
    let r = load_segments elf.buffer (m, 1048576) (pre ++ p ∷ post) in
    let inside = load_segments-end elf.buffer m 1048576 pre p post load ends in
    let byte = load_segments-copies elf.buffer lo hi m 1048576 pre p post i fits load h out in
    let (m', sp, argv_user, envp_user, e, le, aligned, held, spelled, spelled', kept) =
      prepare_user_stack-Ready r.0 user_stack (user_stack + 16384) argv envp (omega arith)
        (omega (arith, room)) in
    let brk = ((r.1 + 4096 - 1) % 2 ^ 64 / 4096 * 4096 + 4096) % 2 ^ 64 in
    let l : Launch = record {
      memory = m';
      mapped = (elf_map elf true).0 ++ ((user_stack, 4) ∷ []);
      brk = brk;
      stack_start = user_stack;
      rsp = sp;
      rip = elf.header.offset_entry;
    } in
    let fit : brk < user_stack = omega (arith, low) in
    (
      l,
      argv_user,
      envp_user,
      ap
            (λ ps.
              let (loaded, highest) = load_segments elf.buffer (m, 1048576) ps in
              launched elf argv envp loaded highest)
            same
          ∙ if_no {b = leb user_stack brk} _ _ (ground (arith, fit))
          ∙ ap
              (λ o. elim o [
                | none ↦ none
                | some x ↦ some (record {
                  memory = x.0;
                  mapped = (elf_map elf true).0 ++ ((user_stack, 4) ∷ []);
                  brk = brk;
                  stack_start = user_stack;
                  rsp = x.1;
                  rip = elf.header.offset_entry;
                })
              ])
              e,
      refl,
      fit,
      le,
      aligned,
      held,
      spelled,
      spelled',
      kept (p.load_vaddr + i) (inl (omega (arith, h, inside, low, le))) ∙ byte,
    )
  where
    launched : Elf → List Bytes → List Bytes → Memory → ℕ → Option Launch
    launched elf argv envp loaded highest =
        let brk = ((highest + 4096 - 1) % 2 ^ 64 / 4096 * 4096 + 4096) % 2 ^ 64 in
        if leb user_stack brk
        then none
        else elim (prepare_user_stack loaded user_stack (user_stack + 16384) (map some argv) envp
            true) [
              | none ↦ none
              | some x ↦ some (record {
                memory = x.0;
                mapped = (elf_map elf true).0 ++ ((user_stack, 4) ∷ []);
                brk = brk;
                stack_start = user_stack;
                rsp = x.1;
                rip = elf.header.offset_entry;
              })
            ]
