-- ===== src/Elf/Load.antt =====
-- `elf_launch` of kernel/kernel/elf.c: the copying of the segments.
use mathlib.Core.Bool.{true≢false}
use hojicha.CString.{Memory, copy_up}
use hojicha.CString.Move.{copy_up_lem, copy_up-before, memset_lem}
use hojicha.Elf.{ProgramHeader, load_segment, load_segments}
use hojicha.Common.{
  ℕ, ◌+◌, ◌-◌, ◌%◌, ◌^◌, ◌<◌, ◌≤◌, ◌≡◌, ◌⊎◌, inl, inr, refl, List, [], ◌∷◌, ◌++◌, Bool, true, false,
  ◌==◌, ◌&&◌, ltb, leb, arith, sym, ap, ◌∙◌, if◌then◌else◌, if_no, if_yes, Bool-cases,
}

abbrev pub is_load : ProgramHeader → Bool
is_load p = p.type_of_segment == 1

-- A loaded segment is no larger in the file than in memory, the file between `lo` and `hi` holds
-- it, and it does not land on the file.
abbrev pub Fits : (buffer lo hi : ℕ) → ProgramHeader → Type 0
Fits buffer lo hi p =
    (p.buffer_size ≤ p.mapped_size)
    × (lo ≤ buffer + p.buffer_offset)
    × (buffer + p.buffer_offset + p.buffer_size ≤ hi)
    × (buffer + p.buffer_offset < 2 ^ 64)
    × ((hi ≤ p.load_vaddr) ⊎ (p.load_vaddr + p.mapped_size ≤ lo))

-- The address is in none of the loaded segments.
unfoldable pub Outside : ℕ → List ProgramHeader → Type 0
Outside q [] = Unit
Outside q (p ∷ ps) =
    ((is_load p ≡ false) ⊎ ((q < p.load_vaddr) ⊎ (p.load_vaddr + p.mapped_size ≤ q))) × Outside q ps

unfoldable pub AllFit : (buffer lo hi : ℕ) → List ProgramHeader → Type 0
AllFit buffer lo hi [] = Unit
AllFit buffer lo hi (p ∷ ps) = ((is_load p ≡ false) ⊎ Fits buffer lo hi p) × AllFit buffer lo hi ps

module _ (buffer lo hi : ℕ) where
  copied :
      (m : Memory) (p : ProgramHeader)
      → Fits buffer lo hi p
      → (q : ℕ)
      → copy_up p.buffer_size m p.load_vaddr ((buffer + p.buffer_offset) % 2 ^ 64) q ≡ (
          if leb p.load_vaddr q && ltb q (p.load_vaddr + p.buffer_size)
          then m (buffer + p.buffer_offset + (q - p.load_vaddr))
          else m q)
  copied m p (le, l, h, w, apart) q =
      let src = buffer + p.buffer_offset in
      let same : src % 2 ^ 64 ≡ src = omega (arith, w) in
      ap (λ s. copy_up p.buffer_size m p.load_vaddr s q) same ∙ elim apart [
        | inl after ↦ copy_up-before p.buffer_size m p.load_vaddr src q (omega (arith, h, after))
        | inr before ↦ copy_up_lem p.buffer_size m p.load_vaddr src q (omega (arith, l, before))
      ]

  -- What one segment leaves at an address.
  load_segment_lem :
      (m : Memory) (highest : ℕ) (p : ProgramHeader)
      → is_load p ≡ true
      → Fits buffer lo hi p
      → (q : ℕ)
      → (load_segment buffer (m, highest) p).0 q ≡ (
          if leb p.load_vaddr q && ltb q (p.load_vaddr + p.mapped_size)
          then (if ltb (q - p.load_vaddr) p.buffer_size
              then m (buffer + p.buffer_offset + (q - p.load_vaddr))
              else 0)
          else m q)
  unfolding load_segment
  load_segment_lem m highest p load fits q =
      let (le, _, _, _, _) = fits in
      let file = copied m p fits q in
      let there = copy_up p.buffer_size m p.load_vaddr ((buffer + p.buffer_offset) % 2 ^ 64) in
      let zeros =
        memset_lem (p.mapped_size - p.buffer_size) there (p.load_vaddr + p.buffer_size) 0 q in
      ap (λ (r : Memory × ℕ). r.0 q) (if_yes _ _ load)
      ∙ elim (Bool-cases (ltb p.buffer_size p.mapped_size)) [
        | inl t ↦ ap (λ m. m q) (if_yes _ there t) ∙ zeros ∙ ground (arith, le, file, t)
        | inr f ↦ ap (λ m. m q) (if_no _ there f) ∙ file ∙ ground (arith, le, f)
      ]

  skipped :
      (m : Memory) (highest : ℕ) (p : ProgramHeader)
      → is_load p ≡ false
      → load_segment buffer (m, highest) p ≡ (m, highest)
  unfolding load_segment
  skipped m highest p e = if_no _ _ e

  -- An address in no segment keeps its byte.
  load_segments-Outside :
      (ps : List ProgramHeader) (m : Memory) (highest : ℕ) (q : ℕ)
      → AllFit buffer lo hi ps
      → Outside q ps
      → (load_segments buffer (m, highest) ps).0 q ≡ m q
  unfolding load_segments AllFit Outside
  load_segments-Outside [] m highest q fit out = refl
  load_segments-Outside (p ∷ ps) m highest q (fit, fits) (out, outs) =
      let r = load_segment buffer (m, highest) p in
      load_segments-Outside ps r.0 r.1 q fits outs ∙ one fit out
    where
      one :
          ((is_load p ≡ false) ⊎ Fits buffer lo hi p)
          → ((is_load p ≡ false) ⊎ ((q < p.load_vaddr) ⊎ (p.load_vaddr + p.mapped_size ≤ q)))
          → (load_segment buffer (m, highest) p).0 q ≡ m q
      one (inl e) o = ap (λ (r : Memory × ℕ). r.0 q) (skipped m highest p e)
      one (inr f) (inl e) = ap (λ (r : Memory × ℕ). r.0 q) (skipped m highest p e)
      one (inr f) (inr o) = elim (Bool-cases (is_load p)) [
        | inl t ↦
            load_segment_lem m highest p t f q
            ∙ if_no {b = leb p.load_vaddr q && ltb q (p.load_vaddr + p.mapped_size)} _ _
                (ground (arith, o))
        | inr e ↦ ap (λ (r : Memory × ℕ). r.0 q) (skipped m highest p e)
      ]

  file-Outside :
      (ps : List ProgramHeader) (q : ℕ) → lo ≤ q → q < hi → AllFit buffer lo hi ps → Outside q ps
  unfolding AllFit Outside
  file-Outside [] q l h fit = tt
  file-Outside (p ∷ ps) q l h (fit, fits) = (away fit, file-Outside ps q l h fits)
    where
      away :
          ((is_load p ≡ false) ⊎ Fits buffer lo hi p)
          → (is_load p ≡ false) ⊎ ((q < p.load_vaddr) ⊎ (p.load_vaddr + p.mapped_size ≤ q))
      away (inl e) = inl e
      away (inr (_, _, _, _, inl after)) = inr (inl (omega (arith, h, after)))
      away (inr (_, _, _, _, inr before)) = inr (inr (omega (arith, l, before)))

  loaded_first :
      (p : ProgramHeader) (post : List ProgramHeader) (m : Memory) (highest i : ℕ)
      → AllFit buffer lo hi (p ∷ post)
      → is_load p ≡ true
      → i < p.mapped_size
      → Outside (p.load_vaddr + i) post
      → (load_segments buffer (m, highest) (p ∷ post)).0 (p.load_vaddr + i)
        ≡ (if ltb i p.buffer_size then m (buffer + p.buffer_offset + i) else 0)
  unfolding load_segments AllFit
  loaded_first p post m highest i (inl e, fits) load h out = absurd (true≢false (sym load ∙ e))
  loaded_first p post m highest i (inr fit, fits) load h out =
      let r = load_segment buffer (m, highest) p in
      let q = p.load_vaddr + i in
      let back : q - p.load_vaddr ≡ i = omega arith in
      load_segments-Outside post r.0 r.1 q fits out
      ∙ load_segment_lem m highest p load fit q
      ∙ if_yes {b = leb p.load_vaddr q && ltb q (p.load_vaddr + p.mapped_size)} _ (m q)
          (ground (arith, h))
      ∙ ap (λ j. if ltb j p.buffer_size then m (buffer + p.buffer_offset + j) else 0) back

-- After the loading, each byte of a segment in memory is its byte of the file, or 0 behind the file's part. The
-- segments are no larger in the file than in memory, the file is apart from all of them, and no
-- later segment covers the byte.
pub load_segments-copies :
    (buffer lo hi : ℕ) (m : Memory) (highest : ℕ) (pre : List ProgramHeader) (p : ProgramHeader)
    (post : List ProgramHeader) (i : ℕ)
    → AllFit buffer lo hi (pre ++ p ∷ post)
    → is_load p ≡ true
    → i < p.mapped_size
    → Outside (p.load_vaddr + i) post
    → (load_segments buffer (m, highest) (pre ++ p ∷ post)).0 (p.load_vaddr + i)
      ≡ (if ltb i p.buffer_size then m (buffer + p.buffer_offset + i) else 0)
unfolding load_segments AllFit Outside
load_segments-copies buffer lo hi m highest [] p post i fits load h out =
    loaded_first buffer lo hi p post m highest i fits load h out
load_segments-copies buffer lo hi m highest (x ∷ pre) p post i (fit, fits) load h out =
    let r = load_segment buffer (m, highest) x in
    let src = buffer + p.buffer_offset + i in
    load_segments-copies buffer lo hi r.0 r.1 pre p post i fits load h out
    ∙ elim (Bool-cases (ltb i p.buffer_size)) [
      | inl t ↦ if_yes _ 0 t ∙ kept (fits_of pre fits) (ground (arith, t)) ∙ sym (if_yes _ 0 t)
      | inr f ↦ if_no _ 0 f ∙ sym (if_no _ 0 f)
    ]
  where
    fits_of : (l : List ProgramHeader) → AllFit buffer lo hi (l ++ p ∷ post) → Fits buffer lo hi p
    fits_of [] (inl e, _) = absurd (true≢false (sym load ∙ e))
    fits_of [] (inr f, _) = f
    fits_of (y ∷ l) (_, fs) = fits_of l fs

    kept :
        Fits buffer lo hi p
        → i < p.buffer_size
        → (load_segment buffer (m, highest) x).0 (buffer + p.buffer_offset + i)
          ≡ m (buffer + p.buffer_offset + i)
    kept (_, l, u, _, _) lt =
        load_segments-Outside buffer lo hi (x ∷ []) m highest (buffer + p.buffer_offset + i)
          (fit, tt)
          (file-Outside buffer lo hi (x ∷ []) (buffer + p.buffer_offset + i) (omega (arith, l))
            (omega (arith, u, lt)) (fit, tt))
