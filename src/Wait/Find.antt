-- ===== src/Wait/Find.antt =====
-- Which child `wait_child_find` of kernel/mp/wait.c chooses.
use mathlib.Core.Bool.{true≢false}
use mathlib.Core.Option.{some_inj, none-ne-some}
use mathlib.Core.Path.{subst}
use hojicha.Wait.{System, Slots, max_children, is_dead, wants, or_first, find_loop, wait_child_find}
use hojicha.Common.{
  ℕ, zero, suc, ◌≡◌, ◌+◌, ◌-◌, ◌<◌, ◌≤◌, refl, true, false, not, Option, none, some, if◌then◌else◌,
  if_ind, arith, dec_lt, inl, inr, ◌⊎◌, ℤ, sym, ◌∙◌,
}

module _ (sys : System) (pid : ℤ) (slots : Slots) where
  -- The child in a slot is one that is waited for, and whether it is dead.
  abbrev pub IsWanted : ℕ → ℕ → Type 0
  IsWanted slot child = (slots slot ≡ some child) × (wants sys pid child ≡ true)

  -- No slot from `from` up to `to` holds a dead child that is waited for, or any that is.
  abbrev pub NoneDead : (from to : ℕ) → Type 0
  NoneDead from to =
      (slot child : ℕ) → from ≤ slot → slot < to → IsWanted slot child → is_dead sys child ≡ false

  abbrev pub NoneWanted : (from to : ℕ) → Type 0
  NoneWanted from to =
      (slot child : ℕ)
      → from ≤ slot
      → slot < to
      → slots slot ≡ some child
      → wants sys pid child ≡ false

  -- The first dead child that is waited for; without one the first that is waited for.
  abbrev pub Finds : (from to : ℕ) → Option (ℕ × ℕ) → Type 0
  Finds from to none = NoneWanted from to
  Finds from to (some (child, slot)) =
      (from ≤ slot)
      × (slot < to)
      × IsWanted slot child
      × (((is_dead sys child ≡ true) × NoneDead from slot)
          ⊎ (NoneDead from to × NoneWanted from slot))

  -- What the loop knows before a slot.
  abbrev Sofar : (from to : ℕ) → Option (ℕ × ℕ) → Type 0
  Sofar from to none = NoneDead from to × NoneWanted from to
  Sofar from to (some (child, slot)) =
      NoneDead from to × (from ≤ slot) × (slot < to) × IsWanted slot child × NoneWanted from slot

  -- A range with one slot more.
  one_more :
      (P : ℕ → ℕ → Type 0) (from to : ℕ)
      → ((slot child : ℕ) → from ≤ slot → slot < to → slots slot ≡ some child → P slot child)
      → ((child : ℕ) → slots to ≡ some child → P to child)
      → (slot child : ℕ) → from ≤ slot
      → slot < to + 1
      → slots slot ≡ some child
      → P slot child
  one_more P from to before last slot child le lt e = elim (dec_lt slot to) [
    | yes h ↦ before slot child le h e
    | no h ↦
        let same : to ≡ slot = omega (arith, lt) in
        subst (λ n. slots n ≡ some child → P n child) same (last child) e
  ]

  dead_more :
      (from to : ℕ)
      → NoneDead from to
      → ((child : ℕ) → IsWanted to child → is_dead sys child ≡ false)
      → NoneDead from (to + 1)
  dead_more from to before last slot child le lt (e, w) =
      one_more (λ s c. wants sys pid c ≡ true → is_dead sys c ≡ false) from to
        (λ s c le' lt' e' w'. before s c le' lt' (e', w')) (λ c e' w'. last c (e', w')) slot child
        le lt e w

  wanted_more :
      (from to : ℕ)
      → NoneWanted from to
      → ((child : ℕ) → slots to ≡ some child → wants sys pid child ≡ false)
      → NoneWanted from (to + 1)
  wanted_more from to before last = one_more (λ s c. wants sys pid c ≡ false) from to before last

  -- A slot that does not matter.
  skip_slot :
      (from to : ℕ) (first : Option (ℕ × ℕ))
      → ((child : ℕ) → slots to ≡ some child → wants sys pid child ≡ false)
      → Sofar from to first
      → Sofar from (to + 1) first
  skip_slot from to none un (dead, wanted) = (
    dead_more from to dead (λ c w. absurd (true≢false (sym w.1 ∙ un c w.0))),
    wanted_more from to wanted un,
  )
  skip_slot from to (some (child, slot)) un (dead, le, lt, wanted, before) = (
    dead_more from to dead (λ c w. absurd (true≢false (sym w.1 ∙ un c w.0))),
    le,
    omega arith,
    wanted,
    before,
  )

  living :
      (slot child : ℕ)
      → IsWanted slot child
      → is_dead sys child ≡ false
      → (c : ℕ) → IsWanted slot c
      → is_dead sys c ≡ false
  living slot child w alive c w' =
      subst (λ d. is_dead sys d ≡ false) (some_inj.0 (sym w.0 ∙ w'.0)) alive

  -- A slot with a child that is waited for and lives.
  keep_slot :
      (from to child : ℕ) (first : Option (ℕ × ℕ))
      → from ≤ to
      → IsWanted to child
      → is_dead sys child ≡ false
      → Sofar from to first
      → Sofar from (to + 1) (or_first first child to)
  keep_slot from to child none le w alive (dead, wanted) =
      (dead_more from to dead (living to child w alive), le, omega arith, w, wanted)
  keep_slot from to child (some (c, slot)) le w alive (dead, le', lt, w', before) =
      (dead_more from to dead (living to child w alive), le', omega arith, w', before)

  found : (from to : ℕ) (first : Option (ℕ × ℕ)) → Sofar from to first → Finds from to first
  found from to none (dead, wanted) = wanted
  found from to (some (child, slot)) (dead, le, lt, w, before) = (le, lt, w, inr (dead, before))

  dead_before : (from to : ℕ) (first : Option (ℕ × ℕ)) → Sofar from to first → NoneDead from to
  dead_before from to none s = s.0
  dead_before from to (some f) s = s.0

  find_loop-Finds :
      (rounds from slot : ℕ) (first : Option (ℕ × ℕ))
      → from ≤ slot
      → Sofar from slot first
      → Finds from (slot + rounds) (find_loop sys pid slots rounds slot first)
  unfolding find_loop
  find_loop-Finds zero from slot first le sofar =
      subst (λ to. Finds from to first) (omega arith) (found from slot first sofar)
  find_loop-Finds (suc rounds) from slot first le sofar = go (slots slot) refl (λ first' sofar'.
      subst (λ to. Finds from to (find_loop sys pid slots rounds (slot + 1) first')) (omega arith)
        (find_loop-Finds rounds from (slot + 1) first' (omega arith) sofar'))
    where
      go :
          (o : Option ℕ)
          → slots slot ≡ o
          → ((first' : Option (ℕ × ℕ))
              → Sofar from (slot + 1) first'
              → Finds from (slot + suc rounds) (find_loop sys pid slots rounds (slot + 1) first'))
          → Finds from (slot + suc rounds) (elim o [
            | none ↦ find_loop sys pid slots rounds (slot + 1) first
            | some child ↦
                if not (wants sys pid child)
                then find_loop sys pid slots rounds (slot + 1) first
                else if is_dead sys child
                then some (child, slot)
                else find_loop sys pid slots rounds (slot + 1) (or_first first child slot)
          ])
      go none e ih =
          ih first (skip_slot from slot first (λ c e'. absurd (none-ne-some c (sym e ∙ e'))) sofar)
      go (some child) e ih =
          if_ind (Finds from (slot + suc rounds)) (not (wants sys pid child)) _ _
            (λ t. ih first (
              skip_slot from slot first
                (λ c e'.
                  subst (λ d. wants sys pid d ≡ false) (some_inj.0 (sym e ∙ e'))
                    (ground (arith, t)))
                sofar))
            (λ f.
              let wanted : wants sys pid child ≡ true = ground (arith, f) in
              if_ind (Finds from (slot + suc rounds)) (is_dead sys child) _ _
                (λ dead.
                  (le, omega arith, (e, wanted), inl (dead, dead_before from slot first sofar)))
                (λ alive.
                  ih (or_first first child slot)
                    (keep_slot from slot child first le (e, wanted) alive sofar)))

  start : Sofar 1 1 none
  start = (λ s c le lt w. absurd (omega arith), λ s c le lt e. absurd (omega arith))

-- `wait_child_find` on a process with an array of children: among slots 1 to 255 it finds the
-- lowest slot with a dead child that the given process number asks for; when none of these children
-- is dead, the lowest slot with such a child; and nothing exactly when there is none.
pub wait_child_find-Finds :
    (sys : System) (parent : ℕ) (pid : ℤ) (slots : Slots)
    → sys.children parent ≡ some slots
    → Finds sys pid slots 1 max_children (wait_child_find sys parent pid)
unfolding wait_child_find
wait_child_find-Finds sys parent pid slots e =
    subst
      (λ (o : Option Slots).
        Finds sys pid slots 1 max_children (elim o [
          | none ↦ none
          | some slots' ↦ find_loop sys pid slots' (max_children - 1) 1 none
        ]))
      (sym e)
      (find_loop-Finds sys pid slots (max_children - 1) 1 1 none (omega arith)
        (start sys pid slots))
