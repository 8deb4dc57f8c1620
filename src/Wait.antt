-- ===== src/Wait.antt =====
-- kernel/mp/wait.c with `proc_free` of kernel/mp/proc.c: parents wait for their children.
pub mod Find
pub mod Waitpid
mod Examples
use hojicha.ProcQueue.{Heap, Queue, remove}
use hojicha.Sched.{Kernel, sched_postpone, sched_resume}
use hojicha.Sched.Waiting.{wait_queue_sleep_postponed}
use hojicha.Common.{
  ℕ, zero, suc, ◌+◌, ◌-◌, ◌*◌, ◌/◌, ◌^◌, ◌%◌, Bool, true, false, Option, none, some, ◌&&◌, ◌||◌,
  not, ◌==◌, if◌then◌else◌, ℤ, pos, negsuc,
}

abbrev pub max_children : ℕ
max_children = 256

abbrev pub ready_to_die : ℕ
ready_to_die = 16

abbrev pub echild : ℤ
echild = negsuc 9

abbrev pub einval : ℤ
einval = negsuc 21

abbrev pub Slots : Type 0
Slots = ℕ → Option ℕ

-- The fields of the processes that the waiting uses; a process is its address. `children` is the
-- array that a process points to.
pub record System : Type 0 where
  pub kernel : Kernel
  pub pid : ℕ → ℕ
  pub exit_code : ℕ → ℕ
  pub parent : ℕ → Option ℕ
  pub children : ℕ → Option Slots
  pub child_waiters : ℕ → Queue
  pub exit_waiters : ℕ → Queue
  pub dying : Queue

abbrev pub at {ℓ} : {A : Type ℓ} → (ℕ → A) → ℕ → A → ℕ → A
at f p v = λ q. if q == p then v else f q

abbrev pub is_dead : System → ℕ → Bool
is_dead sys p = (sys.kernel.heap p).status == ready_to_die

-- `pid == -1 || child->pid == (uint64_t)pid`.
abbrev pub wants : System → ℤ → ℕ → Bool
wants sys (pos n) child = sys.pid child == n
wants sys (negsuc zero) child = true
wants sys (negsuc (suc n)) child = sys.pid child == 2 ^ 64 - (n + 2)

abbrev pub or_first : Option (ℕ × ℕ) → ℕ → ℕ → Option (ℕ × ℕ)
or_first none child slot = some (child, slot)
or_first (some first) child slot = some first

-- The loop of `wait_child_find` on the rounds left: the child and its slot.
unfoldable pub find_loop : System → ℤ → Slots → (rounds slot : ℕ) → Option (ℕ × ℕ) → Option (ℕ × ℕ)
find_loop sys pid slots zero slot first = first
find_loop sys pid slots (suc rounds) slot first = elim (slots slot) [
  | none ↦ find_loop sys pid slots rounds (slot + 1) first
  | some child ↦
      let later = find_loop sys pid slots rounds (slot + 1) first in
      let kept = find_loop sys pid slots rounds (slot + 1) (or_first first child slot) in
      if not (wants sys pid child)
      then later
      else if is_dead sys child
      then some (child, slot)
      else kept
]

unfoldable pub wait_child_find : System → ℕ → ℤ → Option (ℕ × ℕ)
unfolding find_loop
wait_child_find sys parent pid = elim (sys.children parent) [
  | none ↦ none
  | some slots ↦ find_loop sys pid slots (max_children - 1) 1 none
]

-- `parent->children[i] == p`, searched from `slot` on; the first such slot is cleared.
unfoldable pub forget_child : Slots → ℕ → (rounds slot : ℕ) → Slots
forget_child slots p zero slot = slots
forget_child slots p (suc rounds) slot =
    let later = forget_child slots p rounds (slot + 1) in
    elim (slots slot) [
      | none ↦ later
      | some child ↦ if child == p then at slots slot none else later
    ]

-- Every child loses its parent.
unfoldable pub orphan : Slots → (ℕ → Option ℕ) → (rounds slot : ℕ) → ℕ → Option ℕ
orphan slots parent zero slot = parent
orphan slots parent (suc rounds) slot = elim (slots slot) [
  | none ↦ orphan slots parent rounds (slot + 1)
  | some child ↦ orphan slots (at parent child none) rounds (slot + 1)
]

abbrev pub leave : System → ℕ → Option ℕ → System
unfolding forget_child
leave sys p none = sys
leave sys p (some parent) = elim (sys.children parent) [
  | none ↦ sys
  | some slots ↦ record sys {
    children = at sys.children parent (some (forget_child slots p (max_children - 1) 1));
  }
]

-- What the family tree sees of it; the memory of the process is freed.
unfoldable pub proc_free : System → ℕ → System
unfolding leave orphan
proc_free sys p =
    let left = leave sys p (sys.parent p) in
    elim (left.children p) [
      | none ↦ left
      | some slots ↦ record left {
        parent = orphan slots left.parent (max_children - 1) 1;
        children = at left.children p none;
      }
    ]

-- What a call returns and what it stores through `wstatus`.
pub record Waited : Type 0 where
  pub ret : ℤ
  pub wstatus : Option ℕ

abbrev pub fails : ℤ → Waited
fails e = record { ret = e; wstatus = none }

-- The rest of `process_wait_collect` once the child is out of the queue; `none` is out of fuel.
abbrev pub collected : System → ℕ → Bool → Option (Heap × Queue × Bool) → Option (System × Waited)
unfolding proc_free
collected sys child stores none = none
collected sys child stores (some (heap, queue, _)) = some (
  proc_free (record sys { kernel = record (sys.kernel) { heap = heap }; dying = queue }) child,
  record {
    ret = pos (sys.pid child);
    wstatus = if stores then some (sys.exit_code child % 2 ^ 8 * 2 ^ 8) else none;
  },
)

unfoldable pub process_wait_collect :
    ℕ → System → (parent child slot : ℕ) → Bool → Option (System × Waited)
unfolding remove collected
process_wait_collect fuel sys parent child slot stores = elim (sys.children parent) [
  | none ↦ some (sys, fails echild)
  | some slots ↦
      if not (is_dead sys child)
      then some (sys, fails echild)
      else collected
          (record sys {
            children = at sys.children parent (some (at slots slot none));
            parent = at sys.parent child none;
          })
          child stores (remove fuel sys.kernel.heap sys.dying (some child))
]
