-- ===== src/Common/Table.antt =====
-- Facts about every number of a small range, checked by evaluation.
use Prim.Native.Nat.{ℕ, zero, suc, ◌<◌}
use mathlib.Core.Path.{◌≡◌}
use mathlib.Core.Bool.{Bool, true, false, ◌&&◌}
use native.Mathlib.Omega.{arith}

-- Whether a test passes on each of the first `count` numbers.
unfoldable pub passes : ℕ → (ℕ → Bool) → Bool
passes zero test = true
passes (suc count) test = passes count test && test count

pub passes-lookup :
    (count : ℕ) (test : ℕ → Bool) (k : ℕ) → passes count test ≡ true → k < count → test k ≡ true
unfolding passes
passes-lookup zero test k ok inside = absurd (omega (arith, inside))
passes-lookup (suc count) test k ok inside =
    let earlier = passes-lookup count test k in ground (arith, earlier)

-- Equality of truth values.
abbrev pub eqb : Bool → Bool → Bool
eqb true b = b
eqb false true = false
eqb false false = true

pub eqb→eq : (a b : Bool) → eqb a b ≡ true → a ≡ b
eqb→eq a b h = ground arith
