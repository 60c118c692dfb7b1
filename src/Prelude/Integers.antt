-- ===== src/Prelude/Integers.antt =====
-- Go's int, as an integer in its range, and strconv.Atoi.
use Prim.Native.Nat.{ℕ, suc, ◌+◌, ◌-◌, ◌*◌}
use mathlib.Core.Bool.{Bool, false, ◌&&◌}
use mathlib.Core.Option.{Option, none, some}
use mathlib.Core.List.{[], ◌∷◌}
use aether_supervisor.Prelude.Tests.{ltb, leb, ◌==◌, if◌then◌else◌}
use aether_supervisor.Prelude.Bytes.{Text}

-- `negsuc n` is -(n + 1).
pub data ℤ : Type 0 where
  pos : ℕ → ℤ
  negsuc : ℕ → ℤ

abbrev pub is_positive : ℤ → Bool
is_positive (pos n) = ltb 0 n
is_positive (negsuc _) = false

-- -n
abbrev pub negated : ℕ → ℤ
negated n = if n == 0 then pos 0 else negsuc (n - 1)

-- The value of a run of decimal digits, behind the digits that gave the accumulator.
unfoldable pub digits_value : ℕ → Text → Option ℕ
digits_value acc [] = some acc
digits_value acc (c ∷ cs) =
    let rest = digits_value (acc * 10 + (c - 48)) cs in if leb 48 c && leb c 57 then rest else none

-- The value of one digit or more that is below the limit.
unfoldable pub unsigned_value : ℕ → Text → Option ℕ
unfolding digits_value
unsigned_value limit [] = none
unsigned_value limit (c ∷ cs) = elim (digits_value 0 (c ∷ cs)) [
  | none ↦ none
  | some n ↦ if ltb n limit then some n else none
]

-- 2 ^ 63: what is not below it is out of the range of Go's int.
abbrev pub int_limit : ℕ
int_limit = 9_223_372_036_854_775_808

-- strconv.Atoi; `none` is its error.
unfoldable pub atoi : Text → Option ℤ
unfolding unsigned_value
atoi [] = none
atoi (c ∷ cs) =
    if c == b'-'
    then elim (unsigned_value (suc int_limit) cs) [ none ↦ none | some n ↦ some (negated n) ]
    else elim (unsigned_value int_limit (if c == b'+' then cs else c ∷ cs)) [
      | none ↦ none
      | some n ↦ some (pos n)
    ]
