-- ===== src/Util/Subtract.antt =====
-- What equality and subtraction of slices and maps decide.
use aether_supervisor.Prelude.{
  Text, Assoc, lookup, text_eq, text_eq_iff, any, not, true, ◌&&◌, Option, none, some, List, [],
  ◌∷◌, if◌then◌else◌, ==_iff, length, ◌≡◌, ◌≢◌, ◌↔◌, refl, arith, Distinct, All,
}
use aether_supervisor.Util.{elements_equal, slice_equal, slice_subtract, string_map_subtract}

elements_equal_lem :
    (xs ys : List Text) → length xs ≡ length ys → elements_equal xs ys ≡ true → xs ≡ ys
elements_equal_lem [] [] l e = refl
elements_equal_lem [] (y ∷ ys) l e = absurd (omega arith)
elements_equal_lem (x ∷ xs) [] l e = absurd (omega arith)
elements_equal_lem (x ∷ xs) (y ∷ ys) l e = ground (arith, elements_equal_lem xs ys, text_eq_iff x y)

elements_equal_refl : (xs : List Text) → elements_equal xs xs ≡ true
elements_equal_refl [] = refl
elements_equal_refl (x ∷ xs) = ground (arith, elements_equal_refl xs, text_eq_iff x x)

-- SliceEqual decides whether two slices are equal.
pub slice_equal_iff :
    (slice1 slice2 : List Text) → (slice_equal slice1 slice2 ≡ true) ↔ (slice1 ≡ slice2)
unfolding slice_equal
slice_equal_iff xs ys = (
  λ e. ground (arith, elements_equal_lem xs ys, ==_iff (length xs) (length ys)),
  λ e. rw (← e) (ground (arith, elements_equal_refl xs, ==_iff (length xs) (length xs))),
)

-- SliceSubtract keeps the elements of the first slice that are not in the second, and no others.
pub slice_subtract_lem :
    (slice subtract_from : List Text) (k : Text)
    → any (text_eq k) (slice_subtract slice subtract_from)
      ≡ any (text_eq k) slice && not (any (text_eq k) subtract_from)
unfolding slice_subtract
slice_subtract_lem [] ys k = refl
slice_subtract_lem (x ∷ xs) ys k = ground (arith, slice_subtract_lem xs ys k, text_eq_iff k x)

-- What StringMapSubtract makes of the values that two maps have under a key.
unfoldable pub remaining : Option Text → Option Text → Option Text
remaining none value2 = none
remaining (some value1) none = some value1
remaining (some value1) (some value2) = if text_eq value2 value1 then none else some value1

lookup-absent :
    (k : Text) (map1 map2 : Assoc Text)
    → All (λ e. k ≢ e.0) map1
    → lookup k (string_map_subtract map1 map2) ≡ none
unfolding string_map_subtract
lookup-absent k [] map2 h = refl
lookup-absent k ((j, v) ∷ map1) map2 h =
    ground (arith, lookup-absent k map1 map2 h.1, text_eq_iff j k)

-- StringMapSubtract of two maps keeps an entry of the first exactly if the second does not have
-- the same value under its key.
pub lookup-string_map_subtract :
    (map1 map2 : Assoc Text) (k : Text)
    → Distinct (λ (e : Text × Text). e.0) map1
    → lookup k (string_map_subtract map1 map2) ≡ remaining (lookup k map1) (lookup k map2)
unfolding string_map_subtract remaining
lookup-string_map_subtract [] map2 k d = refl
lookup-string_map_subtract ((j, v) ∷ map1) map2 k d = ground (
  arith,
  lookup-string_map_subtract map1 map2 k d.1,
  lookup-absent j map1 map2 d.0,
  text_eq_iff j k,
)
