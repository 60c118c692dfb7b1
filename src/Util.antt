-- ===== src/Util.antt =====
-- The functions on slices and maps of internal/util/util.go. A map is an association list, and a
-- map to struct{} is the list of its keys.
pub mod Subtract
mod Tests
use aether_supervisor.Prelude.{
  Text, Assoc, lookup, text_eq, any, keep, not, Bool, true, false, ◌&&◌, Option, none, some, List,
  [], ◌∷◌, if◌then◌else◌, ltb, ◌==◌, ℕ, length,
}

-- The loop over the indices of two slices of one length.
abbrev pub elements_equal : List Text → List Text → Bool
elements_equal [] _ = true
elements_equal (x ∷ xs) [] = false
elements_equal (x ∷ xs) (y ∷ ys) =
    let rest = elements_equal xs ys in if not (text_eq x y) then false else rest

unfoldable pub slice_equal : List Text → List Text → Bool
slice_equal slice1 slice2 =
    if not (length slice1 == length slice2) then false else elements_equal slice1 slice2

unfoldable pub slice_subtract : List Text → List Text → List Text
slice_subtract slice subtract_from =
    keep (λ element1. not (any (text_eq element1) subtract_from)) slice

unfoldable pub min_int : ℕ → ℕ → ℕ
min_int a b = if ltb a b then a else b

unfoldable pub string_map_subtract : Assoc Text → Assoc Text → Assoc Text
string_map_subtract [] map2 = []
string_map_subtract ((key1, value1) ∷ map1) map2 =
    let rest = string_map_subtract map1 map2 in
    elim (lookup key1 map2) [
      | some value2 ↦ if not (text_eq value2 value1) then (key1, value1) ∷ rest else rest
      | none ↦ (key1, value1) ∷ rest
    ]

unfoldable pub struct_map_subtract : List Text → List Text → List Text
struct_map_subtract map1 map2 = keep (λ key1. not (any (text_eq key1) map2)) map1
