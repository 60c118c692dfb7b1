-- ===== src/Prelude/Strings.antt =====
-- The functions of Go's packages strings and strconv that the program calls, on byte lists.
use Prim.Native.Nat.{ℕ}
use mathlib.Core.Path.{◌≡◌, refl}
use mathlib.Core.Logic.{◌≢◌, inl, inr}
use mathlib.Core.Bool.{Bool, true, false, ◌&&◌, ◌||◌}
use mathlib.Core.Option.{Option, none, some}
use mathlib.Core.List.{List, [], ◌∷◌, ◌++◌, reverse}
use native.Mathlib.Omega.{arith}
use aether_supervisor.Prelude.Tests.{leb, ◌==◌, ==_iff, Bool-cases, if◌then◌else◌, is_some}
use aether_supervisor.Prelude.Bytes.{Text, text_eq, codes}

-- What follows the prefix, if the text has it.
abbrev pub after_prefix : Text → Text → Option Text
after_prefix [] s = some s
after_prefix (p ∷ ps) [] = none
after_prefix (p ∷ ps) (c ∷ cs) = let rest = after_prefix ps cs in if p == c then rest else none

-- strings.HasPrefix, with its argument order.
abbrev pub has_prefix : Text → Text → Bool
has_prefix s prefix = is_some (after_prefix prefix s)

-- strings.TrimPrefix
abbrev pub trim_prefix : Text → Text → Text
trim_prefix s prefix = elim (after_prefix prefix s) [ none ↦ s | some rest ↦ rest ]

-- strings.Contains for a pattern of one byte.
abbrev pub contains_byte : Text → ℕ → Bool
contains_byte [] b = false
contains_byte (c ∷ cs) b = c == b || contains_byte cs b

-- strings.Contains
abbrev pub contains : Text → Text → Bool
contains [] part = has_prefix [] part
contains (c ∷ cs) part = has_prefix (c ∷ cs) part || contains cs part

abbrev pub extend_head : ℕ → List Text → List Text
extend_head c [] = (c ∷ []) ∷ []
extend_head c (part ∷ parts) = (c ∷ part) ∷ parts

-- strings.Split at a separator of one byte.
abbrev pub split : Text → ℕ → List Text
split [] sep = [] ∷ []
split (c ∷ cs) sep =
    let parts = split cs sep in if c == sep then [] ∷ parts else extend_head c parts

-- The first part of a split.
abbrev pub first_part : Text → ℕ → Text
first_part [] sep = []
first_part (c ∷ cs) sep = let part = first_part cs sep in if c == sep then [] else c ∷ part

-- strings.Cut at a separator of one byte
abbrev pub cut : Text → ℕ → Option (Text × Text)
cut [] sep = none
cut (c ∷ cs) sep =
    let rest = cut cs sep in
    if c == sep
    then some ([], cs)
    else (elim rest [ none ↦ none | some (before, after) ↦ some (c ∷ before, after) ])

-- strings.Join
abbrev pub join : Text → List Text → Text
join sep [] = []
join sep (t ∷ []) = t
join sep (t ∷ u ∷ ts) = t ++ sep ++ join sep (u ∷ ts)

-- The ASCII white space of unicode.IsSpace.
abbrev pub is_space : ℕ → Bool
is_space c = c == 32 || (leb 9 c && leb c 13)

abbrev pub drop_spaces : Text → Text
drop_spaces [] = []
drop_spaces (c ∷ cs) = let rest = drop_spaces cs in if is_space c then rest else c ∷ cs

-- strings.TrimSpace on ASCII text.
unfoldable pub trim_space : Text → Text
trim_space s = reverse (drop_spaces (reverse (drop_spaces s)))

-- strconv.ParseBool; `none` is its error.
unfoldable pub parse_bool : Text → Option Bool
parse_bool s =
    if text_eq s (codes "1")
      || text_eq s (codes "t")
      || text_eq s (codes "T")
      || text_eq s (codes "TRUE")
      || text_eq s (codes "true")
      || text_eq s (codes "True")
    then some true
    else if text_eq s (codes "0")
        || text_eq s (codes "f")
        || text_eq s (codes "F")
        || text_eq s (codes "FALSE")
        || text_eq s (codes "false")
        || text_eq s (codes "False")
    then some false
    else none

pub has_prefix-append : (p s : Text) → has_prefix (p ++ s) p ≡ true
has_prefix-append [] s = refl
has_prefix-append (c ∷ p) s = ground (arith, has_prefix-append p s)

pub has_prefix-ne-nil : (c : ℕ) (p s : Text) → has_prefix s (c ∷ p) ≡ true → s ≢ []
has_prefix-ne-nil c p [] h = cc
has_prefix-ne-nil c p (x ∷ s) h = ground arith

pub append-ne-nil : (p s : Text) → p ≢ [] → p ++ s ≢ []
append-ne-nil [] s h = absurd (h refl)
append-ne-nil (x ∷ p) s h = cc

split-cons :
    (a : Text) (sep : ℕ) → (part : Text) × (parts : List Text) × (split a sep ≡ part ∷ parts)
split-cons [] sep = ([], [], refl)
split-cons (c ∷ a) sep = elim (Bool-cases (c == sep)) [
  | inl e ↦ ([], split a sep, rw e refl)
  | inr e ↦ let (part, parts, f) = split-cons a sep in (c ∷ part, parts, rw (e, f) refl)
]

pub split-append : (a b : Text) (sep : ℕ) → split (a ++ sep ∷ b) sep ≡ split a sep ++ split b sep
split-append [] b sep = rw ((==_iff sep sep).1 refl) refl
split-append (c ∷ a) b sep = elim (Bool-cases (c == sep)) [
  | inl e ↦ rw (e, split-append a b sep) refl
  | inr e ↦ let (part, parts, f) = split-cons a sep in rw (e, split-append a b sep, f) refl
]

-- A text without the separator is one part.
pub split-whole : (b : Text) (sep : ℕ) → contains_byte b sep ≡ false → split b sep ≡ b ∷ []
split-whole [] sep h = refl
split-whole (c ∷ b) sep h = ground (arith, split-whole b sep)
