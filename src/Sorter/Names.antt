-- ===== src/Sorter/Names.antt =====
-- The readings of an identifier by which a link finds its target: isPositiveInteger and
-- extractServiceName of pkg/sorter/dependency.go.
use aether_supervisor.Prelude.{
  atoi, is_positive, Text, split, contains_byte, after_prefix, Bool, false, none, some, List, [],
  ◌∷◌, ◌++◌, if◌then◌else◌, codes,
}

unfoldable pub is_positive_integer : Text → Bool
unfolding atoi
is_positive_integer s = elim (atoi s) [ none ↦ false | some n ↦ is_positive n ]

-- The last part, or the one before it where the last is a replica's number.
service_part : List Text → Text
unfolding is_positive_integer
service_part [] = []
service_part (part ∷ []) = part
service_part (part ∷ last ∷ []) = if is_positive_integer last then part else last
service_part (part ∷ next ∷ more ∷ parts) = service_part (next ∷ more ∷ parts)

unfoldable pub extract_service_name : Text → Text
unfolding service_part
extract_service_name [] = []
extract_service_name (c ∷ cs) =
    if contains_byte (c ∷ cs) b'-' then service_part (split (c ∷ cs) b'-') else c ∷ cs

-- Is the key the link with a replica's number behind a dash?
unfoldable pub is_replica : Text → Text → Bool
unfolding is_positive_integer
is_replica link key = elim (after_prefix (link ++ codes "-") key) [
  | none ↦ false
  | some suffix ↦ is_positive_integer suffix
]
