-- ===== src/Sorter/Kahn/Groups.antt =====
-- When the identifiers of the containers collide, and what the map of the containers is where
-- they do not.
use aether_supervisor.Prelude.{
  Text, Assoc, text_eq, text_eq_iff, insert, lookup, Bool, true, false, ◌||◌, none, some, is_some,
  Option-cases, List, [], ◌∷◌, ◌++◌, append_assoc, append-nil, ◌≡◌, ◌⊎◌, inl, inr, refl, sym, ap,
  arith, Bool-cases,
}
use aether_supervisor.Container.Data.{Container}
use aether_supervisor.Sorter.Graph.{
  Group, ok, err, identifier_collision, identifier, group_container, group_all, container_map, keys,
}
use aether_supervisor.Sorter.Kahn.Edges.{
  mem_text, DistinctNames, DistinctNames-middle, DistinctNames-snoc,
}

abbrev pub identifiers : List Container → List Text
identifiers [] = []
identifiers (c ∷ cs) = identifier c ∷ identifiers cs

abbrev pub by_identifier : List Container → Assoc Container
by_identifier [] = []
by_identifier (c ∷ cs) = (identifier c, c) ∷ by_identifier cs

single_groups : List Container → Assoc Group
single_groups [] = []
single_groups (c ∷ cs) = (identifier c, (c, [])) ∷ single_groups cs

abbrev is_clash : Group → Bool
is_clash (c, []) = false
is_clash (c, d ∷ ds) = true

has_clash : Assoc Group → Bool
has_clash [] = false
has_clash ((k, group) ∷ temp) = is_clash group || has_clash temp

insert-absent {ℓ} :
    {V : Type ℓ} (k : Text) (v : V) (m : Assoc V)
    → lookup k m ≡ none
    → insert k v m ≡ m ++ (k, v) ∷ []
insert-absent k v [] h = refl
insert-absent k v ((j, w) ∷ m) h = elim (Bool-cases (text_eq j k)) [
  | inl e ↦ absurd (ground arith)
  | inr n ↦ rw n (ap (λ (r : List _). (j, w) ∷ r) (insert-absent k v m (ground arith)))
]

has_clash-append :
    (temp more : Assoc Group) → has_clash (temp ++ more) ≡ has_clash temp || has_clash more
unfolding has_clash
has_clash-append [] more = refl
has_clash-append ((k, group) ∷ temp) more = ground (arith, has_clash-append temp more)

or_true : (b : Bool) → b || true ≡ true
or_true true = refl
or_true false = refl

is_clash-snoc :
    (c : Container) (cs : List Container) (d : Container) → is_clash (c, cs ++ d ∷ []) ≡ true
is_clash-snoc c [] d = refl
is_clash-snoc c (e ∷ cs) d = refl

has_clash-insert :
    (k : Text) (c : Container) (cs : List Container) (d : Container) (temp : Assoc Group)
    → has_clash (insert k (c, cs ++ d ∷ []) temp) ≡ true
unfolding has_clash
has_clash-insert k c cs d [] = rw (is_clash-snoc c cs d)
has_clash-insert k c cs d ((j, group) ∷ temp) = elim (Bool-cases (text_eq j k)) [
  | inl e ↦ rw (e, is_clash-snoc c cs d)
  | inr n ↦ rw (n, has_clash, has_clash-insert k c cs d temp) (or_true (is_clash group))
]

keys-append {ℓ} : {V : Type ℓ} (m n : Assoc V) → keys (m ++ n) ≡ keys m ++ keys n
keys-append [] n = refl
keys-append ((k, v) ∷ m) n = ap (λ (ks : List Text). k ∷ ks) (keys-append m n)

mem-keys {ℓ} : {V : Type ℓ} (k : Text) (m : Assoc V) → mem_text k (keys m) ≡ is_some (lookup k m)
mem-keys k [] = refl
mem-keys k ((j, v) ∷ m) = ground (arith, mem-keys k m, text_eq_iff k j, text_eq_iff j k)

module _ (c : Container) (temp : Assoc Group) where
  group_container-new :
      lookup (identifier c) temp ≡ none
      → group_container c temp ≡ temp ++ (identifier c, (c, [])) ∷ []
  unfolding group_container
  group_container-new h = rw (h, group_container) (insert-absent (identifier c) (c, []) temp h)

  group_container-old :
      (group : Group)
      → lookup (identifier c) temp ≡ some group
      → has_clash (group_container c temp) ≡ true
  unfolding group_container
  group_container-old (first, more) h =
      rw (h, group_container) (has_clash-insert (identifier c) first more c temp)

  group_container-clash : has_clash temp ≡ true → has_clash (group_container c temp) ≡ true
  group_container-clash h = elim (Option-cases (lookup (identifier c) temp)) [
    | inl e ↦
        rw (group_container-new e, has_clash-append temp ((identifier c, (c, [])) ∷ []), h) refl
    | inr (group, e) ↦ group_container-old group e
  ]

group_all-clash :
    (cs : List Container) (temp : Assoc Group)
    → has_clash temp ≡ true
    → has_clash (group_all cs temp) ≡ true
unfolding group_all
group_all-clash [] temp h = h
group_all-clash (c ∷ cs) temp h =
    group_all-clash cs (group_container c temp) (group_container-clash c temp h)

-- Either the identifiers are distinct and each has a group of one, or some group has two.
group_all-cases :
    (cs : List Container) (temp : Assoc Group)
    → DistinctNames (keys temp)
    → (DistinctNames (keys temp ++ identifiers cs) × (group_all cs temp ≡ temp ++ single_groups cs))
      ⊎ ((¬ DistinctNames (keys temp ++ identifiers cs)) × (has_clash (group_all cs temp) ≡ true))
unfolding group_all single_groups
group_all-cases [] temp d = inl (rw append-nil d, sym (append-nil temp))
group_all-cases (c ∷ cs) temp d = elim (Option-cases (lookup (identifier c) temp)) [
  | inl e ↦
      let entry : Assoc Group = (identifier c, (c, [])) ∷ [] in
      let names : keys (temp ++ entry) ++ identifiers cs
          ≡ keys temp ++ identifier c ∷ identifiers cs =
        rw (keys-append temp entry)
          (append_assoc (keys temp) (identifier c ∷ []) (identifiers cs)) in
      let absent : mem_text (identifier c) (keys temp) ≡ false =
        rw (mem-keys (identifier c) temp, e) refl in
      let d' : DistinctNames (keys (temp ++ entry)) =
        rw (keys-append temp entry) (DistinctNames-snoc (keys temp) (identifier c) d absent) in
      rw (group_container-new c temp e, ← names, ← append_assoc temp entry (single_groups cs))
        (group_all-cases cs (temp ++ entry) d')
  | inr (group, e) ↦ inr (
    λ dn. cc (
      DistinctNames-middle (keys temp) (identifier c) (identifiers cs) dn,
      mem-keys (identifier c) temp,
      e,
    ),
    group_all-clash cs _ (group_container-old c temp group e),
  )
]

container_map-single :
    (cs : List Container) → container_map (single_groups cs) ≡ ok (by_identifier cs)
unfolding container_map single_groups
container_map-single [] = refl
container_map-single (c ∷ cs) = rw (container_map-single cs, container_map)

container_map-clash :
    (temp : Assoc Group)
    → has_clash temp ≡ true
    → (k : Text) × (affected : List Container) × (container_map temp
        ≡ err (identifier_collision k affected))
unfolding container_map has_clash
container_map-clash [] h = absurd (cc)
container_map-clash ((k, (c, [])) ∷ temp) h =
    let (j, affected, e) = container_map-clash temp h in (j, affected, rw (e, container_map))
container_map-clash ((k, (c, d ∷ ds)) ∷ temp) h = (k, c ∷ d ∷ ds, refl)

-- With distinct identifiers the map has each container under its own; otherwise two collide.
pub container_map_lem :
    (cs : List Container)
    → (DistinctNames (identifiers cs) × (container_map (group_all cs []) ≡ ok (by_identifier cs)))
      ⊎ ((¬ DistinctNames (identifiers cs))
          × ((k : Text) × (affected : List Container) × (container_map (group_all cs [])
                ≡ err (identifier_collision k affected))))
container_map_lem cs = elim (group_all-cases cs [] tt) [
  | inl (d, e) ↦ inl (d, rw e (container_map-single cs))
  | inr (d, clash) ↦ inr (d, container_map-clash (group_all cs []) clash)
]
