-- ===== src/Cleanup/Excess/Selection.antt =====
-- Which containers getExcessContainers returns.
use aether_supervisor.Prelude.{
  Text, Assoc, insert, any, keep, text_eq, text_eq_iff, Bool, true, false, ◌&&◌, not, some, List,
  [], ◌∷◌, ◌≡◌, refl, sym, ◌∙◌, ◌⊎◌, inl, inr, All, Memᴰ, mem-keep, mem-keep_of, Bool-cases,
}
use mathlib.Core.List.Memᴰ.{not-nil, cases_cons}
use aether_supervisor.Container.Data.{Container, id}
use aether_supervisor.Cleanup.Excess.{
  instance_filter, container_chain, get_filtered_containers, get_chained_containers, insert_all,
  values, add_excess_containers, get_excess_containers,
}

abbrev IsById : Assoc Container → Type 0
IsById = All (λ e. id e.1 ≡ e.0)

-- A container with the ID.
abbrev pub Holds : List Container → Text → Type 0
Holds cs k = (d : Container) × Memᴰ d cs × (id d ≡ k)

insert-IsById : (c : Container) (m : Assoc Container) → IsById m → IsById (insert (id c) c m)
insert-IsById c [] h = (refl, tt)
insert-IsById c ((j, w) ∷ m) h = elim (Bool-cases (text_eq j (id c))) [
  | inl e ↦ rw e (refl, h.1)
  | inr e ↦ rw e (h.0, insert-IsById c m h.1)
]

insert-mem :
    (k : Text) (c d : Container) (m : Assoc Container)
    → Memᴰ d (values (insert k c m))
    → (d ≡ c) ⊎ Memᴰ d (values m)
insert-mem k c d [] i = elim (cases_cons i) [ inl e ↦ inl e | inr r ↦ inr r ]
insert-mem k c d ((j, w) ∷ m) i = elim (Bool-cases (text_eq j k)) [
  | inl e ↦ elim (cases_cons (rw e at i)) [ inl f ↦ inl f | inr r ↦ inr (Memᴰ.tail r) ]
  | inr e ↦ elim (cases_cons (rw e at i)) [
    | inl f ↦ inr (Memᴰ.head f)
    | inr r ↦ elim (insert-mem k c d m r) [ inl f ↦ inl f | inr q ↦ inr (Memᴰ.tail q) ]
  ]
]

insert-Holds_same :
    (k : Text) (c : Container) (m : Assoc Container) → Memᴰ c (values (insert k c m))
insert-Holds_same k c [] = Memᴰ.head refl
insert-Holds_same k c ((j, w) ∷ m) = elim (Bool-cases (text_eq j k)) [
  | inl e ↦ rw e (Memᴰ.head refl)
  | inr e ↦ rw e (Memᴰ.tail (insert-Holds_same k c m))
]

tail-Holds : (c : Container) (cs : List Container) (k : Text) → Holds cs k → Holds (c ∷ cs) k
tail-Holds c cs k (d, i, e) = (d, Memᴰ.tail i, e)

insert-Holds :
    (c : Container) (m : Assoc Container) (k : Text)
    → IsById m
    → Holds (values m) k
    → Holds (values (insert (id c) c m)) k
insert-Holds c [] k h (d, i, e) = absurd (not-nil i)
insert-Holds c ((j, w) ∷ m) k h (d, i, e) = elim (Bool-cases (text_eq j (id c))) [
  | inl f ↦ elim (cases_cons i) [
    | inl same ↦
        rw f (c, Memᴰ.head refl, sym ((text_eq_iff j (id c)).0 f) ∙ sym h.0 ∙ (rw same at e))
    | inr rest ↦ rw f (d, Memᴰ.tail rest, e)
  ]
  | inr f ↦ elim (cases_cons i) [
    | inl same ↦ rw f (w, Memᴰ.head refl, rw same at e)
    | inr rest ↦ rw f (tail-Holds w _ k (insert-Holds c m k h.1 (d, rest, e)))
  ]
]

insert_all-mem :
    (cs : List Container) (m : Assoc Container) (d : Container)
    → Memᴰ d (values (insert_all cs m))
    → Memᴰ d cs ⊎ Memᴰ d (values m)
unfolding insert_all
insert_all-mem [] m d i = inr i
insert_all-mem (c ∷ cs) m d i = elim (insert_all-mem cs (insert (id c) c m) d i) [
  | inl r ↦ inl (Memᴰ.tail r)
  | inr r ↦ elim (insert-mem (id c) c d m r) [ inl e ↦ inl (Memᴰ.head e) | inr q ↦ inr q ]
]

insert_all-IsById :
    (cs : List Container) (m : Assoc Container) → IsById m → IsById (insert_all cs m)
unfolding insert_all
insert_all-IsById [] m h = h
insert_all-IsById (c ∷ cs) m h = insert_all-IsById cs (insert (id c) c m) (insert-IsById c m h)

insert_all-Holds_old :
    (cs : List Container) (m : Assoc Container) (k : Text)
    → IsById m
    → Holds (values m) k
    → Holds (values (insert_all cs m)) k
unfolding insert_all
insert_all-Holds_old [] m k h o = o
insert_all-Holds_old (c ∷ cs) m k h o =
    insert_all-Holds_old cs (insert (id c) c m) k (insert-IsById c m h) (insert-Holds c m k h o)

insert_all-Holds :
    (cs : List Container) (m : Assoc Container) (d : Container)
    → IsById m
    → Memᴰ d cs
    → Holds (values (insert_all cs m)) (id d)
unfolding insert_all
insert_all-Holds [] m d h i = absurd (not-nil i)
insert_all-Holds (c ∷ cs) m d h i = elim (cases_cons i) [
  | inl e ↦
      insert_all-Holds_old cs (insert (id c) c m) (id d) (insert-IsById c m h)
        (c, insert-Holds_same (id c) c m, rw e refl)
  | inr r ↦ insert_all-Holds cs (insert (id c) c m) d (insert-IsById c m h) r
]

add_excess_containers-mem :
    (excess chain : List Container) (d : Container)
    → Memᴰ d (add_excess_containers excess chain)
    → Memᴰ d chain ⊎ Memᴰ d excess
unfolding add_excess_containers
add_excess_containers-mem excess chain d i =
    elim (insert_all-mem chain (insert_all excess []) d i) [
      | inl r ↦ inl r
      | inr r ↦ elim (insert_all-mem excess [] d r) [ inl q ↦ inr q | inr n ↦ absurd (not-nil n) ]
    ]

add_excess_containers-Holds :
    (excess chain : List Container) (d : Container)
    → Memᴰ d chain ⊎ Memᴰ d excess
    → Holds (add_excess_containers excess chain) (id d)
unfolding add_excess_containers
add_excess_containers-Holds excess chain d (inl i) =
    insert_all-Holds chain (insert_all excess []) d (insert_all-IsById excess [] tt) i
add_excess_containers-Holds excess chain d (inr i) =
    insert_all-Holds_old chain (insert_all excess []) (id d) (insert_all-IsById excess [] tt)
      (insert_all-Holds excess [] d tt i)

module _ (scope : Text) (current : Container) where
  -- Another instance in the scope, or a container of the chain of the current one.
  abbrev pub IsExcess : Container → Type 0
  IsExcess c =
      (text_eq (id c) (id current) ≡ false)
      × ((instance_filter scope c ≡ true) ⊎ (any (text_eq (id c)) (container_chain current) ≡ true))

  abbrev is_other : Container → Bool
  is_other c = not (text_eq (id c) (id current))

  abbrev in_chain : Container → Bool
  in_chain c = any (text_eq (id c)) (container_chain current) && not (text_eq (id c) (id current))

  and-true : (a b : Bool) → (a && not b) ≡ true → (a ≡ true) × (b ≡ false)
  and-true true false h = (refl, refl)
  and-true true true h = absurd (cc)
  and-true false b h = absurd (cc)

  not-true : (b : Bool) → not b ≡ true → b ≡ false
  not-true false h = refl
  not-true true h = absurd (cc)

  chosen :
      (all_containers : List Container) (c : Container)
      → Memᴰ c all_containers
      → IsExcess c
      → Memᴰ c (get_chained_containers all_containers current)
        ⊎ Memᴰ c (get_filtered_containers scope (some current) all_containers)
  unfolding get_filtered_containers get_chained_containers
  chosen all_containers c i (other, inr chained) =
      inl (mem-keep_of in_chain i (rw (chained, other) refl))
  chosen all_containers c i (other, inl h) =
      inr (mem-keep_of is_other (mem-keep_of (instance_filter scope) i h) (rw other refl))

  -- An excess container is one of all containers, is another than the current one, and is an
  -- instance in the scope or in the chain of the current one. Of every such container one with its
  -- ID is excess.
  pub get_excess_containers_lem :
      (all_containers : List Container) (c : Container)
      → (Memᴰ c (get_excess_containers scope (some current) all_containers)
          → Memᴰ c all_containers × IsExcess c)
        × (Memᴰ c all_containers
            → IsExcess c
            → Holds (get_excess_containers scope (some current) all_containers) (id c))
  unfolding get_excess_containers get_filtered_containers get_chained_containers
  get_excess_containers_lem all_containers c = (
    λ i.
        elim (add_excess_containers-mem
          (get_filtered_containers scope (some current) all_containers)
          (get_chained_containers all_containers current) c i) [
            | inl r ↦
                let (all, h) = mem-keep in_chain all_containers r in
                let (chained, other) = and-true _ _ h in (all, (other, inr chained))
            | inr r ↦
                let (kept, other) =
                  mem-keep is_other (keep (instance_filter scope) all_containers) r in
                let (all, h) = mem-keep (instance_filter scope) all_containers kept in
                (all, (not-true _ other, inl h))
          ],
    λ i x.
        add_excess_containers-Holds (get_filtered_containers scope (some current) all_containers)
          (get_chained_containers all_containers current) c (chosen all_containers c i x),
  )
