-- ===== src/Sorter/Kahn/Lookup.antt =====
-- From an order of identifiers to the containers.
use mathlib.Core.List.Permᴰ
use aether_supervisor.Prelude.{
  Text, Assoc, text_eq, text_eq_iff, text_eq_refl, lookup, true, Option, none, some, List, [], ◌∷◌,
  Permᴰ, ◌≤◌, ◌≡◌, ◌≢◌, inl, inr, refl, sym, subst, ap, ◌∙◌, arith, length, All, Bool-cases,
}
use aether_supervisor.Container.Data.{Container}
use aether_supervisor.Sorter.Graph.{identifier}
use aether_supervisor.Sorter.Queue.{containers_of, with_found}
use aether_supervisor.Sorter.Kahn.Edges.{mem_text, DistinctNames, remove, length-remove, All-remove}
use aether_supervisor.Sorter.Kahn.Groups.{identifiers, by_identifier}

-- Looking the identifiers up keeps their number, their order and their identity.
module _ (cs : List Container) where
  lookup-by_identifier :
      (k : Text) (cs : List Container)
      → mem_text k (identifiers cs) ≡ true
      → (c : Container) × (lookup k (by_identifier cs) ≡ some c) × (identifier c ≡ k)
  lookup-by_identifier k [] m = absurd (cc)
  lookup-by_identifier k (c ∷ cs) m = elim (Bool-cases (text_eq (identifier c) k)) [
    | inl e ↦ (c, rw e, (text_eq_iff (identifier c) k).0 e)
    | inr n ↦
        let rest : mem_text k (identifiers cs) ≡ true =
          ground (arith, text_eq_iff (identifier c) k, text_eq_iff k (identifier c)) in
        let (d, found, same) = lookup-by_identifier k cs rest in (d, rw n found, same)
  ]

  pub identifiers-containers_of :
      (order : List Text)
      → ((k : Text) → mem_text k order ≡ true → mem_text k (identifiers cs) ≡ true)
      → identifiers (containers_of (by_identifier cs) order) ≡ order
  unfolding containers_of
  identifiers-containers_of [] h = refl
  identifiers-containers_of (k ∷ order) h =
      let (c, found, same) = lookup-by_identifier k cs (h k (ground (arith, text_eq_refl k))) in
      let rest = identifiers-containers_of order (λ j m. h j (ground arith)) in
      rw (found, containers_of, rest, same) refl

with_found-perm :
    (o : Option Container) {us vs : List Container}
    → Permᴰ us vs
    → Permᴰ (with_found o us) (with_found o vs)
with_found-perm none p = p
with_found-perm (some c) p = Permᴰ.cons refl p

with_found-swap :
    (o q : Option Container) (us : List Container)
    → Permᴰ (with_found o (with_found q us)) (with_found q (with_found o us))
with_found-swap none q us = Permᴰ.refl _
with_found-swap (some c) none us = Permᴰ.refl _
with_found-swap (some c) (some d) us = Permᴰ.swap refl refl

containers_of-perm :
    (found : Assoc Container) {xs ys : List Text}
    → Permᴰ xs ys
    → Permᴰ (containers_of found xs) (containers_of found ys)
unfolding containers_of
containers_of-perm found Permᴰ.nil = Permᴰ.nil
containers_of-perm found (Permᴰ.cons {a} {l₁} {l₂ = l} e p) =
    subst (λ b. Permᴰ (containers_of found (a ∷ l₁)) (containers_of found (b ∷ l))) e
      (with_found-perm (lookup a found) (containers_of-perm found p))
containers_of-perm found (Permᴰ.swap {a} {b} {l = l} e f) =
    rw (← e, ← f) (with_found-swap (lookup a found) (lookup b found) (containers_of found l))
containers_of-perm found (Permᴰ.trans p q) =
    Permᴰ.trans (containers_of-perm found p) (containers_of-perm found q)

remove-perm : (k : Text) (xs : List Text) → mem_text k xs ≡ true → Permᴰ xs (k ∷ remove k xs)
unfolding remove
remove-perm k [] h = absurd (cc)
remove-perm k (x ∷ xs) h = elim (Bool-cases (text_eq k x)) [
  | inl e ↦ rw (remove, e) (Permᴰ.cons (sym ((text_eq_iff k x).0 e)) (Permᴰ.refl xs))
  | inr n ↦
      rw (remove, n)
        (Permᴰ.trans (Permᴰ.cons refl (remove-perm k xs (ground arith))) (Permᴰ.swap refl refl))
]

-- A list without repetitions that has no room for more is the other list rearranged.
pub perm_of_subset :
    (xs ys : List Text)
    → DistinctNames xs
    → All (λ k. mem_text k ys ≡ true) xs
    → length ys ≤ length xs
    → Permᴰ xs ys
perm_of_subset [] [] d h l = Permᴰ.nil
perm_of_subset [] (y ∷ ys) d h l = absurd (omega arith)
perm_of_subset (x ∷ xs) ys d h l =
    Permᴰ.trans
      (Permᴰ.cons refl (
        perm_of_subset xs (remove x ys) d.1 (All-remove x xs ys d.0 h.1)
          (omega (arith, length-remove x ys h.0))))
      (Permᴰ.symm (remove-perm x ys h.0))

containers_of-skip :
    (k : Text) (c : Container) (found : Assoc Container) (ks : List Text)
    → All (λ j. k ≢ j) ks
    → containers_of ((k, c) ∷ found) ks ≡ containers_of found ks
unfolding containers_of
containers_of-skip k c found [] h = refl
containers_of-skip k c found (j ∷ ks) h =
    ground (arith, containers_of-skip k c found ks h.1, text_eq_iff k j)

containers_of_self :
    (cs : List Container)
    → DistinctNames (identifiers cs)
    → containers_of (by_identifier cs) (identifiers cs) ≡ cs
unfolding containers_of
containers_of_self [] d = refl
containers_of_self (c ∷ cs) d = rw (text_eq_refl (identifier c)) (
    ap (λ (ds : List Container). c ∷ ds)
      (containers_of-skip (identifier c) c (by_identifier cs) (identifiers cs) d.0
        ∙ containers_of_self cs d.1))

-- An order of all identifiers gives all containers, rearranged.
pub containers_of_order :
    (cs : List Container) (order : List Text)
    → DistinctNames (identifiers cs)
    → Permᴰ order (identifiers cs)
    → Permᴰ (containers_of (by_identifier cs) order) cs
containers_of_order cs order d p =
    rw (containers_of_self cs d) at (containers_of-perm (by_identifier cs) p)
