-- ===== src/Prelude/Sort.antt =====
-- Sorting by a key in a strict order: the specification of `sort.Sort` that the program uses, and
-- a run of it by insertion.
use mathlib.Core.Path.{◌≡◌, refl, ap₂, sym, subst, ◌∙◌}
use mathlib.Core.Logic.{◌≢◌}
use mathlib.Core.Bool.{Bool, true, false}
use mathlib.Core.List.Memᴰ.{not-nil}
use mathlib.Core.List.{List, [], ◌∷◌, Memᴰ, Permᴰ}
use mathlib.Core.List.Permᴰ
use mathlib.Core.Logic.{inl, inr}
use aether_supervisor.Prelude.Tests.{if◌then◌else◌, Bool-cases}
use aether_supervisor.Prelude.Lists.{All, All-mem, All-perm, All-keep, Permᴰ-mem, keep}
use aether_supervisor.Prelude.Bytes.{
  Text, text_lt, text_lt_irrefl, text_lt_trans, text_lt_connected,
}

-- A strict total order given by a Boolean test.
pub record StrictOrder (K : Type 0) : Type 0 where
  pub lt : K → K → Bool
  pub irrefl : (a : K) → lt a a ≡ false
  pub trans : (a b c : K) → lt a b ≡ true → lt b c ≡ true → lt a c ≡ true
  pub connected : (a b : K) → lt a b ≡ false → lt b a ≡ false → a ≡ b

abbrev pub text_order : StrictOrder Text
text_order = record {
  lt = text_lt;
  irrefl = text_lt_irrefl;
  trans = text_lt_trans;
  connected = text_lt_connected;
}

-- No two elements of the list have the same key.
abbrev pub Distinct : {A K : Type 0} → (A → K) → List A → Type 0
Distinct key [] = Unit
Distinct key (x ∷ xs) = All (λ y. key x ≢ key y) xs × Distinct key xs

module _ {A K : Type 0} (key : A → K) where
  pub Distinct-keep : (p : A → Bool) (xs : List A) → Distinct key xs → Distinct key (keep p xs)
  Distinct-keep p [] d = tt
  Distinct-keep p (x ∷ xs) d = elim (Bool-cases (p x)) [
    | inl h ↦ rw h (All-keep (λ y. key x ≢ key y) p xs d.0, Distinct-keep p xs d.1)
    | inr h ↦ rw h (Distinct-keep p xs d.1)
  ]

  pub Distinct-perm : {xs ys : List A} → Permᴰ xs ys → Distinct key xs → Distinct key ys
  Distinct-perm Permᴰ.nil d = tt
  Distinct-perm (Permᴰ.cons e p) d =
      (rw (← e) (All-perm (λ y. key _ ≢ key y) (Permᴰ.symm p) d.0), Distinct-perm p d.1)
  Distinct-perm (Permᴰ.swap {a} {b} {a'} {b'} {l} e f) d =
      subst (λ x. Distinct key (x ∷ b' ∷ l)) f
        (subst (λ y. Distinct key (b ∷ y ∷ l)) e ((λ h. d.0.0 (sym h), d.1.0), (d.0.1, d.1.1)))
  Distinct-perm (Permᴰ.trans p q) d = Distinct-perm q (Distinct-perm p d)

module _ {A K : Type 0} (o : StrictOrder K) (key : A → K) where
  abbrev pub insert_by : A → List A → List A
  insert_by x [] = x ∷ []
  insert_by x (y ∷ ys) = if o.lt (key y) (key x) then y ∷ insert_by x ys else x ∷ y ∷ ys

  abbrev pub sort_by : List A → List A
  sort_by [] = []
  sort_by (x ∷ xs) = insert_by x (sort_by xs)

  -- Each key is less than all that follow it.
  abbrev pub Ascending : List A → Type 0
  Ascending [] = Unit
  Ascending (x ∷ xs) = All (λ y. o.lt (key x) (key y) ≡ true) xs × Ascending xs

  insert_by-perm : (x : A) (ys : List A) → Permᴰ (insert_by x ys) (x ∷ ys)
  insert_by-perm x [] = Permᴰ.refl _
  insert_by-perm x (y ∷ ys) = elim (Bool-cases (o.lt (key y) (key x))) [
    | inl h ↦ rw h (Permᴰ.trans (Permᴰ.cons refl (insert_by-perm x ys)) (Permᴰ.swap refl refl))
    | inr h ↦ rw h (Permᴰ.refl _)
  ]

  pub sort_by-perm : (xs : List A) → Permᴰ (sort_by xs) xs
  sort_by-perm [] = Permᴰ.nil
  sort_by-perm (x ∷ xs) =
      Permᴰ.trans (insert_by-perm x (sort_by xs)) (Permᴰ.cons refl (sort_by-perm xs))

  lt_of_ne : (a b : A) → key a ≢ key b → o.lt (key b) (key a) ≡ false → o.lt (key a) (key b) ≡ true
  lt_of_ne a b d h = elim (Bool-cases (o.lt (key a) (key b))) [
    | inl k ↦ k
    | inr k ↦ absurd (d (o.connected (key a) (key b) k h))
  ]

  below-All :
      (x y : A) (ys : List A)
      → o.lt (key x) (key y) ≡ true
      → All (λ z. o.lt (key y) (key z) ≡ true) ys
      → All (λ z. o.lt (key x) (key z) ≡ true) ys
  below-All x y [] h a = tt
  below-All x y (z ∷ zs) h a = (o.trans (key x) (key y) (key z) h a.0, below-All x y zs h a.1)

  insert_by-Ascending :
      (x : A) (ys : List A)
      → All (λ y. key x ≢ key y) ys
      → Ascending ys
      → Ascending (insert_by x ys)
  insert_by-Ascending x [] d a = (tt, tt)
  insert_by-Ascending x (y ∷ ys) d a = elim (Bool-cases (o.lt (key y) (key x))) [
    | inl h ↦ rw h (
      All-perm (λ z. o.lt (key y) (key z) ≡ true) (insert_by-perm x ys) (h, a.0),
      insert_by-Ascending x ys d.1 a.1,
    )
    | inr h ↦ let lt = lt_of_ne x y d.0 h in rw h ((lt, below-All x y ys lt a.0), (a.0, a.1))
  ]

  pub sort_by-Ascending : (xs : List A) → Distinct key xs → Ascending (sort_by xs)
  sort_by-Ascending [] d = tt
  sort_by-Ascending (x ∷ xs) d =
      insert_by-Ascending x (sort_by xs) (All-perm (λ y. key x ≢ key y) (sort_by-perm xs) d.0)
        (sort_by-Ascending xs d.1)

  lt_asym : (a b : K) → o.lt a b ≡ true → o.lt b a ≡ true → ⊥
  lt_asym a b h k = cc (o.trans a b a h k, o.irrefl a)

  ne_of_above : {x a : A} (xs : List A) → Ascending (x ∷ xs) → Memᴰ a xs → a ≢ x
  ne_of_above {x} {a} xs h m e =
      let lt = All-mem (λ z. o.lt (key x) (key z) ≡ true) m h.0 in cc (o.irrefl (key x))

  heads_eq :
      (x y : A) (xs ys : List A)
      → Ascending (x ∷ xs)
      → Ascending (y ∷ ys)
      → Memᴰ x (y ∷ ys)
      → Memᴰ y (x ∷ xs)
      → x ≡ y
  heads_eq x y xs ys ax ay (Memᴰ.head e) n = e
  heads_eq x y xs ys ax ay (Memᴰ.tail m) (Memᴰ.head e) = sym e
  heads_eq x y xs ys ax ay (Memᴰ.tail m) (Memᴰ.tail n) = absurd (
      lt_asym (key x) (key y) (All-mem (λ z. o.lt (key x) (key z) ≡ true) n ax.0)
        (All-mem (λ z. o.lt (key y) (key z) ≡ true) m ay.0))

  mem_tail : {a y : A} {ys : List A} → a ≢ y → Memᴰ a (y ∷ ys) → Memᴰ a ys
  mem_tail d (Memᴰ.head e) = absurd (d e)
  mem_tail d (Memᴰ.tail m) = m

  -- An ascending list is determined by its elements.
  pub Ascending-unique :
      (xs ys : List A)
      → Ascending xs
      → Ascending ys
      → ((a : A) → Memᴰ a xs → Memᴰ a ys)
      → ((a : A) → Memᴰ a ys → Memᴰ a xs)
      → xs ≡ ys
  Ascending-unique [] [] ax ay f g = refl
  Ascending-unique [] (y ∷ ys) ax ay f g = absurd (not-nil (g y (Memᴰ.head refl)))
  Ascending-unique (x ∷ xs) [] ax ay f g = absurd (not-nil (f x (Memᴰ.head refl)))
  Ascending-unique (x ∷ xs) (y ∷ ys) ax ay f g =
      let e = heads_eq x y xs ys ax ay (f x (Memᴰ.head refl)) (g y (Memᴰ.head refl)) in
      ap₂ ◌∷◌ e (
        Ascending-unique xs ys ax.1 ay.1
          (λ a m. mem_tail (λ h. ne_of_above xs ax m (h ∙ sym e)) (f a (Memᴰ.tail m)))
          (λ a m. mem_tail (λ h. ne_of_above ys ay m (h ∙ e)) (g a (Memᴰ.tail m))))

  pub sort_by_unique :
      (xs ys : List A) → Distinct key xs → Ascending ys → Permᴰ xs ys → sort_by xs ≡ ys
  sort_by_unique xs ys d a p =
      Ascending-unique (sort_by xs) ys (sort_by-Ascending xs d) a
        (λ z m. Permᴰ-mem p (Permᴰ-mem (sort_by-perm xs) m))
        (λ z m. Permᴰ-mem (Permᴰ.symm (sort_by-perm xs)) (Permᴰ-mem (Permᴰ.symm p) m))

  -- Two arrangements of the same elements sort to the same list.
  pub sort_by-perm_eq : {xs ys : List A} → Permᴰ xs ys → Distinct key xs → sort_by xs ≡ sort_by ys
  sort_by-perm_eq {xs} {ys} p d =
      sort_by_unique xs (sort_by ys) d (sort_by-Ascending ys (Distinct-perm key p d))
        (Permᴰ.trans p (Permᴰ.symm (sort_by-perm ys)))
