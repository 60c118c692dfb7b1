-- ===== src/Sorter/Kahn/Edges.antt =====
-- The dependency graph as a list of edges, each from a dependency to its dependent, and what it
-- means for an order of the nodes to respect it.
use aether_supervisor.Prelude.{
  Text, text_eq, text_eq_iff, text_eq_refl, any, Bool, true, false, ◌&&◌, ◌||◌, not, List, [], ◌∷◌,
  ◌++◌, if◌then◌else◌, ℕ, suc, subst, Bool-cases, inl, inr, append-nil, append_assoc, All-append,
  sym, ◌+◌, ◌≤◌, ◌≡◌, refl, arith, length, ◌≢◌, All, Distinct,
}

abbrev pub Edges : Type 0
Edges = List (Text × Text)

abbrev pub mem_text : Text → List Text → Bool
mem_text k = any (text_eq k)

-- How many edges into the node come from outside the set.
abbrev pub waits : Edges → List Text → Text → ℕ
waits [] set node = 0
waits ((source, target) ∷ edges) set node =
    let rest = waits edges set node in
    if text_eq target node && not (mem_text source set) then suc rest else rest

-- Each node of the list waits for no node that is not in front of it.
abbrev pub Ordered : Edges → List Text → List Text → Type 0
Ordered edges seen [] = Unit
Ordered edges seen (node ∷ nodes) =
    (waits edges seen node ≡ 0) × Ordered edges (seen ++ node ∷ []) nodes

abbrev pub targets_of : Edges → Text → List Text
targets_of [] source = []
targets_of ((s, t) ∷ edges) source =
    let rest = targets_of edges source in if text_eq s source then t ∷ rest else rest

-- How often the node stands in the list.
abbrev pub count : Text → List Text → ℕ
count node [] = 0
count node (k ∷ ks) = let rest = count node ks in if text_eq k node then suc rest else rest

pub mem_text-append :
    (k : Text) (xs ys : List Text) → mem_text k (xs ++ ys) ≡ mem_text k xs || mem_text k ys
mem_text-append k [] ys = refl
mem_text-append k (x ∷ xs) ys = ground (arith, mem_text-append k xs ys)

-- A node that leaves the queue frees each of its dependents of one edge for each time it is
-- listed.
pub waits-snoc :
    (edges : Edges) (set : List Text) (current node : Text)
    → mem_text current set ≡ false
    → waits edges (set ++ current ∷ []) node + count node (targets_of edges current)
      ≡ waits edges set node
waits-snoc [] set current node h = omega arith
waits-snoc ((s, t) ∷ edges) set current node h = ground (
  arith,
  waits-snoc edges set current node h,
  mem_text-append s set (current ∷ []),
  text_eq_iff s current,
)

-- A larger set leaves no more to wait for.
pub waits_mono :
    (edges : Edges) (small large : List Text) (node : Text)
    → ((k : Text) → mem_text k small ≡ true → mem_text k large ≡ true)
    → waits edges large node ≤ waits edges small node
waits_mono [] small large node h = omega arith
waits_mono ((s, t) ∷ edges) small large node h =
    ground (arith, waits_mono edges small large node h, h s)

pub Ordered-snoc :
    (edges : Edges) (seen nodes : List Text) (node : Text)
    → Ordered edges seen nodes
    → waits edges (seen ++ nodes) node ≡ 0
    → Ordered edges seen (nodes ++ node ∷ [])
Ordered-snoc edges seen [] node h w = (rw append-nil at w, tt)
Ordered-snoc edges seen (n ∷ nodes) node h w = (
  h.0,
  Ordered-snoc edges (seen ++ n ∷ []) nodes node h.1 (rw (append_assoc seen (n ∷ []) nodes) w),
)

-- A list of names with none twice.
abbrev pub DistinctNames : List Text → Type 0
DistinctNames = Distinct (λ k. k)

names_ne : (k : Text) (xs : List Text) → mem_text k xs ≡ false → All (λ y. k ≢ y) xs
names_ne k [] h = tt
names_ne k (x ∷ xs) h = ground (arith, names_ne k xs, text_eq_iff k x)

pub DistinctNames-snoc :
    (xs : List Text) (k : Text)
    → DistinctNames xs
    → mem_text k xs ≡ false
    → DistinctNames (xs ++ k ∷ [])
DistinctNames-snoc [] k d h = (tt, tt)
DistinctNames-snoc (x ∷ xs) k d h =
    let other : x ≢ k = λ e. ground (arith, text_eq_iff k x) in
    (
      All-append (λ y. x ≢ y) xs (k ∷ []) d.0 (other, tt),
      DistinctNames-snoc xs k d.1 (ground arith),
    )

pub mem_text_of_ne : (k : Text) (xs : List Text) → All (λ y. k ≢ y) xs → mem_text k xs ≡ false
mem_text_of_ne k [] h = refl
mem_text_of_ne k (x ∷ xs) h = ground (arith, mem_text_of_ne k xs h.1, text_eq_iff k x)

-- What stands behind a prefix is not in it.
pub DistinctNames-middle :
    (xs : List Text) (k : Text) (ys : List Text)
    → DistinctNames (xs ++ k ∷ ys)
    → mem_text k xs ≡ false
DistinctNames-middle [] k ys d = refl
DistinctNames-middle (x ∷ xs) k ys d = ground (
  arith,
  DistinctNames-middle xs k ys d.1,
  mem_text_of_ne x (xs ++ k ∷ ys) d.0,
  mem_text-append x xs (k ∷ ys),
  text_eq_iff k x,
  text_eq_iff x k,
)

unfoldable pub remove : Text → List Text → List Text
remove k [] = []
remove k (x ∷ xs) = let rest = remove k xs in if text_eq k x then xs else x ∷ rest

pub length-remove :
    (k : Text) (xs : List Text) → mem_text k xs ≡ true → suc (length (remove k xs)) ≡ length xs
unfolding remove
length-remove k [] h = cc
length-remove k (x ∷ xs) h = ground (arith, length-remove k xs)

mem-remove :
    (j k : Text) (xs : List Text) → j ≢ k → mem_text j xs ≡ true → mem_text j (remove k xs) ≡ true
unfolding remove
mem-remove j k [] d h = cc
mem-remove j k (x ∷ xs) d h = ground (arith, mem-remove j k xs d, text_eq_iff k x, text_eq_iff j x)

pub All-remove :
    (x : Text) (xs ys : List Text)
    → All (λ y. x ≢ y) xs
    → All (λ k. mem_text k ys ≡ true) xs
    → All (λ k. mem_text k (remove x ys) ≡ true) xs
All-remove x [] ys d h = tt
All-remove x (z ∷ zs) ys d h =
    (mem-remove z x ys (λ e. d.0 (sym e)) h.0, All-remove x zs ys d.1 h.1)

-- A list without repetitions is no longer than a list that has all its elements.
pub length_le_of_subset :
    (xs ys : List Text)
    → DistinctNames xs
    → All (λ k. mem_text k ys ≡ true) xs
    → length xs ≤ length ys
length_le_of_subset [] ys d h = omega arith
length_le_of_subset (x ∷ xs) ys d h = omega (
  arith,
  length-remove x ys h.0,
  length_le_of_subset xs (remove x ys) d.1 (All-remove x xs ys d.0 h.1),
)

pub All-of_mem_text :
    (P : Text → Type 0) (xs : List Text) → ((k : Text) → mem_text k xs ≡ true → P k) → All P xs
All-of_mem_text P [] h = tt
All-of_mem_text P (x ∷ xs) h =
    (h x (ground (arith, text_eq_refl x)), All-of_mem_text P xs (λ k m. h k (ground (arith))))

-- What holds of all elements holds of one that is found.
pub All-mem_text :
    (P : Text → Type 0) (xs : List Text) (k : Text) → All P xs → mem_text k xs ≡ true → P k
All-mem_text P [] k h m = absurd (cc)
All-mem_text P (x ∷ xs) k h m = elim (Bool-cases (text_eq k x)) [
  | inl e ↦ subst P (sym ((text_eq_iff k x).0 e)) h.0
  | inr n ↦ All-mem_text P xs k h.1 (ground arith)
]
