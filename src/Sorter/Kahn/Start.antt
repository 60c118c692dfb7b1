-- ===== src/Sorter/Kahn/Start.antt =====
-- The queue that initializeQueue makes.
use mathlib.Core.List.Permᴰ
use aether_supervisor.Prelude.{
  Text, Assoc, text_eq_iff, ◌&&◌, List, [], ◌∷◌, ◌==◌, ℕ, ◌≡◌, refl, ◌∙◌, arith, All, Permᴰ,
  sort_by-perm, Distinct-perm, Bool-cases, inl, inr, ◌≢◌,
}
use aether_supervisor.Sorter.Graph.{degree, keys}
use aether_supervisor.Sorter.Queue.{zero_keys, initialize_queue, descending}
use aether_supervisor.Sorter.Kahn.Edges.{mem_text, DistinctNames, mem_text_of_ne}

pub mem_text-perm : (k : Text) {xs ys : List Text} → Permᴰ xs ys → mem_text k xs ≡ mem_text k ys
mem_text-perm k Permᴰ.nil = refl
mem_text-perm k (Permᴰ.cons e p) = ground (arith, mem_text-perm k p)
mem_text-perm k (Permᴰ.swap e f) = ground arith
mem_text-perm k (Permᴰ.trans p q) = mem_text-perm k p ∙ mem_text-perm k q

zero_keys-mem :
    (k : Text) (m : Assoc ℕ)
    → DistinctNames (keys m)
    → mem_text k (zero_keys m) ≡ (mem_text k (keys m) && (degree m k == 0))
zero_keys-mem k [] d = refl
zero_keys-mem k ((j, n) ∷ m) d =
    ground (
      arith,
      zero_keys-mem k m d.1,
      mem_text_of_ne j (keys m) d.0,
      text_eq_iff k j,
      text_eq_iff j k,
    )

ne-zero_keys : (j : Text) (m : Assoc ℕ) → All (λ k. j ≢ k) (keys m) → All (λ k. j ≢ k) (zero_keys m)
ne-zero_keys j [] h = tt
ne-zero_keys j ((k, n) ∷ m) h = elim (Bool-cases (n == 0)) [
  | inl z ↦ rw z (h.0, ne-zero_keys j m h.1)
  | inr z ↦ rw z (ne-zero_keys j m h.1)
]

zero_keys-Distinct : (m : Assoc ℕ) → DistinctNames (keys m) → DistinctNames (zero_keys m)
zero_keys-Distinct [] d = tt
zero_keys-Distinct ((j, n) ∷ m) d = elim (Bool-cases (n == 0)) [
  | inl z ↦ rw z (ne-zero_keys j m d.0, zero_keys-Distinct m d.1)
  | inr z ↦ rw z (zero_keys-Distinct m d.1)
]

-- The queue starts with the nodes that wait for nothing, each once.
pub initialize_queue_lem :
    (m : Assoc ℕ)
    → DistinctNames (keys m)
    → ((k : Text) → mem_text k (initialize_queue m) ≡ (mem_text k (keys m) && (degree m k == 0)))
      × DistinctNames (initialize_queue m)
unfolding initialize_queue
initialize_queue_lem m d =
    let p = sort_by-perm descending (λ k. k) (zero_keys m) in
    (
      λ k. mem_text-perm k p ∙ zero_keys-mem k m d,
      Distinct-perm (λ k. k) (Permᴰ.symm p) (zero_keys-Distinct m d),
    )
