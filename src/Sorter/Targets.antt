-- ===== src/Sorter/Targets.antt =====
-- The identifiers that a link means.
use aether_supervisor.Prelude.{
  Text, text_eq, keep, sort_by, sort_by-perm, text_order, Bool, true, false, List, [], ◌∷◌, ◌≡◌,
  All, All-keep, All-perm, Bool-cases, List-cases, inl, inr,
}
use aether_supervisor.Sorter.Names.{is_replica, extract_service_name}
use aether_supervisor.Sorter.Graph.{link_targets, others, single}
use aether_supervisor.Sorter.Kahn.Edges.{mem_text, All-of_mem_text}

module _ (ids : List Text) (self : Text) where
  abbrev pub IsTarget : Text → Type 0
  IsTarget k = (mem_text k ids ≡ true) × (text_eq k self ≡ false)

  others-IsTarget :
      (ks : List Text) → All (λ k. mem_text k ids ≡ true) ks → All IsTarget (others self ks)
  others-IsTarget [] h = tt
  others-IsTarget (k ∷ ks) h = elim (Bool-cases (text_eq k self)) [
    | inl e ↦ rw (e) (others-IsTarget ks h.1)
    | inr n ↦ rw (n) ((h.0, n), others-IsTarget ks h.1)
  ]

  single-All : (P : Text → Type 0) (ks : List Text) → All P ks → All P (single ks)
  single-All P [] h = tt
  single-All P (k ∷ []) h = h
  single-All P (k ∷ j ∷ ks) h = tt

  known : (p : Text → Bool) → All (λ k. mem_text k ids ≡ true) (keep p ids)
  known p =
      All-keep (λ k. mem_text k ids ≡ true) p ids
        (All-of_mem_text (λ k. mem_text k ids ≡ true) ids (λ k m. m))

  -- Every identifier that a link of the container `self` means is one of the identifiers, and not
  -- that of the container itself.
  link_targets-IsTarget : (link : Text) → All IsTarget (link_targets ids self link)
  unfolding link_targets
  link_targets-IsTarget link = elim (Bool-cases (mem_text link ids)) [
    | inl e ↦ rw e (others-IsTarget (link ∷ []) (e, tt))
    | inr n ↦
        let replicas = keep (is_replica link) ids in
        let sorted = sort_by text_order (λ k. k) replicas in
        let named = keep (λ k. text_eq (extract_service_name k) link) ids in
        elim (List-cases sorted) [
          | inl none_found ↦
              rw (n, none_found)
                (others-IsTarget (single named)
                  (single-All (λ j. mem_text j ids ≡ true) named (known _)))
          | inr (k, ks, shape) ↦
              let matched : All (λ j. mem_text j ids ≡ true) sorted =
                All-perm (λ j. mem_text j ids ≡ true) (sort_by-perm text_order (λ k. k) replicas)
                  (known (is_replica link)) in
              rw (n, shape) (others-IsTarget (k ∷ ks) (rw shape at matched))
        ]
  ]
