-- ===== src/Sorter/Kahn/Invariant.antt =====
-- What the loop keeps true, between the rounds and while it releases dependents.
use aether_supervisor.Prelude.{
  Text, Assoc, text_eq, text_eq_iff, text_eq_refl, lookup-insert, insert, true, false, some, List,
  [], ◌∷◌, ◌++◌, append_assoc, append-nil, if◌then◌else◌, ◌==◌, ℕ, zero, suc, ◌+◌, ◌-◌, ◌≤◌, ◌≡◌,
  refl, ap, arith, length, length-append, All, Bool-cases, List-cases, inl, inr,
}
use aether_supervisor.Sorter.Graph.{degree, dependents}
use aether_supervisor.Sorter.Queue.{Run, release, release_all, process}
use aether_supervisor.Sorter.Kahn.Edges.{
  Edges, mem_text, waits, Ordered, targets_of, count, mem_text-append, waits-snoc, Ordered-snoc,
  DistinctNames, DistinctNames-snoc, DistinctNames-middle, length_le_of_subset, All-of_mem_text,
}

degree-insert :
    (k j : Text) (n : ℕ) (m : Assoc ℕ)
    → degree (insert k n m) j ≡ (if text_eq k j then n else degree m j)
degree-insert k j n m = ground (arith, lookup-insert k j n m)

release_all-order : (rest : List Text) (s : Run) → (release_all rest s).order ≡ s.order
unfolding release_all
release_all-order [] s = refl
release_all-order (d ∷ rest) s = release_all-order rest (release d s)

module _ (edges : Edges) (nodes : List Text) where
  -- `rest` are the dependents of the last node that are still to be released.
  pub record Inv (rest : List Text) (s : Run) : Type 0 where
    pub counts : (k : Text) → degree s.indegree k ≡ waits edges s.order k + count k rest
    pub queued :
        (k : Text)
        → mem_text k (s.order ++ s.queue) ≡ true
        → (mem_text k nodes ≡ true) × (degree s.indegree k ≡ 0)
    pub freed :
        (k : Text)
        → mem_text k nodes ≡ true
        → degree s.indegree k ≡ 0
        → mem_text k (s.order ++ s.queue) ≡ true
    pub distinct : DistinctNames (s.order ++ s.queue)
    pub ordered : Ordered edges [] s.order

  -- A dependent that is released is not in the queue yet.
  released_new :
      (d : Text) (rest : List Text) (s : Run)
      → Inv (d ∷ rest) s
      → mem_text d (s.order ++ s.queue) ≡ false
  released_new d rest s h = elim (Bool-cases (mem_text d (s.order ++ s.queue))) [
    | inl old ↦ absurd (let (_, z) = h.queued d old in omega (arith, h.counts d, count-head))
    | inr new ↦ new
  ]
    where
      count-head : count d (d ∷ rest) ≡ suc (count d rest)
      count-head = ground (arith, text_eq_refl d)

  released-Distinct :
      (d : Text) (s : Run) (left : ℕ)
      → DistinctNames (s.order ++ s.queue)
      → mem_text d (s.order ++ s.queue) ≡ false
      → DistinctNames (s.order ++ (if left == 0 then s.queue ++ d ∷ [] else s.queue))
  released-Distinct d s left h new = elim (Bool-cases (left == 0)) [
    | inl z ↦
        rw (z, ← append_assoc s.order s.queue (d ∷ []))
          (DistinctNames-snoc (s.order ++ s.queue) d h new)
    | inr z ↦ rw z h
  ]

  release-Inv :
      (d : Text) (rest : List Text) (s : Run)
      → mem_text d nodes ≡ true
      → Inv (d ∷ rest) s
      → Inv rest (release d s)
  unfolding release
  release-Inv d rest s node h =
      let left = degree s.indegree d - 1 in
      let new = released_new d rest s h in
      record {
        counts =
            λ k. ground (arith, degree-insert d k left s.indegree, h.counts k, text_eq_iff d k);
        queued = λ k m. ground (
          arith,
          degree-insert d k left s.indegree,
          h.queued k,
          text_eq_iff d k,
          text_eq_iff k d,
          mem_text-append k s.order s.queue,
          mem_text-append k s.order (s.queue ++ d ∷ []),
          mem_text-append k s.queue (d ∷ []),
        );
        freed = λ k n z. ground (
          arith,
          degree-insert d k left s.indegree,
          h.freed k,
          text_eq_iff d k,
          text_eq_iff k d,
          mem_text-append k s.order s.queue,
          mem_text-append k s.order (s.queue ++ d ∷ []),
          mem_text-append k s.queue (d ∷ []),
        );
        distinct = released-Distinct d s left h.distinct new;
        ordered = h.ordered;
      }

  pop-Inv :
      (current : Text) (queue : List Text) (s : Run)
      → s.queue ≡ current ∷ queue
      → Inv [] s
      → Inv (targets_of edges current) (record s { queue = queue; order = s.order ++ current ∷ [] })
  pop-Inv current queue s e h =
      let same : (s.order ++ current ∷ []) ++ queue ≡ s.order ++ s.queue =
        rw (e, append_assoc s.order (current ∷ []) queue) in
      let first = DistinctNames-middle s.order current queue (rw e at h.distinct) in
      let front : mem_text current (s.order ++ s.queue) ≡ true =
        rw e (
          ground
            (arith, mem_text-append current s.order (current ∷ queue), text_eq_refl current)) in
      let zero_wait : waits edges s.order current ≡ 0 =
        omega (arith, h.counts current, (h.queued current front).1) in
      record {
        counts = λ k. omega (arith, h.counts k, waits-snoc edges s.order current k first);
        queued = λ k m. h.queued k (rw same at m);
        freed = λ k n z. rw same (h.freed k n z);
        distinct = rw same h.distinct;
        ordered = Ordered-snoc edges [] s.order current h.ordered zero_wait;
      }

  release_all-Inv :
      (rest : List Text) (s : Run)
      → All (λ d. mem_text d nodes ≡ true) rest
      → Inv rest s
      → Inv [] (release_all rest s)
  unfolding release_all
  release_all-Inv [] s a h = h
  release_all-Inv (d ∷ rest) s a h =
      release_all-Inv rest (release d s) a.1 (release-Inv d rest s a.0 h)

  -- What the order satisfies when the loop is over.
  pub record Final (order : List Text) : Type 0 where
    pub nodes_only : (k : Text) → mem_text k order ≡ true → mem_text k nodes ≡ true
    pub distinct : DistinctNames order
    pub ordered : Ordered edges [] order
    pub complete :
        (k : Text) → mem_text k nodes ≡ true → waits edges order k ≡ 0 → mem_text k order ≡ true

  Inv-Final : (s : Run) → s.queue ≡ [] → Inv [] s → Final s.order
  Inv-Final s e h =
      let same : s.order ++ s.queue ≡ s.order = rw (e, append-nil s.order) in
      record {
        nodes_only = λ k m. (h.queued k (rw same m)).0;
        distinct = rw same at h.distinct;
        ordered = h.ordered;
        complete = λ k n z. rw same at (h.freed k n (omega (arith, h.counts k)));
      }

  -- The order and the queue together hold no more than all nodes.
  room : (s : Run) → Inv [] s → length s.order + length s.queue ≤ length nodes
  room s h = omega (
    arith,
    length-append s.order s.queue,
    length_le_of_subset (s.order ++ s.queue) nodes h.distinct
        (All-of_mem_text (λ k. mem_text k nodes ≡ true) _ (λ k m. (h.queued k m).0)),
  )

  -- The rounds end within as many as there are nodes that have not been taken from the queue.
  pub process_lem :
      (adjacency : Assoc (List Text))
      → ((k : Text) → dependents adjacency k ≡ targets_of edges k)
      → ((k : Text) → All (λ d. mem_text d nodes ≡ true) (targets_of edges k))
      → (fuel : ℕ) (s : Run) → length nodes ≤ fuel + length s.order
      → Inv [] s
      → (order : List Text) × (process fuel adjacency s ≡ some order) × Final order
  unfolding process
  process_lem adjacency adj targets zero s f h = elim (List-cases s.queue) [
    | inl e ↦ (s.order, rw (e, process), Inv-Final s e h)
    | inr (c, q, e) ↦ absurd (omega (arith, room s h, ap length e))
  ]
  process_lem adjacency adj targets (suc fuel) s f h = elim (List-cases s.queue) [
    | inl e ↦ (s.order, rw (e, process), Inv-Final s e h)
    | inr (c, q, e) ↦
        let popped : Run = record s { queue = q; order = s.order ++ c ∷ [] } in
        let s' = release_all (targets_of edges c) popped in
        let h' = release_all-Inv (targets_of edges c) popped (targets c) (pop-Inv c q s e h) in
        let grown = release_all-order (targets_of edges c) popped in
        rw (e, process, adj c)
          (process_lem adjacency adj targets fuel s'
            (omega (arith, ap length grown, length-append s.order (c ∷ []))) h')
  ]
