-- ===== src/Sorter/Kahn/Build.antt =====
-- The maps that buildDependencyGraph makes describe one list of edges.
use aether_supervisor.Prelude.{
  Text, Assoc, text_eq, text_eq_iff, lookup-insert, insert, true, List, [], ◌∷◌, ◌++◌, append_assoc,
  append-nil, suc, ◌+◌, ◌≡◌, refl, ap, ◌∙◌, arith, All, All-append, Bool-cases, inl, inr,
}
use aether_supervisor.Container.Data.{Container}
use aether_supervisor.Sorter.Graph.{
  Graph, degree, dependents, keys, link_targets, identifier, add_dependency, add_targets, add_links,
  add_containers, zero_degrees,
}
use aether_supervisor.Sorter.Kahn.Edges.{Edges, mem_text, waits, targets_of}

-- The edges in the order in which the loops add them.
unfoldable pub target_edges : Text → List Text → Edges
target_edges self [] = []
target_edges self (target ∷ targets) = (target, self) ∷ target_edges self targets

unfoldable pub link_edges : List Text → Text → List Text → Edges
link_edges ids self [] = []
link_edges ids self (link ∷ links) =
    target_edges self (link_targets ids self link) ++ link_edges ids self links

module _ (links : Container → List Text) where
  unfoldable pub container_edges : List Text → List Container → Edges
  container_edges ids [] = []
  container_edges ids (c ∷ cs) = link_edges ids (identifier c) (links c) ++ container_edges ids cs

waits-append :
    (edges more : Edges) (set : List Text) (node : Text)
    → waits (edges ++ more) set node ≡ waits edges set node + waits more set node
waits-append [] more set node = omega arith
waits-append ((s, t) ∷ edges) more set node = ground (arith, waits-append edges more set node)

targets_of-append :
    (edges more : Edges) (source : Text)
    → targets_of (edges ++ more) source ≡ targets_of edges source ++ targets_of more source
targets_of-append [] more source = refl
targets_of-append ((s, t) ∷ edges) more source = ground (arith, targets_of-append edges more source)

keys-insert {ℓ} :
    {V : Type ℓ} (k : Text) (v : V) (m : Assoc V)
    → mem_text k (keys m) ≡ true
    → keys (insert k v m) ≡ keys m
keys-insert k v [] h = cc
keys-insert k v ((j, w) ∷ m) h = elim (Bool-cases (text_eq j k)) [
  | inl e ↦ rw (e, (text_eq_iff j k).0 e)
  | inr n ↦
      let there : mem_text k (keys m) ≡ true = ground (arith, text_eq_iff k j, text_eq_iff j k) in
      rw n (ap (λ (ks : List Text). j ∷ ks) (keys-insert k v m there))
]

-- The maps describe the edges, and the counters are those of the identifiers.
pub record Describes (ids : List Text) (edges : Edges) (g : Graph) : Type 0 where
  pub degrees : (k : Text) → degree g.indegree k ≡ waits edges [] k
  pub adjacent : (k : Text) → dependents g.adjacency k ≡ targets_of edges k
  pub known : keys g.indegree ≡ ids

module _ (ids : List Text) where
  add_dependency-Describes :
      (self target : Text) (edges : Edges) (g : Graph)
      → mem_text self ids ≡ true
      → Describes ids edges g
      → Describes ids (edges ++ (target, self) ∷ []) (add_dependency self target g)
  unfolding add_dependency
  add_dependency-Describes self target edges g m h = record {
    degrees = λ k. ground (
      arith,
      h.degrees k,
      h.degrees self,
      waits-append edges ((target, self) ∷ []) [] k,
      text_eq_iff self k,
      lookup-insert self k (suc (degree g.indegree self)) g.indegree,
    );
    adjacent = λ k. ground (
      arith,
      h.adjacent k,
      h.adjacent target,
      targets_of-append edges ((target, self) ∷ []) k,
      text_eq_iff target k,
      append-nil (targets_of edges k),
      lookup-insert target k (dependents g.adjacency target ++ self ∷ []) g.adjacency,
    );
    known = keys-insert self _ g.indegree (rw h.known m) ∙ h.known;
  }

  add_targets-Describes :
      (self : Text) (targets : List Text) (edges : Edges) (g : Graph)
      → mem_text self ids ≡ true
      → Describes ids edges g
      → Describes ids (edges ++ target_edges self targets) (add_targets self targets g)
  unfolding add_targets target_edges
  add_targets-Describes self [] edges g m h = rw append-nil h
  add_targets-Describes self (t ∷ ts) edges g m h =
      rw (← append_assoc edges ((t, self) ∷ []) (target_edges self ts)) (
        add_targets-Describes self ts (edges ++ (t, self) ∷ []) (add_dependency self t g) m
          (add_dependency-Describes self t edges g m h))

  add_links-Describes :
      (self : Text) (links : List Text) (edges : Edges) (g : Graph)
      → mem_text self ids ≡ true
      → Describes ids edges g
      → Describes ids (edges ++ link_edges ids self links) (add_links ids self links g)
  unfolding add_links link_edges
  add_links-Describes self [] edges g m h = rw append-nil h
  add_links-Describes self (link ∷ links) edges g m h =
      let targets = link_targets ids self link in
      rw (← append_assoc edges (target_edges self targets) (link_edges ids self links)) (
        add_links-Describes self links (edges ++ target_edges self targets)
          (add_targets self targets g) m (add_targets-Describes self targets edges g m h))

  abbrev Known : Edges → Type 0
  Known = All (λ e. mem_text e.1 ids ≡ true)

  targets-Known :
      (self : Text) (targets : List Text)
      → mem_text self ids ≡ true
      → Known (target_edges self targets)
  unfolding target_edges
  targets-Known self [] m = tt
  targets-Known self (t ∷ ts) m = (m, targets-Known self ts m)

  links-Known :
      (self : Text) (links : List Text)
      → mem_text self ids ≡ true
      → Known (link_edges ids self links)
  unfolding link_edges
  links-Known self [] m = tt
  links-Known self (link ∷ links) m =
      All-append (λ e. mem_text e.1 ids ≡ true) _ _
        (targets-Known self (link_targets ids self link) m) (links-Known self links m)

  Known-targets_of :
      (source : Text) (edges : Edges)
      → Known edges
      → All (λ d. mem_text d ids ≡ true) (targets_of edges source)
  Known-targets_of source [] h = tt
  Known-targets_of source ((s, t) ∷ edges) h = elim (Bool-cases (text_eq s source)) [
    | inl e ↦ rw e (h.0, Known-targets_of source edges h.1)
    | inr n ↦ rw n (Known-targets_of source edges h.1)
  ]

  module _ (links : Container → List Text) where
    containers-Known :
        (cs : List Container)
        → All (λ c. mem_text (identifier c) ids ≡ true) cs
        → Known (container_edges links ids cs)
    unfolding container_edges
    containers-Known [] m = tt
    containers-Known (c ∷ cs) m =
        All-append (λ e. mem_text e.1 ids ≡ true) _ _ (links-Known (identifier c) (links c) m.0)
          (containers-Known cs m.1)

    add_containers-Describes :
        (cs : List Container) (edges : Edges) (g : Graph)
        → All (λ c. mem_text (identifier c) ids ≡ true) cs
        → Describes ids edges g
        → Describes ids (edges ++ container_edges links ids cs) (add_containers links ids cs g)
    unfolding add_containers container_edges
    add_containers-Describes [] edges g m h = rw append-nil h
    add_containers-Describes (c ∷ cs) edges g m h =
        let more = link_edges ids (identifier c) (links c) in
        rw (← append_assoc edges more (container_edges links ids cs)) (
          add_containers-Describes cs (edges ++ more) (add_links ids (identifier c) (links c) g) m.1
            (add_links-Describes (identifier c) (links c) edges g m.0 h))

    start-Describes : Describes ids [] (record { indegree = zero_degrees ids; adjacency = [] })
    start-Describes = record {
      degrees = λ k. zero k ids;
      adjacent = λ k. refl;
      known = keys_zero ids;
    }
      where
        zero : (k : Text) (ks : List Text) → degree (zero_degrees ks) k ≡ 0
        zero k [] = refl
        zero k (j ∷ ks) = ground (arith, zero k ks)

        keys_zero : (ks : List Text) → keys (zero_degrees ks) ≡ ks
        keys_zero [] = refl
        keys_zero (j ∷ ks) = ap (λ (l : List Text). j ∷ l) (keys_zero ks)

    -- The graph that is built describes the edges of the containers.
    pub built-Describes :
        (cs : List Container)
        → All (λ c. mem_text (identifier c) ids ≡ true) cs
        → Describes ids
            (container_edges links ids cs)
            (add_containers links ids cs (record { indegree = zero_degrees ids; adjacency = [] }))
    built-Describes cs m = add_containers-Describes cs [] _ m start-Describes

    -- Every dependent is one of the identifiers.
    pub dependents_known :
        (cs : List Container) (source : Text)
        → All (λ c. mem_text (identifier c) ids ≡ true) cs
        → All (λ d. mem_text d ids ≡ true) (targets_of (container_edges links ids cs) source)
    dependents_known cs source m = Known-targets_of source _ (containers-Known cs m)
