-- ===== src/Update/Implicit/Pass.antt =====
-- What one pass of UpdateImplicitRestart over the containers does.
use aether_supervisor.Prelude.{
  Text, Assoc, lookup-insert, Bool, true, false, ◌&&◌, not, List, [], ◌∷◌, if◌then◌else◌, ◌≡◌, ◌≢◌,
  ◌⊎◌, inl, inr, All, refl, ap, arith, Memᴰ, Bool-cases, Option-cases, ℕ, suc, ◌≤◌, ◌<◌, length,
}
use aether_supervisor.Container.Data.{Container, id, name, to_restart, set_linked_to_restarting}
use aether_supervisor.Container.Identifier.{is_empty}
use aether_supervisor.Update.Implicit.{
  is_marked, get_project, name_to_container, linked_identifier_marked_for_restart, Scene,
  mark_linked, find_by_id, linked_identifier, mark_pass,
}
use aether_supervisor.Update.Implicit.Match.{Mentions, linked_identifier_marked_lem}

-- How many containers are not to be restarted.
abbrev pub unmarked : List Container → ℕ
unmarked [] = 0
unmarked (c ∷ cs) = let rest = unmarked cs in if to_restart c then rest else suc rest

mark_linked-changed : (c : Container) (s : Scene) → (mark_linked c s).changed ≡ true
unfolding mark_linked
mark_linked-changed c s = ground arith

-- A mark is never taken back.
mark_linked-marked :
    (c : Container) (s : Scene) (k : Text)
    → is_marked s.restarting k ≡ true
    → is_marked (mark_linked c s).restarting k ≡ true
unfolding mark_linked
mark_linked-marked c s k h = elim (Option-cases (find_by_id (id c) s.all_containers)) [
  | inl e ↦ rw (mark_linked, e) h
  | inr (ac, e) ↦ rw (mark_linked, e) (ground (arith, lookup-insert (name ac) k true s.restarting))
]

pub clash : {b : Bool} → b ≡ false → b ≡ true → ⊥
clash f g = cc

filled : (t : Text) (b : Bool) → (b && not (is_empty t)) ≡ true → t ≡ [] → ⊥
filled [] b h e = ground arith
filled (c ∷ cs) b h e = cc

emptied : (t : Text) → not (is_empty t) ≡ false → t ≡ []
emptied [] h = refl
emptied (c ∷ cs) h = absurd (cc)

pub linked_restarts : (c : Container) → to_restart (set_linked_to_restarting true c) ≡ true
linked_restarts c = ground arith

pub unmarked-le : (cs : List Container) → unmarked cs ≤ length cs
unmarked-le [] = omega arith
unmarked-le (c ∷ cs) = ground (arith, unmarked-le cs)

module _ (links : Container → List Text) where
  -- An identifier that is marked and that a link of the container mentions.
  abbrev pub IsLinked : Assoc Bool → Container → Type 0
  IsLinked restarting c =
      (identifier : Text) × (is_marked restarting identifier ≡ true)
      × ((link : Text) × Memᴰ link (links c) × Mentions link identifier)

  -- A container as the call leaves it: as it was, or linked where it was not to be restarted.
  abbrev pub Marks : Assoc Bool → Container → Container → Type 0
  Marks restarting c d =
      (d ≡ c)
      ⊎ ((to_restart c ≡ false) × (d ≡ set_linked_to_restarting true c) × IsLinked restarting c)

  abbrev pub AllMarks : Assoc Bool → List Container → List Container → Type 0
  AllMarks restarting [] [] = Unit
  AllMarks restarting (c ∷ cs) (d ∷ ds) = Marks restarting c d × AllMarks restarting cs ds
  AllMarks restarting _ _ = ⊥

  -- Nothing is left to be marked.
  abbrev pub IsClosed : Scene → Container → Type 0
  IsClosed s c = (to_restart c ≡ true) ⊎ (linked_identifier links s c ≡ [])

  pub linked_identifier_lem :
      (s : Scene) (c : Container) → linked_identifier links s c ≢ [] → IsLinked s.restarting c
  unfolding linked_identifier
  linked_identifier_lem s c h =
      let names = name_to_container s.all_containers [] in
      (
        linked_identifier_marked_for_restart names s.restarting (get_project c) (links c),
        (linked_identifier_marked_lem names s.restarting (get_project c) (links c) h).0,
        (linked_identifier_marked_lem names s.restarting (get_project c) (links c) h).1,
      )

  pub nonempty_found :
      (c : Container) (s : Scene)
      → (not (to_restart c) && not (is_empty (linked_identifier links s c))) ≡ true
      → linked_identifier links s c ≢ []
  nonempty_found c s h e = filled (linked_identifier links s c) (not (to_restart c)) h e

  pub unmarked_found :
      (c : Container) (s : Scene)
      → (not (to_restart c) && not (is_empty (linked_identifier links s c))) ≡ true
      → to_restart c ≡ false
  unmarked_found c s h = ground arith

  IsClosed-found :
      (c : Container) (s : Scene)
      → (not (to_restart c) && not (is_empty (linked_identifier links s c))) ≡ false
      → IsClosed s c
  IsClosed-found c s h = elim (Bool-cases (to_restart c)) [
    | inl r ↦ inl r
    | inr r ↦ inr (emptied (linked_identifier links s c) (rw r at h))
  ]

  -- What one pass does: the marks, that they stay, and how `changed` tells of them.
  pub record Passed (cs : List Container) (s : Scene) (marked : List Container) (end : Scene)
      : Type 0 where
    pub marks : AllMarks end.restarting cs marked
    pub stay : (k : Text) → is_marked s.restarting k ≡ true → is_marked end.restarting k ≡ true
    pub sticky : s.changed ≡ true → end.changed ≡ true
    pub fewer : unmarked marked ≤ unmarked cs
    pub quiet : end.changed ≡ false → (marked ≡ cs) × (end ≡ s) × All (IsClosed s) cs
    pub progress : s.changed ≡ false → end.changed ≡ true → unmarked marked < unmarked cs

  marked-Passed :
      (c : Container) (cs : List Container) (s : Scene) (marked : List Container) (end : Scene)
      → (not (to_restart c) && not (is_empty (linked_identifier links s c))) ≡ true
      → Passed cs (mark_linked c s) marked end
      → Passed (c ∷ cs) s (set_linked_to_restarting true c ∷ marked) end
  marked-Passed c cs s marked end found h =
      let (i, m, mention) = linked_identifier_lem s c (λ e. nonempty_found c s found e) in
      let changed = h.sticky (mark_linked-changed c s) in
      record {
        marks = (
          inr (unmarked_found c s found, refl, (i, h.stay i (mark_linked-marked c s i m), mention)),
          h.marks,
        );
        stay = λ k m. h.stay k (mark_linked-marked c s k m);
        sticky = λ _. changed;
        fewer = ground (arith, h.fewer);
        quiet = λ e. absurd (clash e changed);
        progress = λ _ _. ground (arith, h.fewer, unmarked_found c s found);
      }

  closed-Passed :
      (c : Container) (cs : List Container) (s : Scene) (marked : List Container) (end : Scene)
      → (not (to_restart c) && not (is_empty (linked_identifier links s c))) ≡ false
      → Passed cs s marked end
      → Passed (c ∷ cs) s (c ∷ marked) end
  closed-Passed c cs s marked end closed h = record {
    marks = (inl refl, h.marks);
    stay = h.stay;
    sticky = h.sticky;
    fewer = ground (arith, h.fewer);
    quiet = λ e.
        let (m, same, all) = h.quiet e in
        (ap (λ (ds : List Container). c ∷ ds) m, same, (IsClosed-found c s closed, all));
    progress = λ e f. ground (arith, h.progress e f);
  }

  pub mark_pass_lem :
      (cs : List Container) (s : Scene)
      → let (marked, end) = mark_pass links cs s in Passed cs s marked end
  unfolding mark_pass
  mark_pass_lem [] s = record {
    marks = tt;
    stay = λ k h. h;
    sticky = λ e. e;
    fewer = omega arith;
    quiet = λ e. (refl, refl, tt);
    progress = λ e f. absurd (clash e f);
  }
  mark_pass_lem (c ∷ cs) s =
      elim (Bool-cases (not (to_restart c) && not (is_empty (linked_identifier links s c)))) [
        | inl found ↦ rw found (marked-Passed c cs s _ _ found (mark_pass_lem cs (mark_linked c s)))
        | inr closed ↦ rw closed (closed-Passed c cs s _ _ closed (mark_pass_lem cs s))
      ]
