-- ===== src/Update/Implicit/Closure.antt =====
-- What the marks of UpdateImplicitRestart are when it is done.
use aether_supervisor.Prelude.{
  Text, Assoc, Bool, true, false, some, List, [], ◌∷◌, ◌≡◌, inl, inr, All, refl, subst, ◌∙◌, arith,
  Bool-cases, ℕ, zero, suc, ◌<◌, length,
}
use aether_supervisor.Container.Data.{Container}
use aether_supervisor.Update.Implicit.{
  is_marked, Scene, mark_pass, mark_rounds, update_implicit_restart, restart_by_name,
}
use aether_supervisor.Update.Implicit.Pass.{
  unmarked, clash, linked_restarts, unmarked-le, Marks, AllMarks, IsClosed, Passed, mark_pass_lem,
}

module _ (links : Container → List Text) where
  Marks-trans :
      (before after : Assoc Bool) (c d e : Container)
      → ((k : Text) → is_marked before k ≡ true → is_marked after k ≡ true)
      → Marks links before c d
      → Marks links after d e
      → Marks links after c e
  Marks-trans before after c d e stay (inl same) m = subst (λ x. Marks links after x e) same m
  Marks-trans before after c d e stay (inr (r, shape, (i, marked, mention))) (inl same) =
      inr (r, same ∙ shape, (i, stay i marked, mention))
  Marks-trans before after c d e stay (inr (r, shape, linked)) (inr (r', _, _)) =
      absurd (clash r' (rw shape (linked_restarts c)))

  AllMarks-trans :
      (before after : Assoc Bool) (cs ds es : List Container)
      → ((k : Text) → is_marked before k ≡ true → is_marked after k ≡ true)
      → AllMarks links before cs ds
      → AllMarks links after ds es
      → AllMarks links after cs es
  AllMarks-trans before after [] [] [] stay m n = tt
  AllMarks-trans before after [] [] (e ∷ es) stay m n = absurd n
  AllMarks-trans before after [] (d ∷ ds) es stay m n = absurd m
  AllMarks-trans before after (c ∷ cs) [] es stay m n = absurd m
  AllMarks-trans before after (c ∷ cs) (d ∷ ds) [] stay m n = absurd n
  AllMarks-trans before after (c ∷ cs) (d ∷ ds) (e ∷ es) stay m n = (
    Marks-trans before after c d e stay m.0 n.0,
    AllMarks-trans before after cs ds es stay m.1 n.1,
  )

  -- The marks of the whole loop, which leave nothing to be marked.
  Settled : List Container → Scene → List Container → Scene → Type 0
  Settled cs s marked end =
      AllMarks links end.restarting cs marked
      × All (IsClosed links end) marked
      × ((k : Text) → is_marked s.restarting k ≡ true → is_marked end.restarting k ≡ true)

  mark_rounds_lem :
      (fuel : ℕ) (cs : List Container) (s : Scene)
      → unmarked cs < fuel
      → (marked : List Container) × (end : Scene) × (mark_rounds links fuel cs s
          ≡ some (marked, end))
        × Settled cs s marked end
  unfolding mark_rounds Settled
  mark_rounds_lem zero cs s f = absurd (omega arith)
  mark_rounds_lem (suc fuel) cs s f =
      let calm = record s { changed = false } in
      let (marked, end) = mark_pass links cs calm in
      let h : Passed links cs calm marked end = mark_pass_lem links cs calm in
      elim (Bool-cases end.changed) [
        | inr still ↦
            let (m, same, closed) = h.quiet still in
            (marked, end, rw (mark_rounds, still) refl, (h.marks, rw (m, same) closed, h.stay))
        | inl moved ↦
            let (marked', end', e, (marks, closed, stay)) =
              mark_rounds_lem fuel marked end (omega (arith, h.progress refl moved)) in
            (
              marked',
              end',
              rw (mark_rounds, moved) e,
              (
                AllMarks-trans end.restarting end'.restarting cs marked marked' stay h.marks marks,
                closed,
                λ k m. stay k (h.stay k m),
              ),
            )
      ]

  -- UpdateImplicitRestart ends. It marks only containers that a link ties to a container that is
  -- marked for a restart, changes nothing else of the containers, and when it is done no container
  -- is left that it would still mark.
  pub update_implicit_restart_total :
      (all_containers containers : List Container)
      → (marked : List Container) × (end : Scene) × (update_implicit_restart links all_containers
            containers
          ≡ some (marked, end))
        × AllMarks links end.restarting containers marked
        × All (IsClosed links end) marked
        × ((k : Text)
            → is_marked (restart_by_name all_containers []) k ≡ true
            → is_marked end.restarting k ≡ true)
  unfolding update_implicit_restart Settled
  update_implicit_restart_total all_containers containers =
      let start : Scene = record {
        all_containers = all_containers;
        restarting = restart_by_name all_containers [];
        changed = true;
      } in
      let (marked, end, e, (marks, closed, stay)) =
        mark_rounds_lem (suc (length containers)) containers start
          (omega (arith, unmarked-le containers)) in
      (marked, end, e, marks, closed, stay)
