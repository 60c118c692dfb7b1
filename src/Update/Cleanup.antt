-- ===== src/Update/Cleanup.antt =====
-- Which images the restarts of a run name for the cleanup.
use aether_supervisor.Prelude.{
  if-keeps, any, text_eq, text_eq_iff, Bool, true, false, ◌&&◌, not, List, [], ◌∷◌, ◌++◌, ◌≡◌, ◌≢◌,
  refl, inl, inr, All, All-append, Distinct, Bool-cases, Option-cases, if◌then◌else◌, arith,
}
use aether_supervisor.Container.Data.{Container, id, to_restart}
use aether_supervisor.Container.Labels.{UpdateParams}
use aether_supervisor.Container.Client.{Client}
use aether_supervisor.Session.Progress.{mark_for_update}
use aether_supervisor.Update.Stop.{RemovedImageInfo, removed_image_info, stop_stale_container}
use aether_supervisor.Update.Restart.{add_cleanup_image_info, Restart, Restarts}
use aether_supervisor.Update.Batch.{record_restart, is_restartable, restart_one, restart_each}
use aether_supervisor.Update.Rolling.{record_rolling, roll, roll_one, roll_each}

module _ (P : RemovedImageInfo → Type 0) where
  -- The infos have distinct images and a property.
  abbrev pub IsClean : List RemovedImageInfo → Type 0
  IsClean infos = Distinct (λ i. i.image_id) infos × All P infos

  -- The property holds of the info of a container that is stale.
  abbrev pub Names : Container → Type 0
  Names c = c.stale ≡ true → P (removed_image_info c)

  append-Distinct :
      (info : RemovedImageInfo) (infos : List RemovedImageInfo)
      → any (λ existing. text_eq existing.image_id info.image_id) infos ≡ false
      → Distinct (λ i. i.image_id) infos
      → Distinct (λ i. i.image_id) (infos ++ info ∷ [])
  append-Distinct info [] h d = (tt, tt)
  append-Distinct info (i ∷ infos) h d = (
    All-append (λ j. i.image_id ≢ j.image_id) infos (info ∷ []) d.0
        ((λ e. cc ((text_eq_iff i.image_id info.image_id).1 e), tt)),
    append-Distinct info infos (ground arith) d.1,
  )

  add_cleanup_image_info-IsClean :
      (info : RemovedImageInfo) (infos : List RemovedImageInfo)
      → P info
      → IsClean infos
      → IsClean (add_cleanup_image_info info infos)
  unfolding add_cleanup_image_info
  add_cleanup_image_info-IsClean info infos p h =
      elim (Bool-cases (any (λ existing. text_eq existing.image_id info.image_id) infos)) [
        | inl e ↦ rw e h
        | inr e ↦
            rw e (append-Distinct info infos e h.0, All-append P infos (info ∷ []) h.1 (p, tt))
      ]

  -- What both loops do with the info of a container.
  collect-IsClean :
      (stale kept : Bool) (info : RemovedImageInfo) (infos : List RemovedImageInfo)
      → (stale ≡ true → P info)
      → IsClean infos
      → IsClean (if stale && kept then add_cleanup_image_info info infos else infos)
  collect-IsClean true true info infos p h = add_cleanup_image_info-IsClean info infos (p refl) h
  collect-IsClean true false info infos p h = h
  collect-IsClean false kept info infos p h = h

  record_restart-IsClean :
      (c : Container) (r : Restart) (s : Restarts)
      → Names c
      → IsClean s.cleanup_image_infos
      → IsClean (record_restart c r s).cleanup_image_infos
  unfolding record_restart
  record_restart-IsClean c r s p h = elim (Option-cases r.failure) [
    | inl e ↦
        rw (record_restart, e)
          (collect-IsClean c.stale _ (removed_image_info c) s.cleanup_image_infos p h)
    | inr (_, e) ↦ rw (record_restart, e) h
  ]

  record_rolling-IsClean :
      (c : Container) (r : Restart) (s : Restarts)
      → Names c
      → IsClean s.cleanup_image_infos
      → IsClean (record_rolling c r s).cleanup_image_infos
  unfolding record_rolling
  record_rolling-IsClean c r s p h = elim (Option-cases r.failure) [
    | inl e ↦
        rw (record_rolling, e)
          (collect-IsClean c.stale (not r.renamed) (removed_image_info c) s.cleanup_image_infos p h)
    | inr (_, e) ↦ rw (record_rolling, e) h
  ]

  module _ {W : Type 0} (client : Client W) (config : UpdateParams) where
    restart_one-IsClean :
        (stopped : List RemovedImageInfo) (c : Container) (s : Restarts) (w : W)
        → Names c
        → IsClean s.cleanup_image_infos
        → IsClean (restart_one client config stopped c s w).0.cleanup_image_infos
    unfolding restart_one
    restart_one-IsClean stopped c s w p h =
        elim (Bool-cases (is_restartable client config stopped c)) [
          | inl e ↦ rw e (record_restart-IsClean c _ s p h)
          | inr e ↦ rw e h
        ]

    pub restart_each-IsClean :
        (stopped : List RemovedImageInfo) (cs : List Container) (s : Restarts) (w : W)
        → All Names cs
        → IsClean s.cleanup_image_infos
        → IsClean (restart_each client config stopped cs s w).0.cleanup_image_infos
    unfolding restart_each
    restart_each-IsClean stopped [] s w p h = h
    restart_each-IsClean stopped (c ∷ cs) s w p h = elim (Option-cases (client.context_error w).0) [
      | inl e ↦
          rw (restart_each, e)
            (restart_each-IsClean stopped cs _ _ p.1 (restart_one-IsClean stopped c s _ p.0 h))
      | inr (_, e) ↦ rw (restart_each, e) h
    ]

    roll-IsClean :
        (c : Container) (s : Restarts) (w : W)
        → Names c
        → IsClean s.cleanup_image_infos
        → IsClean (roll client config c s w).0.cleanup_image_infos
    unfolding roll
    roll-IsClean c s w p h =
        let marked =
          if c.stale then record s { progress = mark_for_update (id c) s.progress } else s in
        let clean : IsClean marked.cleanup_image_infos = elim (Bool-cases c.stale) [
          | inl e ↦ simp (e) h
          | inr e ↦ simp (e) h
        ] in
        elim (Option-cases (stop_stale_container client config c w).0) [
          | inl e ↦ rw (roll, e) (record_rolling-IsClean c _ marked p clean)
          | inr (_, e) ↦ rw (roll, e) clean
        ]

    pub roll_each-IsClean :
        (cs : List Container) (s : Restarts) (w : W)
        → All Names cs
        → IsClean s.cleanup_image_infos
        → IsClean (roll_each client config cs s w).0.0.cleanup_image_infos
    unfolding roll_each roll_one
    roll_each-IsClean [] s w p h = h
    roll_each-IsClean (c ∷ cs) s w p h = elim (Option-cases (client.context_error w).0) [
      | inl e ↦
          let w' = (client.context_error w).1 in
          rw (roll_each, e)
            (roll_each-IsClean cs _ _ p.1 (
              if-keeps (λ (r : Restarts × W). IsClean r.0.cleanup_image_infos) (to_restart c)
                (roll client config c s w') (s, w') (roll-IsClean c s w' p.0 h) h))
      | inr (_, e) ↦ rw (roll_each, e) h
    ]
