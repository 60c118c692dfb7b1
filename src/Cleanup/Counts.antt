-- ===== src/Cleanup/Counts.antt =====
-- What the removal of excess instances reports.
use aether_supervisor.Prelude.{
  Text, ℕ, zero, suc, ◌+◌, ◌-◌, ltb, length, Bool, true, false, Option, none, some, List, [], ◌∷◌,
  ◌≡◌, refl, inl, inr, if◌then◌else◌, Bool-cases, arith, ap, subst,
}
use aether_supervisor.Container.Data.{Container}
use aether_supervisor.Container.Client.{Client}
use aether_supervisor.Update.Stop.{RemovedImageInfo}
use aether_supervisor.Cleanup.Removal.{
  CleanupError, cancelled, stop_failed, Tally, max_removal_attempts, count_removed, attempt_removal,
  remove_each, remove_excess_containers,
}
use aether_supervisor.Cleanup.Removes.{
  Attempt-cases, Tries, Removes, all_done, one_removed, one_gone, one_failed, halted,
  attempt_removal_lem,
}

module _ {W : Type 0} (client : Client W) (retry_delay : W → Option Text × W) where
  -- What the loop adds to the count, with how many containers it gave up.
  abbrev Ended : List Container → Tally → W → Tally × W → Type 0
  Ended cs t w (t', end) =
      (done : ℕ) × (failed : ℕ) × (stop : Option Text) × Removes client retry_delay cs w done failed
        stop end
      × (t'.count ≡ t.count + done)
      × (t'.interruption ≡ elim stop [ none ↦ t.interruption | some cause ↦ some cause ])
      × (stop ≡ none → done + failed ≡ length cs)

  remove_each_lem :
      (cleanup : Bool) (current : Option Container) (cs : List Container) (t : Tally) (w : W)
      → Ended cs t w (remove_each client retry_delay cleanup current cs t w)
  unfolding remove_each count_removed
  remove_each_lem cleanup current [] t w = (0, 0, none, all_done, omega arith, refl, λ e. refl)
  remove_each_lem cleanup current (c ∷ cs) t w =
      let (attempt, w') = attempt_removal client retry_delay max_removal_attempts c w in
      let tries = attempt_removal_lem client retry_delay 2 c w in
      elim (Attempt-cases attempt) [
        | inl e ↦
            let (d, f, s, r, n, i, l) =
              remove_each_lem cleanup current cs (count_removed cleanup current c false t) w' in
            rw (remove_each, e)
              (
                suc d,
                f,
                s,
                one_removed (subst (λ a. Tries client retry_delay c 3 w a w') e tries) r,
                omega (arith, n),
                i,
                λ h. omega (arith, l h),
              )
        | inr (inl e) ↦
            let (d, f, s, r, n, i, l) =
              remove_each_lem cleanup current cs (count_removed cleanup current c true t) w' in
            rw (remove_each, e)
              (
                suc d,
                f,
                s,
                one_gone (subst (λ a. Tries client retry_delay c 3 w a w') e tries) r,
                omega (arith, n),
                i,
                λ h. omega (arith, l h),
              )
        | inr (inr (inl e)) ↦
            let (d, f, s, r, n, i, l) = remove_each_lem cleanup current cs t w' in
            rw (remove_each, e)
              (
                d,
                suc f,
                s,
                one_failed (subst (λ a. Tries client retry_delay c 3 w a w') e tries) r,
                n,
                i,
                λ h. omega (arith, l h),
              )
        | inr (inr (inr (cause, e))) ↦
            rw (remove_each, e)
              (
                0,
                0,
                some cause,
                halted (subst (λ a. Tries client retry_delay c 3 w a w') e tries),
                omega arith,
                refl,
                λ h. absurd (cc),
              )
      ]

  -- What is reported: the cancellation, or how many of all containers were given up, or that all
  -- were removed.
  abbrev pub told : (total failed : ℕ) → Option Text → ℕ × Option CleanupError
  told total failed (some cause) = (0, some (cancelled cause))
  told total zero none = (total, none)
  told total (suc failed) none = (0, some (stop_failed (suc failed) total))

  -- A removal of all containers, or up to a cancellation, with this report
  abbrev pub IsTold : List Container → W → ℕ × Option CleanupError → Type 0
  IsTold cs w answer =
      (done : ℕ) × (failed : ℕ) × (stop : Option Text) × (end : W) × Removes client retry_delay cs w
        done failed stop end
      × (stop ≡ none → done + failed ≡ length cs)
      × (answer ≡ told (length cs) failed stop)

  settled :
      (total done failed : ℕ)
      → done + failed ≡ total
      → (if ltb done total then (0, some (stop_failed (total - done) total)) else (done, none))
        ≡ told total failed none
  settled total done zero e = elim (Bool-cases (ltb done total)) [
    | inl h ↦ absurd (ground arith)
    | inr h ↦ rw h (ap (λ n. (n, none)) (omega (arith, e)))
  ]
  settled total done (suc f) e = elim (Bool-cases (ltb done total)) [
    | inl h ↦ rw h (ap (λ n. (0, some (stop_failed n total))) (omega (arith, e)))
    | inr h ↦ absurd (ground arith)
  ]

  Summary :
      List Container → Bool → Option Container → Option (List RemovedImageInfo) → W → Tally → Type 0
  Summary excess cleanup current image_infos w t =
      (done failed : ℕ) (stop : Option Text)
      → t.count ≡ 0 + done
      → t.interruption ≡ elim stop as (λ _. Option Text) [ none ↦ none | some cause ↦ some cause ]
      → (stop ≡ none → done + failed ≡ length excess)
      → (remove_excess_containers client retry_delay excess cleanup current image_infos w).0.0
        ≡ told (length excess) failed stop

  summary :
      (excess : List Container) (cleanup : Bool) (current : Option Container)
      (image_infos : Option (List RemovedImageInfo)) (w : W)
      → let collected = elim image_infos as (λ _. List RemovedImageInfo) [
        | none ↦ []
        | some infos ↦ infos
      ] in
        Summary excess cleanup current image_infos w
          (remove_each client retry_delay cleanup current excess
            (record { count = 0; infos = collected; interruption = none })
            w).0
  unfolding Summary remove_excess_containers
  summary excess cleanup current image_infos w d f (some cause) n i l =
      rw (remove_excess_containers, i) refl
  summary excess cleanup current image_infos w d zero none n i l =
      rw (remove_excess_containers, i, n)
        (settled (length excess) (0 + d) 0 (omega (arith, l refl)))
  summary excess cleanup current image_infos w d (suc f) none n i l =
      rw (remove_excess_containers, i, n)
        (settled (length excess) (0 + d) (suc f) (omega (arith, l refl)))

  -- Each container is stopped, with up to three tries, until a wait is cancelled. The report is
  -- then the cancellation; else it is the number of the containers if each was removed or gone,
  -- and 0 and how many of all were given up if some were.
  pub remove_excess_containers_lem :
      (excess : List Container) (cleanup : Bool) (current : Option Container)
      (image_infos : Option (List RemovedImageInfo)) (w : W)
      → IsTold excess w
          (remove_excess_containers client retry_delay excess cleanup current image_infos w).0.0
  unfolding remove_excess_containers Summary
  remove_excess_containers_lem excess cleanup current image_infos w =
      let collected : List RemovedImageInfo = elim image_infos [ none ↦ [] | some infos ↦ infos ] in
      let start : Tally = record { count = 0; infos = collected; interruption = none } in
      let (d, f, stop, r, n, i, l) = remove_each_lem cleanup current excess start w in
      (
        d,
        f,
        stop,
        (remove_each client retry_delay cleanup current excess start w).1,
        r,
        l,
        summary excess cleanup current image_infos w d f stop n i l,
      )
