-- ===== src/Session/Progress/Keyed.antt =====
-- The invariant of a progress map: an entry's key is the ID in its status, and no key is there
-- twice. Each method keeps it.
use aether_supervisor.Prelude.{
  Text, Assoc, insert, adjust, lookup, lookup-adjust, All, Distinct, text_eq, text_eq_iff, map,
  Option, none, some, List, [], ◌∷◌, ◌≡◌, ◌≢◌, refl, ◌∙◌, arith, Bool-cases, inl, inr,
}
use aether_supervisor.Container.Data.{Container}
use aether_supervisor.Container.Labels.{UpdateParams}
use aether_supervisor.Session.Status.{ContainerStatus, State}
use aether_supervisor.Session.Progress.{
  Progress, add, add_skipped, add_scanned, update_failed, mark_for_update, mark_restarted, mark,
  mark_failed, statuses,
}
use aether_supervisor.Session.Report.Settled.{settle}

abbrev pub key : Text × ContainerStatus → Text
key e = e.0

abbrev pub IsKeyed : Progress → Type 0
IsKeyed m = All (λ e. e.1.container_id ≡ e.0) m × Distinct key m

-- A key that differs from all keys of a map differs from those after an insertion elsewhere.
ne-insert :
    (k j : Text) (v : ContainerStatus) (m : Progress)
    → k ≢ j
    → All (λ e. k ≢ e.0) m
    → All (λ e. k ≢ e.0) (insert j v m)
ne-insert k j v [] d h = (d, tt)
ne-insert k j v ((i, w) ∷ m) d h = ground (arith, ne-insert k j v m)

insert-Distinct :
    (j : Text) (v : ContainerStatus) (m : Progress) → Distinct key m → Distinct key (insert j v m)
insert-Distinct j v [] h = (tt, tt)
insert-Distinct j v ((i, w) ∷ m) h = elim (Bool-cases (text_eq i j)) [
  | inl e ↦ rw (e, ← (text_eq_iff i j).0 e) h
  | inr n ↦
      rw n (ne-insert i j v m (λ e. cc (n, (text_eq_iff i j).1 e)) h.0, insert-Distinct j v m h.1)
]

insert-keys :
    (j : Text) (v : ContainerStatus) (m : Progress)
    → v.container_id ≡ j
    → All (λ e. e.1.container_id ≡ e.0) m
    → All (λ e. e.1.container_id ≡ e.0) (insert j v m)
insert-keys j v [] e h = (e, tt)
insert-keys j v ((i, w) ∷ m) e h = ground (arith, insert-keys j v m)

-- Adding a status keeps the map well formed.
pub add-IsKeyed : (u : ContainerStatus) (m : Progress) → IsKeyed m → IsKeyed (add u m)
unfolding add
add-IsKeyed u m h =
    (insert-keys u.container_id u m refl h.0, insert-Distinct u.container_id u m h.1)

module _ (f : ContainerStatus → ContainerStatus)
    (same_id : (u : ContainerStatus) → (f u).container_id ≡ u.container_id) where
  ne-adjust : (k j : Text) (m : Progress) → All (λ e. k ≢ e.0) m → All (λ e. k ≢ e.0) (adjust j f m)
  ne-adjust k j [] h = tt
  ne-adjust k j ((i, w) ∷ m) h = ground (arith, ne-adjust k j m)

  pub adjust-IsKeyed : (j : Text) (m : Progress) → IsKeyed m → IsKeyed (adjust j f m)
  adjust-IsKeyed j [] h = (tt, tt)
  adjust-IsKeyed j ((i, w) ∷ m) h = ground (arith, same_id w, adjust-IsKeyed j m, ne-adjust i j m)

pub update_failed-IsKeyed :
    (failures : Assoc (Option Text)) (m : Progress) → IsKeyed m → IsKeyed (update_failed failures m)
unfolding update_failed
update_failed-IsKeyed [] m h = h
update_failed-IsKeyed ((k, err) ∷ failures) m h =
    update_failed-IsKeyed failures (adjust k (mark_failed err) m)
      (adjust-IsKeyed (mark_failed err) (λ u. refl) k m h)

-- The calls that a run makes on the map.
pub data Call : Type 0 where
  skip : Container → Option Text → Call
  scan : Container → (new_image : Text) → Call
  fail : Assoc (Option Text) → Call
  update restart : (container_id : Text) → Call

pub run_call : UpdateParams → Call → Progress → Progress
run_call params (skip c err) m = add_skipped c err params m
run_call params (scan c new_image) m = add_scanned c new_image params m
run_call params (fail failures) m = update_failed failures m
run_call params (update container_id) m = mark_for_update container_id m
run_call params (restart container_id) m = mark_restarted container_id m

unfoldable pub run_calls : UpdateParams → List Call → Progress → Progress
run_calls params [] m = m
run_calls params (call ∷ calls) m = run_calls params calls (run_call params call m)

run_call-IsKeyed :
    (params : UpdateParams) (call : Call) (m : Progress)
    → IsKeyed m
    → IsKeyed (run_call params call m)
unfolding run_call add_skipped add_scanned mark_for_update mark_restarted
run_call-IsKeyed params (skip c err) m h = add-IsKeyed _ m h
run_call-IsKeyed params (scan c new_image) m h = add-IsKeyed _ m h
run_call-IsKeyed params (fail failures) m h = update_failed-IsKeyed failures m h
run_call-IsKeyed params (update j) m h = adjust-IsKeyed (mark State.updated) (λ u. refl) j m h
run_call-IsKeyed params (restart j) m h = adjust-IsKeyed (mark State.restarted) (λ u. refl) j m h

run_calls_from-IsKeyed :
    (params : UpdateParams) (calls : List Call) (m : Progress)
    → IsKeyed m
    → IsKeyed (run_calls params calls m)
unfolding run_calls
run_calls_from-IsKeyed params [] m h = h
run_calls_from-IsKeyed params (call ∷ calls) m h =
    run_calls_from-IsKeyed params calls (run_call params call m) (run_call-IsKeyed params call m h)

-- Whatever calls a run makes, in whatever order, its progress map is well formed.
pub run_calls-IsKeyed :
    (params : UpdateParams) (calls : List Call) → IsKeyed (run_calls params calls [])
run_calls-IsKeyed params calls = run_calls_from-IsKeyed params calls [] (tt, tt)

ids_ne :
    (k : Text) (m : Progress)
    → All (λ e. e.1.container_id ≡ e.0) m
    → All (λ e. k ≢ e.0) m
    → All (λ u. k ≢ u.container_id) (map settle (statuses m))
unfolding settle
ids_ne k [] h d = tt
ids_ne k ((i, w) ∷ m) h d = (λ e. d.0 (e ∙ h.0), ids_ne k m h.1 d.1)

-- Distinct keys make the IDs of the settled statuses distinct.
pub settled-Distinct :
    (m : Progress) → IsKeyed m → Distinct (λ u. u.container_id) (map settle (statuses m))
unfolding settle
settled-Distinct [] h = tt
settled-Distinct ((k, u) ∷ m) h =
    (rw h.0.0 (ids_ne k m h.0.1 h.1.0), settled-Distinct m (h.0.1, h.1.1))

lookup-eq-none :
    (k : Text) (failures : Assoc (Option Text))
    → All (λ e. k ≢ e.0) failures
    → lookup k failures ≡ none
lookup-eq-none k [] h = refl
lookup-eq-none k ((j, e) ∷ failures) h =
    ground (arith, text_eq_iff j k, lookup-eq-none k failures h.1)

-- What UpdateFailed makes of the entry of a container: where there is a failure, its state is failed
-- and its error that of the failure, and all else of it stays.
unfoldable pub failed_entry : Option ContainerStatus → Option (Option Text) → Option ContainerStatus
failed_entry none err = none
failed_entry (some u) none = some u
failed_entry (some u) (some err) = some (record {
  container_id = u.container_id;
  old_image = u.old_image;
  new_image = u.new_image;
  container_name = u.container_name;
  image_name = u.image_name;
  container_error = err;
  state = State.failed;
  monitor_only = u.monitor_only;
  new_container_id = u.new_container_id;
})

-- After UpdateFailed the status of a container that the failures name has the state failed and
-- their error and is otherwise the same, every other status is unchanged, and no entry is made for an unknown container.
pub lookup-update_failed :
    (failures : Assoc (Option Text)) (m : Progress) (id : Text)
    → Distinct (λ (e : Text × Option Text). e.0) failures
    → lookup id (update_failed failures m) ≡ failed_entry (lookup id m) (lookup id failures)
unfolding update_failed failed_entry
lookup-update_failed [] m id d = ground arith
lookup-update_failed ((k, err) ∷ failures) m id d = ground (
  arith,
  lookup-update_failed failures (adjust k (mark_failed err) m) id d.1,
  lookup-adjust k id (mark_failed err) m,
  text_eq_iff k id,
  lookup-eq-none k failures d.0,
)
