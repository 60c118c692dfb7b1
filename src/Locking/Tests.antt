-- ===== src/Locking/Tests.antt =====
-- A full update, a targeted check and a shutdown meet at the lock.
use aether_supervisor.Prelude.{Text, codes, true, none, some, List, [], ◌∷◌, ◌+◌, ◌≡◌, refl}
use aether_supervisor.Api.{Answer, look, busy}
use aether_supervisor.Locking.{
  pending, waiting, working, finished, Job, request, shutdown, signal, returned, Reply, System,
  Reached, step, answered, update, check,
}
use aether_supervisor.Locking.Exclusion.{tokens, holders, Reached-holders}
use aether_supervisor.Locking.Progress.{Moves, Reached-Moves, Reached-busy}

abbrev all_containers : Job
all_containers = request update true []

abbrev one_image : Job
one_image = request check true (codes "web" ∷ [])

-- The update works, and the check and another update are there.
abbrev contended : System
contended = record {
  lock = none;
  tasks = pending all_containers ∷ pending one_image ∷ working all_containers true ∷ [];
}

contended-Reached : Reached contended
unfolding step
contended-Reached = Reached.arrived all_containers (
    Reached.arrived one_image (
      Reached.moved [] [] (pending all_containers) (working all_containers true) none (signal look)
        refl refl (Reached.arrived all_containers Reached.started)))

Reached-holders_example : tokens contended.lock + holders contended.tasks ≡ 1
Reached-holders_example = Reached-holders contended-Reached

Reached-Moves_example : Moves contended
Reached-Moves_example =
    Reached-Moves (pending all_containers ∷ []) (working all_containers true ∷ [])
      (pending one_image) contended-Reached refl tt

turned_away :
    step (pending all_containers) none (signal look)
    ≡ some (finished (answered (busy (codes "another update is already running"))), none)
unfolding step
turned_away = refl

Reached-busy_example :
    (holders (pending one_image ∷ working all_containers true ∷ []) ≡ 1)
    × (◌≡◌ {A = List Text} [] [])
Reached-busy_example =
    Reached-busy [] (pending one_image ∷ working all_containers true ∷ []) update true [] look
      (codes "another update is already running") none contended-Reached refl turned_away

check_waits : step (pending one_image) none (signal look) ≡ none
unfolding step
check_waits = refl

shutdown_waits : step (pending shutdown) none (signal look) ≡ some (waiting, none)
unfolding step
shutdown_waits = refl

update_panics :
    step (working all_containers true) none (returned (Reply.metric none))
    ≡ some (finished (answered Answer.panicked), some true)
unfolding step
update_panics = refl
