-- ===== src/Locking/Exclusion.antt =====
-- At most one task works at a time, and the lock is free exactly if none does.
use aether_supervisor.Prelude.{
  codes, Text, Bool, true, false, Option, none, some, List, [], ◌∷◌, ◌++◌, ℕ, ◌+◌, ◌≡◌, refl, subst,
  ap, arith,
}
use aether_supervisor.Api.{
  enter, Signal, look, done, timer, Entry, refused, entered, blocked, enter_update, enter_apply,
  enter_check, enter_download,
}
use aether_supervisor.Container.Data.{Container}
use aether_supervisor.Locking.{
  Task, pending, waiting, working, finished, Job, request, run, shutdown, End, Event, signal,
  returned, System, Reached, step, start, wait_for_running_update, ending, enter_request, is_parent,
  Operation, Moved, of_entry, start_run, release,
}

abbrev pub tokens : Option Bool → ℕ
tokens none = 0
tokens (some _) = 1

abbrev pub holds : Task → ℕ
holds (pending _) = 0
holds waiting = 0
holds (working _ _) = 1
holds (finished _) = 0

-- How many tasks hold the lock.
abbrev pub holders : List Task → ℕ
holders [] = 0
holders (t ∷ ts) = holds t + holders ts

pub holders-append : (xs ys : List Task) → holders (xs ++ ys) ≡ holders xs + holders ys
holders-append [] ys = omega arith
holders-append (x ∷ xs) ys = omega (arith, holders-append xs ys)

pub holders-middle :
    (before after : List Task) (task : Task)
    → holders (before ++ task ∷ after) ≡ holders before + holders after + holds task
holders-middle before after task = omega (arith, holders-append before (task ∷ after))

-- The tokens in the channel and with the task
abbrev balance : Moved → ℕ
balance (task, lock) = tokens lock + holds task

abbrev Balanced : ℕ → Option Moved → Type 0
Balanced n none = Unit
Balanced n (some m) = balance m ≡ n

-- An entry takes the value of a channel that has one.
abbrev Honest : Option Bool → Entry → Type 0
Honest (some _) e = Unit
Honest none (entered _) = ⊥
Honest none _ = Unit

of_entry-Balanced :
    (job : Job) (lock : Option Bool) (e : Entry)
    → Honest lock e
    → Balanced (tokens lock) (of_entry job lock e)
of_entry-Balanced job (some v) (refused a) h = refl
of_entry-Balanced job none (refused a) h = refl
of_entry-Balanced job (some v) (entered w) h = refl
of_entry-Balanced job none (entered w) h = absurd h
of_entry-Balanced job lock blocked h = tt

enter-Honest :
    (name : Text) (ok : Bool) (images : List Text) (lock : Option Bool) (s : Signal)
    → Honest lock (enter name ok images lock s)
enter-Honest name false images none s = tt
enter-Honest name false images (some v) s = tt
enter-Honest name true images (some v) s = tt
enter-Honest name true [] none look = tt
enter-Honest name true [] none done = tt
enter-Honest name true [] none timer = tt
enter-Honest name true (_ ∷ _) none look = tt
enter-Honest name true (_ ∷ _) none done = tt
enter-Honest name true (_ ∷ _) none timer = tt

enter_request-Honest :
    (o : Operation) (ok : Bool) (images : List Text) (lock : Option Bool) (s : Signal)
    → Honest lock (enter_request o ok images lock s)
unfolding enter_request enter_update enter_apply enter_check enter_download
enter_request-Honest Operation.update = enter-Honest (codes "update")
enter_request-Honest Operation.apply = enter-Honest (codes "apply")
enter_request-Honest Operation.check = enter-Honest (codes "check")
enter_request-Honest Operation.download = enter-Honest (codes "download")

start_run-Balanced :
    (current : Option Container) (blocking parent : Bool) (lock : Option Bool) (s : Signal)
    → Balanced (tokens lock) (start_run current blocking parent lock s)
start_run-Balanced current blocking true none look = refl
start_run-Balanced current blocking true (some v) look = refl
start_run-Balanced current blocking false (some v) look = refl
start_run-Balanced current true false none look = tt
start_run-Balanced current false false none look = refl
start_run-Balanced current blocking parent lock done = tt
start_run-Balanced current blocking parent lock timer = tt

start-Balanced :
    (job : Job) (lock : Option Bool) (s : Signal) → Balanced (tokens lock) (start job lock s)
unfolding start
start-Balanced (request o ok images) lock s =
    of_entry-Balanced (request o ok images) lock (enter_request o ok images lock s)
      (enter_request-Honest o ok images lock s)
start-Balanced (run current blocking) lock s =
    start_run-Balanced current blocking (is_parent current) lock s
start-Balanced shutdown none look = refl
start-Balanced shutdown (some v) look = refl
start-Balanced shutdown lock done = tt
start-Balanced shutdown lock timer = tt

wait-Balanced :
    (lock : Option Bool) (s : Signal) → Balanced (tokens lock + 0) (wait_for_running_update lock s)
unfolding wait_for_running_update
wait-Balanced none look = tt
wait-Balanced (some v) look = refl
wait-Balanced none done = refl
wait-Balanced (some v) done = refl
wait-Balanced none timer = refl
wait-Balanced (some v) timer = refl

release-Balanced :
    (v : Bool) (lock : Option Bool) (end : Option End)
    → Balanced (tokens lock + 1) (release v lock end)
release-Balanced v none none = tt
release-Balanced v none (some end) = refl
release-Balanced v (some w) end = tt

-- A step moves the value between the channel and the task, and makes or loses none.
step-Balanced :
    (task : Task) (lock : Option Bool) (event : Event)
    → Balanced (tokens lock + holds task) (step task lock event)
unfolding step
step-Balanced (pending job) lock (signal s) =
    subst (λ n. Balanced n (start job lock s)) (omega arith) (start-Balanced job lock s)
step-Balanced (pending job) lock (returned r) = tt
step-Balanced waiting lock (signal s) = wait-Balanced lock s
step-Balanced waiting lock (returned r) = tt
step-Balanced (working job v) lock (signal s) = tt
step-Balanced (working job v) lock (returned r) = release-Balanced v lock (ending job r)
step-Balanced (finished end) lock event = tt

step-balance :
    (task task' : Task) (lock lock' : Option Bool) (event : Event)
    → step task lock event ≡ some (task', lock')
    → tokens lock' + holds task' ≡ tokens lock + holds task
step-balance task task' lock lock' event e =
    subst (Balanced (tokens lock + holds task)) e (step-Balanced task lock event)

-- In every state that is reached, the lock's value is in the channel and no task works, or it is
-- taken and exactly one task works.
pub Reached-holders : {s : System} → Reached s → tokens s.lock + holders s.tasks ≡ 1
Reached-holders Reached.started = refl
Reached-holders (Reached.arrived job r) = omega (arith, Reached-holders r)
Reached-holders (Reached.moved before after task task' lock' event e moves r) = omega (
  arith,
  Reached-holders r,
  ap holders e,
  holders-middle before after task,
  holders-middle before after task',
  step-balance task task' _ lock' event moves,
)
