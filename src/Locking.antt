-- ===== src/Locking.antt =====
-- The lock that keeps one update at a time: a channel with room for one value, that the handlers of
-- the HTTP API share with the runs and the shutdown of internal/scheduling/scheduling.go
-- (SetupAndStartAPI of internal/api/api.go passes it to all four handlers). Goroutines are tasks
-- that take steps in any order.
pub mod Exclusion
pub mod Progress
mod Tests
use aether_supervisor.Prelude.{
  Text, Bool, true, false, Option, none, some, List, [], ◌∷◌, ◌++◌, if◌then◌else◌, ◌≡◌,
}
use aether_supervisor.Container.Data.{Container, id}
use aether_supervisor.Container.Hooks.{get_container_chain}
use aether_supervisor.Scheduling.{is_watchtower_parent}
use aether_supervisor.Metrics.{Metric}
use aether_supervisor.Api.{
  Answer, Called, CheckResult, DownloadResult, Signal, look, done, timer, Entry, refused, entered,
  blocked, update_answer, apply_answer, check_answer, download_answer, enter_update, enter_apply,
  enter_check, enter_download,
}

pub data Operation : Type 0 where
  update : Operation
  apply : Operation
  check : Operation
  download : Operation

-- A request says whether its body can be read, and its images; a run says which container the
-- program runs in, and whether it waits for the lock.
pub data Job : Type 0 where
  request : Operation → Bool → List Text → Job
  run : Option Container → Bool → Job
  shutdown : Job

-- How a task ends.
pub data End : Type 0 where
  answered : Answer → End
  skipped : End
  completed : End
  gave_up : End

-- A task that works holds the value that it has received from the channel.
pub data Task : Type 0 where
  pending : Job → Task
  waiting : Task
  working : Job → Bool → Task
  finished : End → Task

-- What the work of a job returns.
pub data Reply : Type 0 where
  metric : Option Metric → Reply
  check_result : Called CheckResult → Reply
  download_result : Called DownloadResult → Reply
  nothing : Reply

pub data Event : Type 0 where
  signal : Signal → Event
  returned : Reply → Event

-- A task with the channel after its step
abbrev pub Moved : Type 0
Moved = Task × Option Bool

abbrev pub of_entry : Job → Option Bool → Entry → Option Moved
of_entry job lock (refused answer) = some (finished (answered answer), lock)
of_entry job lock (entered chan_value) = some (working job chan_value, none)
of_entry job lock blocked = none

unfoldable pub enter_request : Operation → Bool → List Text → Option Bool → Signal → Entry
unfolding enter_update enter_apply enter_check enter_download
enter_request update = enter_update
enter_request apply = enter_apply
enter_request check = enter_check
enter_request download = enter_download

unfoldable pub is_parent : Option Container → Bool
is_parent none = false
is_parent (some c) = elim (get_container_chain c) [
  | none ↦ is_watchtower_parent (id c) []
  | some chain ↦ is_watchtower_parent (id c) chain
]

-- The start of updateFunc
abbrev pub start_run : Option Container → Bool → Bool → Option Bool → Signal → Option Moved
start_run current blocking true lock look = some (finished skipped, lock)
start_run current blocking false (some v) look = some (working (run current blocking) v, none)
start_run current true false none look = none
start_run current false false none look = some (finished skipped, none)
start_run current blocking parent lock done = none
start_run current blocking parent lock timer = none

-- WaitForRunningUpdate looks whether the lock is free, and else waits for it.
abbrev pub start_shutdown : Option Bool → Signal → Option Moved
start_shutdown (some v) look = some (finished completed, some v)
start_shutdown none look = some (waiting, none)
start_shutdown lock done = none
start_shutdown lock timer = none

unfoldable pub wait_for_running_update : Option Bool → Signal → Option Moved
wait_for_running_update (some v) look = some (working shutdown v, none)
wait_for_running_update none look = none
wait_for_running_update lock done = some (finished gave_up, lock)
wait_for_running_update lock timer = some (finished gave_up, lock)

unfoldable pub start : Job → Option Bool → Signal → Option Moved
unfolding enter_request is_parent
start (request operation readable images) lock s =
    of_entry (request operation readable images) lock
      (enter_request operation readable images lock s)
start (run current blocking) lock s = start_run current blocking (is_parent current) lock s
start shutdown lock s = start_shutdown lock s

-- How a job ends by what its work returns; nothing else can be returned.
unfoldable pub ending : Job → Reply → Option End
unfolding update_answer apply_answer check_answer download_answer
ending (request update _ images) (metric m) = some (answered (update_answer m))
ending (request apply _ images) (metric m) = some (answered (apply_answer m))
ending (request check _ images) (check_result r) = some (answered (check_answer r))
ending (request download _ images) (download_result r) = some (answered (download_answer images r))
ending (run _ _) (metric m) = some completed
ending shutdown nothing = some completed
ending _ _ = none

-- The deferred write of the value to the channel, which waits while the channel is full
abbrev pub release : Bool → Option Bool → Option End → Option Moved
release v none (some end) = some (finished end, some v)
release v none none = none
release v (some _) end = none

unfoldable pub step : Task → Option Bool → Event → Option Moved
unfolding start wait_for_running_update ending
step (pending job) lock (signal s) = start job lock s
step waiting lock (signal s) = wait_for_running_update lock s
step (working job v) lock (returned reply) = release v lock (ending job reply)
step _ lock event = none

pub record System : Type 0 where
  pub lock : Option Bool
  pub tasks : List Task

-- The states that any number of jobs reach, in any interleaving of their steps.
pub data Reached : System → Type 0 where
  started : Reached (record { lock = some true; tasks = [] })
  arrived :
      {s : System} (job : Job)
      → Reached s
      → Reached (record { lock = s.lock; tasks = pending job ∷ s.tasks })
  moved :
      {s : System} (before after : List Task) (task task' : Task) (lock' : Option Bool)
      (event : Event)
      → s.tasks ≡ before ++ task ∷ after
      → step task s.lock event ≡ some (task', lock')
      → Reached s
      → Reached (record { lock = lock'; tasks = before ++ task' ∷ after })
