-- ===== src/Locking/Progress.antt =====
-- Who is turned away at the lock, and that no task waits for ever for a lock that nobody holds.
use aether_supervisor.Prelude.{
  Text, codes, Bool, true, false, Option, none, some, List, [], ◌∷◌, ◌++◌, ◌≡◌, refl, ap, ◌∙◌,
  arith, inl, inr, Option-cases,
}
use aether_supervisor.Api.{
  Entry, refused, entered, blocked, enter, enter_update, enter_apply, enter_check, enter_download,
  Signal, look, done, timer, busy, Called,
}
use aether_supervisor.Locking.{
  Task, pending, waiting, working, finished, Job, request, run, shutdown, End, Reply, Event, signal,
  returned, System, Reached, step, start, wait_for_running_update, ending, Operation, update, apply,
  check, download, answered, Moved, enter_request, is_parent, of_entry, start_run,
}
use aether_supervisor.Container.Data.{Container}
use aether_supervisor.Locking.Exclusion.{
  tokens, holds, holders, holders-append, holders-middle, Reached-holders,
}

-- Whatever the work of a task returns, the task can give the lock back at once.
pub Reached-release :
    {s : System} (before after : List Task) (job : Job) (v : Bool) (reply : Reply) (end : End)
    → Reached s
    → s.tasks ≡ before ++ working job v ∷ after
    → ending job reply ≡ some end
    → step (working job v) s.lock (returned reply) ≡ some (finished end, some v)
unfolding step
Reached-release {s} before after job v reply end r e h = elim (Option-cases s.lock) [
  | inl free ↦ rw (free, h) refl
  | inr (w, taken) ↦ absurd (
      omega (
        arith,
        Reached-holders r,
        ap holders e,
        holders-middle before after (working job v),
        ap tokens taken,
      ))
]

-- A reply of the job's work
reply_of : Job → Reply
reply_of (request update _ _) = Reply.metric none
reply_of (request apply _ _) = Reply.metric none
reply_of (request check _ _) = Reply.check_result Called.absent
reply_of (request download _ _) = Reply.download_result Called.absent
reply_of (run _ _) = Reply.metric none
reply_of shutdown = Reply.nothing

ending-reply_of : (job : Job) → (end : End) × (ending job (reply_of job) ≡ some end)
unfolding ending reply_of
ending-reply_of (request update _ _) = (_, refl)
ending-reply_of (request apply _ _) = (_, refl)
ending-reply_of (request check _ _) = (_, refl)
ending-reply_of (request download _ _) = (_, refl)
ending-reply_of (run _ _) = (_, refl)
ending-reply_of shutdown = (_, refl)

abbrev pub IsOpen : Task → Type 0
IsOpen (finished _) = ⊥
IsOpen _ = Unit

-- Some task of the system can take a step.
pub record Moves (s : System) : Type 0 where
  pub before : List Task
  pub after : List Task
  pub task : Task
  pub event : Event
  pub next : Moved
  pub there : s.tasks ≡ before ++ task ∷ after
  pub steps : step task s.lock event ≡ some next

abbrev Holder : List Task → Type 0
Holder ts =
    (before : List Task) × (after : List Task) × (job : Job) × (v : Bool) × (ts
      ≡ before ++ working job v ∷ after)

Holder-cons : (t : Task) (ts : List Task) → Holder ts → Holder (t ∷ ts)
Holder-cons t ts (before, after, job, v, e) = (t ∷ before, after, job, v, ap (λ l. t ∷ l) e)

Holder-of_holders : (ts : List Task) → holders ts ≡ 1 → Holder ts
Holder-of_holders [] h = absurd (omega arith)
Holder-of_holders (working job v ∷ ts) h = ([], ts, job, v, refl)
Holder-of_holders (pending job ∷ ts) h = Holder-cons _ ts (Holder-of_holders ts (omega arith))
Holder-of_holders (waiting ∷ ts) h = Holder-cons _ ts (Holder-of_holders ts (omega arith))
Holder-of_holders (finished end ∷ ts) h = Holder-cons _ ts (Holder-of_holders ts (omega arith))

enter_request-free :
    (o : Operation) (ok : Bool) (images : List Text) (v : Bool)
    → (m : Moved) × (start (request o ok images) (some v) look ≡ some m)
unfolding start enter_request
enter_request-free update true images v = (_, refl)
enter_request-free update false images v = (_, refl)
enter_request-free apply true images v = (_, refl)
enter_request-free apply false images v = (_, refl)
enter_request-free check true images v = (_, refl)
enter_request-free check false images v = (_, refl)
enter_request-free download true images v = (_, refl)
enter_request-free download false images v = (_, refl)

start_run-free :
    (current : Option Container) (blocking parent v : Bool)
    → (m : Moved) × (start_run current blocking parent (some v) look ≡ some m)
start_run-free current blocking true v = (_, refl)
start_run-free current blocking false v = (_, refl)

-- At a free lock every task that is open and does not work gets on.
free_moves :
    (t : Task) (v : Bool)
    → IsOpen t
    → holds t ≡ 0
    → (m : Moved) × (step t (some v) (signal look) ≡ some m)
unfolding step start wait_for_running_update
free_moves (pending (request o ok images)) v open_t idle = enter_request-free o ok images v
free_moves (pending (run current blocking)) v open_t idle =
    start_run-free current blocking (is_parent current) v
free_moves (pending shutdown) v open_t idle = (_, refl)
free_moves waiting v open_t idle = (_, refl)
free_moves (working job w) v open_t idle = absurd (omega arith)
free_moves (finished end) v open_t idle = absurd open_t

-- In every state that is reached with a task that has not ended, some task can take a step.
pub Reached-Moves :
    {s : System} (before after : List Task) (task : Task)
    → Reached s
    → s.tasks ≡ before ++ task ∷ after
    → IsOpen task
    → Moves s
Reached-Moves {s} before after task r e open_task = elim (Option-cases s.lock) [
  | inl taken ↦
      let (front, back, job, v, h) =
        Holder-of_holders s.tasks (omega (arith, Reached-holders r, ap tokens taken)) in
      let (end, ends) = ending-reply_of job in
      record {
        before = front;
        after = back;
        task = working job v;
        event = returned (reply_of job);
        next = (finished end, some v);
        there = h;
        steps = Reached-release front back job v (reply_of job) end r h ends;
      }
  | inr (v, free) ↦
      let idle : holds task ≡ 0 = omega (
        arith,
        Reached-holders r,
        ap holders e,
        holders-middle before after task,
        ap tokens free,
      ) in
      let (m, moves) = free_moves task v open_task idle in
      record {
        before = before;
        after = after;
        task = task;
        event = signal look;
        next = m;
        there = e;
        steps = ap (λ l. step task l (signal look)) free ∙ moves;
      }
]

enter-busy :
    (name : Text) (ok : Bool) (images : List Text) (lock : Option Bool) (s : Signal)
    (message : Text)
    → enter name ok images lock s ≡ refused (busy message)
    → (lock ≡ none) × (images ≡ [])
enter-busy name false images lock s message e = cc
enter-busy name true images (some v) look message e = cc
enter-busy name true [] none look message e = (refl, refl)
enter-busy name true (i ∷ is) none look message e = cc
enter-busy name true (i ∷ is) lock done message e = cc
enter-busy name true [] lock done message e = cc
enter-busy name true images lock timer message e = cc

of_entry-busy :
    (job : Job) (lock : Option Bool) (entry : Entry) (message : Text) {lock' : Option Bool}
    → of_entry job lock entry ≡ some (finished (answered (busy message)), lock')
    → entry ≡ refused (busy message)
of_entry-busy job lock (refused answer) message e = cc
of_entry-busy job lock (entered v) message e = cc
of_entry-busy job lock blocked message e = cc

-- A handler turns a request away as busy only if the lock is taken and the request names no image.
pub enter_request-busy :
    (o : Operation) (ok : Bool) (images : List Text) (lock : Option Bool) (s : Signal)
    (message : Text)
    → enter_request o ok images lock s ≡ refused (busy message)
    → (lock ≡ none) × (images ≡ [])
unfolding enter_request enter_update enter_apply enter_check enter_download
enter_request-busy update ok images lock s message e =
    enter-busy (codes "update") ok images lock s message e
enter_request-busy apply ok images lock s message e =
    enter-busy (codes "apply") ok images lock s message e
enter_request-busy check ok images lock s message e =
    enter-busy (codes "check") ok images lock s message e
enter_request-busy download ok images lock s message e =
    enter-busy (codes "download") ok images lock s message e

-- A request is turned away as busy only while another task works, and only if it names no image.
pub Reached-busy :
    {s : System} (before after : List Task) (o : Operation) (ok : Bool) (images : List Text)
    (event : Signal) (message : Text) (lock' : Option Bool)
    → Reached s
    → s.tasks ≡ before ++ pending (request o ok images) ∷ after
    → step (pending (request o ok images)) s.lock (signal event)
      ≡ some (finished (answered (busy message)), lock')
    → (holders (before ++ after) ≡ 1) × (images ≡ [])
unfolding step start
Reached-busy {s} before after o ok images event message lock' r e moves =
    let (taken, none_named) = enter_request-busy o ok images s.lock event message (
      of_entry-busy (request o ok images) s.lock (enter_request o ok images s.lock event) message
        moves) in
    (
      omega (
        arith,
        Reached-holders r,
        ap holders e,
        holders-middle before after (pending (request o ok images)),
        holders-append before after,
        ap tokens taken,
      ),
      none_named,
    )
