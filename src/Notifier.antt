-- ===== src/Notifier.antt =====
-- The notifier of pkg/notifications/shoutrrr.go: its queue of log entries, the channel of messages,
-- the goroutine that sends them, and Close. `render` stands for the template, which gives the empty
-- message where it fails, and `delayed` says whether there is a delay between messages. Callers and
-- the goroutine take their steps in any order. Fire is two steps, as its check comes before its lock;
-- SendNotification, which lets go of the lock before it sends, is one step, or `emptied` and `filtered`.
-- The first part of Close and the send with what follows it are one step each.
pub mod Order
pub mod Phases
pub mod Shutdown
pub mod Waiting
mod Tests
use aether_supervisor.Prelude.{
  Text, Bool, true, false, Option, none, some, List, [], ◌∷◌, ◌++◌, ℕ, zero, suc, length, ltb, not,
  if◌then◌else◌, ◌≡◌,
}
use aether_supervisor.Container.Identifier.{is_empty}

-- The goroutine of sendNotifications, with the message that it holds. A message that is sent while
-- the channel is drained has the mark `true`. It may end with a message that it has given up.
pub data Worker : Type 0 where
  absent : Worker
  idle : Worker
  delaying : Text → Worker
  sending : Bool → Text → Worker
  draining : Worker
  exited : Option Text → Worker

-- Close has not begun, waits for the goroutine, or has ended.
pub data Closing : Type 0 where
  unclosed : Closing
  waiting : Closing
  ended : Closing

-- `firing` counts the calls of Fire between its check and its lock.
-- `accepted` and `dropped` record which messages the channel has taken and which it had no room for,
-- `sent` those that the router has been given and has answered.
pub record Notifier (Entry : Type 0) : Type 0 where
  pub entries : Option (List Entry)
  pub firing : ℕ
  pub messages : List Text
  pub messages_closed : Bool
  pub closed : Bool
  pub stop_closed : Bool
  pub cancelled : Bool
  pub done : Bool
  pub worker : Worker
  pub closing : Closing
  pub panicked : Bool
  pub accepted : List Text
  pub dropped : List Text
  pub sent : List Text

abbrev pub message_channel_buffer_size : ℕ
message_channel_buffer_size = 1000

-- What the goroutine does next: it takes from the channel (or finds it drained), its timer fires, the
-- router returns, or it sees that it shall stop or that the context is done.
pub data Work : Type 0 where
  take : Work
  tick : Work
  delivered : Work
  see_stop : Work
  see_cancel : Work

abbrev pub after_sending : Bool → Worker
after_sending true = draining
after_sending false = idle

module _ {Entry : Type 0} where
  -- createNotifier
  abbrev pub create_notifier : Notifier Entry
  create_notifier = record {
    entries = some [];
    firing = 0;
    messages = [];
    messages_closed = false;
    closed = false;
    stop_closed = false;
    cancelled = false;
    done = false;
    worker = absent;
    closing = unclosed;
    panicked = false;
    accepted = [];
    dropped = [];
    sent = [];
  }

  -- A message to the channel: a send on a closed channel panics, and a full channel has no room. The
  -- look at `done` takes its signal.
  unfoldable pub send_message : Text → Notifier Entry → Notifier Entry
  send_message msg n =
      if n.messages_closed
      then record n { panicked = true }
      else if ltb (length n.messages) message_channel_buffer_size
      then record n { messages = n.messages ++ msg ∷ []; accepted = n.accepted ++ msg ∷ [] }
      else if n.closed
      then record n { dropped = n.dropped ++ msg ∷ [] }
      else record n { dropped = n.dropped ++ msg ∷ []; done = false }

  abbrev pub exit : Option Text → Notifier Entry → Notifier Entry
  exit given_up n = record n { worker = exited given_up; done = true }

  abbrev pub take_idle : Bool → Notifier Entry → List Text → Option (Notifier Entry)
  take_idle delayed n [] = none
  take_idle true n (m ∷ ms) = some (record n { messages = ms; worker = delaying m })
  take_idle false n (m ∷ ms) = some (record n { messages = ms; worker = sending false m })

  abbrev pub take_draining : Notifier Entry → List Text → Option (Notifier Entry)
  take_draining n [] = some (exit none n)
  take_draining n (m ∷ ms) = some (record n { messages = ms; worker = sending true m })

  abbrev pub when_cancelled : Bool → Notifier Entry → Option Text → Option (Notifier Entry)
  when_cancelled true n given_up = some (exit given_up n)
  when_cancelled false n given_up = none

  -- A step of the goroutine, which is in the given state
  unfoldable pub send_notifications :
      Bool → Work → Notifier Entry → Worker → Option (Notifier Entry)
  send_notifications delayed take n idle = take_idle delayed n n.messages
  send_notifications delayed take n draining = take_draining n n.messages
  send_notifications delayed tick n (delaying m) = some (record n { worker = sending false m })
  send_notifications delayed delivered n (sending drain m) =
      some (record n { sent = n.sent ++ m ∷ []; worker = after_sending drain })
  send_notifications delayed see_stop n idle =
      if n.stop_closed then some (record n { worker = draining }) else none
  send_notifications delayed see_cancel n idle = when_cancelled n.cancelled n none
  send_notifications delayed see_cancel n (delaying m) = when_cancelled n.cancelled n (some m)
  send_notifications delayed see_cancel n (sending drain m) = when_cancelled n.cancelled n (some m)
  send_notifications delayed _ n worker = none

  -- The hook starts the goroutine once.
  abbrev pub add_log_hook : Notifier Entry → Worker → Notifier Entry
  add_log_hook n absent = record n { worker = idle }
  add_log_hook n worker = n

  -- Close runs once. Without a goroutine it only cancels the context.
  abbrev pub close : Notifier Entry → Closing → Worker → Option (Notifier Entry)
  close n unclosed absent = some (record n { closed = true; cancelled = true; closing = ended })
  close n unclosed worker = some (record n { closed = true; stop_closed = true; closing = waiting })
  close n closing worker = none

  -- The rest of Close, when the goroutine has ended
  abbrev pub close_end : Notifier Entry → Closing → Bool → Option (Notifier Entry)
  close_end n waiting true =
      some (record n { done = false; messages_closed = true; cancelled = true; closing = ended })
  close_end n closing done = none

  -- The check of Fire, for an entry that may be notified of
  abbrev pub fire : Notifier Entry → Notifier Entry
  fire n = if n.closed then n else record n { firing = suc n.firing }

  abbrev pub queued : Option (List Entry) → List Entry
  queued none = []
  queued (some entries) = entries

pub data Event (Entry Report : Type 0) : Type 0 where
  hooked : Event Entry Report
  checked : Event Entry Report
  entered : Entry → Event Entry Report
  started : Bool → Event Entry Report
  notified : Option Report → Event Entry Report
  emptied : Event Entry Report
  filtered : List Entry → Option Report → Event Entry Report
  work : Work → Event Entry Report
  closing : Event Entry Report
  closed : Event Entry Report

module _ {Entry Report : Type 0} (render : List Entry → Option Report → Text) (delayed : Bool) where
  unfoldable pub send_entries : List Entry → Option Report → Notifier Entry → Notifier Entry
  unfolding send_message
  send_entries entries report n =
      if is_empty (render entries report) then n else send_message (render entries report) n

  -- Entries that are queued are sent before the queue is emptied.
  abbrev pub flush : List Entry → Bool → Notifier Entry → Notifier Entry
  flush [] suppress_summary n = n
  flush (e ∷ es) true n = n
  flush (e ∷ es) false n = send_entries (e ∷ es) none n

  unfoldable pub start_notification : Bool → Notifier Entry → Notifier Entry
  unfolding send_entries
  start_notification suppress_summary n = record (flush (queued n.entries) suppress_summary n) {
    entries = some [];
  }

  unfoldable pub send_notification : Option Report → Notifier Entry → Notifier Entry
  unfolding send_entries
  send_notification report n = send_entries (queued n.entries) report (record n { entries = none })

  -- The rest of Fire: the entry is queued, or sent where there is no queue.
  abbrev pub fired : Entry → ℕ → Option (List Entry) → Notifier Entry → Notifier Entry
  fired entry rest none n = send_entries (entry ∷ []) none (record n { firing = rest })
  fired entry rest (some entries) n = record n {
    firing = rest;
    entries = some (entries ++ entry ∷ []);
  }

  -- A call of Fire that has passed the check
  abbrev pub enter : Entry → ℕ → Notifier Entry → Option (Notifier Entry)
  enter entry zero n = none
  enter entry (suc rest) n = some (fired entry rest n.entries n)

  unfoldable pub step : Event Entry Report → Notifier Entry → Option (Notifier Entry)
  unfolding send_notifications start_notification send_notification send_entries
  step hooked n = some (add_log_hook n n.worker)
  step checked n = some (fire n)
  step (entered entry) n = enter entry n.firing n
  step (started suppress_summary) n = some (start_notification suppress_summary n)
  step (notified report) n = some (send_notification report n)
  step emptied n = some (record n { entries = none })
  step (filtered entries report) n = some (send_entries entries report n)
  step (work w) n = send_notifications delayed w n n.worker
  step closing n = close n n.closing n.worker
  step closed n = close_end n n.closing n.done

  -- The states that are reached in any interleaving; a panic ends the program.
  pub data Reached : Notifier Entry → Type 0 where
    created : Reached create_notifier
    moved :
        {n n' : Notifier Entry} (event : Event Entry Report)
        → n.panicked ≡ false
        → step event n ≡ some n'
        → Reached n
        → Reached n'
