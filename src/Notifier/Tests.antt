-- ===== src/Notifier/Tests.antt =====
-- A notifier with a delay takes two messages and is closed; a message that comes after Close.
use aether_supervisor.Prelude.{
  Text, codes, Bool, true, Option, none, some, List, [], ◌∷◌, ◌≡◌, refl,
}
use aether_supervisor.Notifier.{
  delaying, waiting, Notifier, take, tick, see_stop, delivered, create_notifier, Event, hooked,
  checked, entered, notified, work, closing, closed, step, Reached, created, moved,
}
use aether_supervisor.Notifier.Order.{IsOrderly, Reached-IsOrderly}

abbrev first_entry : List Text → Option Text → Text
first_entry [] report = codes "done"
first_entry (e ∷ es) report = e

-- The goroutine waits to send the first message, the second is in the channel, and Close has begun.
abbrev closing_down : Notifier Text
closing_down = record create_notifier {
  entries = none;
  messages = codes "web" ∷ [];
  closed = true;
  stop_closed = true;
  worker = delaying (codes "done");
  closing = waiting;
  accepted = codes "done" ∷ codes "web" ∷ [];
}

closing_down-Reached : Reached first_entry true closing_down
unfolding step
closing_down-Reached = moved closing refl refl (
    moved (work take) refl refl (
      moved (entered (codes "web")) refl refl (
        moved checked refl refl
          (moved (notified none) refl refl (moved hooked refl refl created)))))

Reached-IsOrderly_example : IsOrderly closing_down
Reached-IsOrderly_example = Reached-IsOrderly first_entry true closing_down closing_down-Reached

abbrev pass : List (Event Text Text) → Notifier Text → Option (Notifier Text)
pass [] n = some n
pass (e ∷ es) n = elim (step first_entry true e n) [ none ↦ none | some n' ↦ pass es n' ]

abbrev panics : Option (Notifier Text) → Option Bool
panics none = none
panics (some n) = some n.panicked

-- A report that is sent after Close, as by an update that outlives the shutdown, panics.
late_report :
    panics (
      pass
        (work tick
          ∷ work delivered
          ∷ work see_stop
          ∷ work take
          ∷ work delivered
          ∷ work take
          ∷ closed
          ∷ notified none
          ∷ [])
        closing_down)
    ≡ some true
unfolding step
late_report = refl
