-- ===== src/Notifier/Waiting.antt =====
-- Close is not stuck while it waits for the goroutine.
use aether_supervisor.Prelude.{
  Text, Bool, true, false, Option, none, some, List, ℕ, ◌+◌, ◌*◌, ◌<◌, length, ◌≡◌, is_some,
}
use aether_supervisor.Notifier.{
  Worker, absent, idle, delaying, sending, draining, exited, Notifier, Work, step, work,
}

-- How much the goroutine has left to do
abbrev stage : Worker → ℕ
stage absent = 0
stage idle = 2
stage (delaying _) = 4
stage (sending true _) = 2
stage (sending false _) = 3
stage draining = 1
stage (exited _) = 0

abbrev weigh : Worker → List Text → ℕ
weigh worker messages = 3 * length messages + stage worker

module _ {Entry : Type 0} where
  abbrev pub weight : Notifier Entry → ℕ
  weight n = weigh n.worker n.messages

  abbrev pub Shrinks : ℕ → Option (Notifier Entry) → Type 0
  Shrinks k none = Unit
  Shrinks k (some n') = weight n' < k

module _ {Entry Report : Type 0} (render : List Entry → Option Report → Text) (delayed : Bool) where
  -- The goroutine can do what it is about to do.
  abbrev pub CanWork : Notifier Entry → Type 0
  CanWork n = (w : Work) × (is_some (step render delayed (work w) n) ≡ true)
