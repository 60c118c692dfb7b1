-- ===== src/Notifier/Order.antt =====
-- Which messages the router is given, and in which order.
use aether_supervisor.Prelude.{
  Text, Bool, true, false, Option, none, some, List, [], ◌∷◌, ◌++◌, append_assoc, ℕ, zero, suc, ◌≤◌,
  length, length-append, ltb, ◌≡◌, refl, sym, ap, ◌∙◌, subst, arith, Bool-cases, if-keeps, inl, inr,
  if◌then◌else◌,
}
use aether_supervisor.Container.Identifier.{is_empty}
use aether_supervisor.Notifier.{
  Worker, absent, idle, delaying, sending, draining, exited, Closing, unclosed, waiting, Notifier,
  message_channel_buffer_size, Work, take, tick, delivered, see_stop, see_cancel, send_message,
  take_idle, take_draining, when_cancelled, after_sending, send_notifications, add_log_hook, close,
  close_end, send_entries, flush, queued, start_notification, send_notification, fired, enter, step,
  Reached, created, moved, Event, hooked, checked, entered, started, notified, emptied, filtered,
  work, closing, closed,
}

-- The message that the goroutine has taken and not given to the router
abbrev pub in_hand : Worker → List Text
in_hand (delaying m) = m ∷ []
in_hand (sending _ m) = m ∷ []
in_hand (exited (some m)) = m ∷ []
in_hand _ = []

joined :
    {accepted : List Text} (sent hand messages more : List Text)
    → accepted ≡ sent ++ (hand ++ messages)
    → accepted ++ more ≡ sent ++ (hand ++ (messages ++ more))
joined sent hand messages more e =
    ap (λ l. l ++ more) e
    ∙ append_assoc sent (hand ++ messages) more
    ∙ ap (λ l. sent ++ l) (append_assoc hand messages more)

room_left : (ms : List Text) (m : Text) → ltb (length ms) 1000 ≡ true → length (ms ++ m ∷ []) ≤ 1000
room_left ms m l = subst (λ k. k ≤ 1000) (sym (length-append ms (m ∷ []))) (ground arith)

module _ {Entry : Type 0} where
  -- Every message that the channel took was sent by the router, is held by the goroutine or is in
  -- the channel, in the order in which they were taken; and the channel keeps within its room.
  abbrev pub Orderly : Notifier Entry → Worker → List Text → Type 0
  Orderly n worker messages =
      (n.accepted ≡ n.sent ++ (in_hand worker ++ messages))
      × (length messages ≤ message_channel_buffer_size)

  abbrev pub IsOrderly : Notifier Entry → Type 0
  IsOrderly n = Orderly n n.worker n.messages

  abbrev IsOrderly? : Option (Notifier Entry) → Type 0
  IsOrderly? none = Unit
  IsOrderly? (some n) = IsOrderly n

  send_message-IsOrderly :
      (msg : Text) (n : Notifier Entry) → IsOrderly n → IsOrderly (send_message msg n)
  unfolding send_message
  send_message-IsOrderly msg n (h, room) = elim (Bool-cases n.messages_closed) [
    | inl c ↦ rw (c, send_message) (h, room)
    | inr c ↦ elim (Bool-cases (ltb (length n.messages) message_channel_buffer_size)) [
      | inl l ↦
          rw (c, l, send_message)
            (joined n.sent (in_hand n.worker) n.messages (msg ∷ []) h, room_left n.messages msg l)
      | inr l ↦ rw (c, l, send_message) (if-keeps IsOrderly n.closed _ _ (h, room) (h, room))
    ]
  ]

  send_entries-IsOrderly :
      (msg : Text) (n : Notifier Entry)
      → IsOrderly n
      → IsOrderly (if is_empty msg then n else send_message msg n)
  send_entries-IsOrderly msg n h =
      if-keeps IsOrderly (is_empty msg) _ _ h (send_message-IsOrderly msg n h)

  take_idle-IsOrderly :
      (delayed : Bool) (n : Notifier Entry) (ms : List Text)
      → Orderly n idle ms
      → IsOrderly? (take_idle delayed n ms)
  take_idle-IsOrderly delayed n [] h = tt
  take_idle-IsOrderly true n (m ∷ ms) (h, room) = (h, omega (arith, room))
  take_idle-IsOrderly false n (m ∷ ms) (h, room) = (h, omega (arith, room))

  take_draining-IsOrderly :
      (n : Notifier Entry) (ms : List Text)
      → n.messages ≡ ms
      → Orderly n draining ms
      → IsOrderly? (take_draining n ms)
  take_draining-IsOrderly n [] e (h, room) = subst (λ l. Orderly n draining l) (sym e) (h, room)
  take_draining-IsOrderly n (m ∷ ms) e (h, room) = (h, omega (arith, room))

  when_cancelled-IsOrderly :
      (b : Bool) (n : Notifier Entry) (given_up : Option Text)
      → Orderly n (exited given_up) n.messages
      → IsOrderly? (when_cancelled b n given_up)
  when_cancelled-IsOrderly true n given_up h = h
  when_cancelled-IsOrderly false n given_up h = tt

  delivered-IsOrderly :
      (drain : Bool) (m : Text) (n : Notifier Entry)
      → Orderly n (sending drain m) n.messages
      → IsOrderly (record n { sent = n.sent ++ m ∷ []; worker = after_sending drain })
  delivered-IsOrderly true m n (h, room) = (h ∙ sym (append_assoc n.sent (m ∷ []) n.messages), room)
  delivered-IsOrderly false m n (h, room) =
      (h ∙ sym (append_assoc n.sent (m ∷ []) n.messages), room)

  send_notifications-IsOrderly :
      (delayed : Bool) (w : Work) (n : Notifier Entry) (worker : Worker)
      → Orderly n worker n.messages
      → IsOrderly? (send_notifications delayed w n worker)
  unfolding send_notifications
  send_notifications-IsOrderly delayed take n idle h = take_idle-IsOrderly delayed n n.messages h
  send_notifications-IsOrderly delayed take n draining h =
      take_draining-IsOrderly n n.messages refl h
  send_notifications-IsOrderly delayed tick n (delaying m) h = h
  send_notifications-IsOrderly delayed delivered n (sending drain m) h =
      delivered-IsOrderly drain m n h
  send_notifications-IsOrderly delayed see_stop n idle h =
      if-keeps IsOrderly? n.stop_closed (some (record n { worker = draining })) none h tt
  send_notifications-IsOrderly delayed see_cancel n idle h =
      when_cancelled-IsOrderly n.cancelled n none h
  send_notifications-IsOrderly delayed see_cancel n (delaying m) h =
      when_cancelled-IsOrderly n.cancelled n (some m) h
  send_notifications-IsOrderly delayed see_cancel n (sending _ m) h =
      when_cancelled-IsOrderly n.cancelled n (some m) h
  send_notifications-IsOrderly delayed _ n worker h = tt

  add_log_hook-IsOrderly :
      (n : Notifier Entry) (worker : Worker)
      → n.worker ≡ worker
      → IsOrderly n
      → IsOrderly (add_log_hook n worker)
  add_log_hook-IsOrderly n absent e h = subst (λ w. Orderly n w n.messages) e h
  add_log_hook-IsOrderly n _ e h = h

  close-IsOrderly :
      (n : Notifier Entry) (closing : Closing) (worker : Worker)
      → IsOrderly n
      → IsOrderly? (close n closing worker)
  close-IsOrderly n unclosed absent h = h
  close-IsOrderly n unclosed _ h = h
  close-IsOrderly n _ worker h = tt

  close_end-IsOrderly :
      (n : Notifier Entry) (closing : Closing) (done : Bool)
      → IsOrderly n
      → IsOrderly? (close_end n closing done)
  close_end-IsOrderly n waiting true h = h
  close_end-IsOrderly n _ done h = tt

module _ {Entry Report : Type 0} (render : List Entry → Option Report → Text) (delayed : Bool) where
  flush-IsOrderly :
      (es : List Entry) (suppress : Bool) (n : Notifier Entry)
      → IsOrderly n
      → IsOrderly (flush render delayed es suppress n)
  unfolding send_entries
  flush-IsOrderly [] suppress n h = h
  flush-IsOrderly (e ∷ es) true n h = h
  flush-IsOrderly (e ∷ es) false n h = send_entries-IsOrderly (render (e ∷ es) none) n h

  fired-IsOrderly :
      (entry : Entry) (rest : ℕ) (queue : Option (List Entry)) (n : Notifier Entry)
      → IsOrderly n
      → IsOrderly (fired render delayed entry rest queue n)
  unfolding send_entries
  fired-IsOrderly entry rest none n h =
      send_entries-IsOrderly (render (entry ∷ []) none) (record n { firing = rest }) h
  fired-IsOrderly entry rest (some es) n h = h

  enter-IsOrderly :
      (entry : Entry) (waiting : ℕ) (n : Notifier Entry)
      → IsOrderly n
      → IsOrderly? (enter render delayed entry waiting n)
  enter-IsOrderly entry zero n h = tt
  enter-IsOrderly entry (suc rest) n h = fired-IsOrderly entry rest n.entries n h

  step-IsOrderly :
      (event : Event Entry Report) (n : Notifier Entry)
      → IsOrderly n
      → IsOrderly? (step render delayed event n)
  unfolding step start_notification send_notification send_entries
  step-IsOrderly hooked n h = add_log_hook-IsOrderly n n.worker refl h
  step-IsOrderly checked n h = if-keeps IsOrderly n.closed _ _ h h
  step-IsOrderly (entered entry) n h = enter-IsOrderly entry n.firing n h
  step-IsOrderly (started b) n h = flush-IsOrderly (queued n.entries) b n h
  step-IsOrderly (notified r) n h =
      send_entries-IsOrderly (render (queued n.entries) r) (record n { entries = none }) h
  step-IsOrderly emptied n h = h
  step-IsOrderly (filtered es r) n h = send_entries-IsOrderly (render es r) n h
  step-IsOrderly (work w) n h = send_notifications-IsOrderly delayed w n n.worker h
  step-IsOrderly closing n h = close-IsOrderly n n.closing n.worker h
  step-IsOrderly closed n h = close_end-IsOrderly n n.closing n.done h

  -- In every state that the steps of the callers, the goroutine and Close reach, in any order, each
  -- message that the channel took was sent by the router, is held by the goroutine or is in the
  -- channel: once, and in the order in which they were taken. The channel holds at most 1000.
  pub Reached-IsOrderly : (n : Notifier Entry) → Reached render delayed n → IsOrderly n
  Reached-IsOrderly _ created = (refl, omega arith)
  Reached-IsOrderly _ (moved {n} event alive e before) =
      subst IsOrderly? e (step-IsOrderly event n (Reached-IsOrderly n before))
