-- ===== src/Notifier/Shutdown.antt =====
-- The signals agree with the stage of Close in every state that is reached.
use aether_supervisor.Prelude.{
  Text, Bool, true, false, Option, none, some, List, [], ◌∷◌, ◌++◌, ℕ, zero, suc, length, ltb, ◌≡◌,
  refl, ap, ◌∙◌, subst, if-keeps, if◌then◌else◌,
}
use aether_supervisor.Container.Identifier.{is_empty}
use aether_supervisor.Notifier.{
  Worker, absent, idle, delaying, sending, draining, Closing, unclosed, waiting, Notifier,
  message_channel_buffer_size, Work, take, tick, delivered, see_stop, see_cancel, send_message,
  take_idle, take_draining, when_cancelled, send_notifications, add_log_hook, close, close_end,
  send_entries, flush, queued, start_notification, send_notification, fired, enter, step, Reached,
  created, moved, Event, hooked, checked, entered, started, notified, emptied, filtered, work,
  closing, closed,
}
use aether_supervisor.Notifier.Phases.{
  is_absent, is_exited, is_leaving, Phase, panics, resets, carries, begins, drained, cancels, stops,
  leave, if-cases,
}

module _ {Entry : Type 0} where
  abbrev pub Phased : Notifier Entry → Worker → Type 0
  Phased n w =
      Phase n.closing w n.closed n.stop_closed n.cancelled n.done n.messages_closed n.panicked

  -- The signals agree with the stage of Close.
  abbrev pub IsPhased : Notifier Entry → Type 0
  IsPhased n = Phased n n.worker

  abbrev IsPhased? : Option (Notifier Entry) → Type 0
  IsPhased? none = Unit
  IsPhased? (some n) = IsPhased n

  go_on :
      (n : Notifier Entry) (w w' : Worker)
      → is_leaving w ≡ is_leaving w'
      → is_exited w ≡ is_exited w'
      → is_absent w' ≡ false
      → Phased n w
      → Phased n w'
  go_on n w w' =
      carries n.closing w w' n.closed n.stop_closed n.cancelled n.done n.messages_closed n.panicked

  no_room-IsPhased :
      (msg : Text) (n : Notifier Entry)
      → IsPhased n
      → IsPhased (
          if n.closed
          then record n { dropped = n.dropped ++ msg ∷ [] }
          else record n { dropped = n.dropped ++ msg ∷ []; done = false })
  no_room-IsPhased msg n h =
      if-cases IsPhased n.closed _ _ (λ _. h)
        λ c.
          resets n.closing n.worker n.closed n.stop_closed n.cancelled n.done n.messages_closed
            n.panicked c h

  send_message-IsPhased :
      (msg : Text) (n : Notifier Entry) → IsPhased n → IsPhased (send_message msg n)
  unfolding send_message
  send_message-IsPhased msg n h =
      if-cases IsPhased n.messages_closed _ _
        (λ c.
          panics n.closing n.worker n.closed n.stop_closed n.cancelled n.done n.messages_closed
            n.panicked c h)
        λ c.
          if-keeps IsPhased (ltb (length n.messages) message_channel_buffer_size) _ _ h
            (no_room-IsPhased msg n h)

  send_entries-IsPhased :
      (msg : Text) (n : Notifier Entry)
      → IsPhased n
      → IsPhased (if is_empty msg then n else send_message msg n)
  send_entries-IsPhased msg n h =
      if-keeps IsPhased (is_empty msg) _ _ h (send_message-IsPhased msg n h)

  take_idle-IsPhased :
      (delayed : Bool) (n : Notifier Entry) (ms : List Text)
      → Phased n idle
      → IsPhased? (take_idle delayed n ms)
  take_idle-IsPhased delayed n [] h = tt
  take_idle-IsPhased true n (m ∷ ms) h = go_on n idle (delaying m) refl refl refl h
  take_idle-IsPhased false n (m ∷ ms) h = go_on n idle (sending false m) refl refl refl h

  take_draining-IsPhased :
      (n : Notifier Entry) (ms : List Text) → Phased n draining → IsPhased? (take_draining n ms)
  take_draining-IsPhased n [] h =
      drained n.closing n.closed n.stop_closed n.cancelled n.done n.messages_closed n.panicked h
  take_draining-IsPhased n (m ∷ ms) h = go_on n draining (sending true m) refl refl refl h

  when_cancelled-IsPhased :
      (n : Notifier Entry) (w : Worker) (given_up : Option Text)
      → Phased n w
      → IsPhased? (when_cancelled n.cancelled n given_up)
  when_cancelled-IsPhased n w given_up h = go n.cancelled refl
    where
      go : (b : Bool) → n.cancelled ≡ b → IsPhased? (when_cancelled b n given_up)
      go true c =
          cancels n.closing w given_up n.closed n.stop_closed n.cancelled n.done n.messages_closed
            n.panicked c h
      go false c = tt

  see_stop-IsPhased :
      (n : Notifier Entry)
      → Phased n idle
      → IsPhased? (if n.stop_closed then some (record n { worker = draining }) else none)
  see_stop-IsPhased n h =
      if-cases IsPhased? n.stop_closed _ _
        (λ c.
          stops n.closing n.closed n.stop_closed n.cancelled n.done n.messages_closed n.panicked c
            h)
        (λ _. tt)

  send_notifications-IsPhased :
      (delayed : Bool) (w : Work) (n : Notifier Entry) (worker : Worker)
      → Phased n worker
      → IsPhased? (send_notifications delayed w n worker)
  unfolding send_notifications
  send_notifications-IsPhased delayed take n idle h = take_idle-IsPhased delayed n n.messages h
  send_notifications-IsPhased delayed take n draining h = take_draining-IsPhased n n.messages h
  send_notifications-IsPhased delayed tick n (delaying m) h =
      go_on n (delaying m) (sending false m) refl refl refl h
  send_notifications-IsPhased delayed delivered n (sending true m) h =
      go_on n (sending true m) draining refl refl refl h
  send_notifications-IsPhased delayed delivered n (sending false m) h =
      go_on n (sending false m) idle refl refl refl h
  send_notifications-IsPhased delayed see_stop n idle h = see_stop-IsPhased n h
  send_notifications-IsPhased delayed see_cancel n idle h = when_cancelled-IsPhased n idle none h
  send_notifications-IsPhased delayed see_cancel n (delaying m) h =
      when_cancelled-IsPhased n (delaying m) (some m) h
  send_notifications-IsPhased delayed see_cancel n (sending b m) h =
      when_cancelled-IsPhased n (sending b m) (some m) h
  send_notifications-IsPhased delayed _ n worker h = tt

  add_log_hook-IsPhased :
      (n : Notifier Entry) (worker : Worker)
      → n.worker ≡ worker
      → IsPhased n
      → IsPhased (add_log_hook n worker)
  add_log_hook-IsPhased n absent e h =
      begins n.closing n.closed n.stop_closed n.cancelled n.done n.messages_closed n.panicked
        (subst (λ w. Phased n w) e h)
  add_log_hook-IsPhased n _ e h = h

  close_with :
      (n : Notifier Entry) (worker : Worker)
      → is_absent worker ≡ false
      → n.worker ≡ worker
      → n.closing ≡ unclosed
      → IsPhased n
      → IsPhased (record n { closed = true; stop_closed = true; closing = waiting })
  close_with n worker a e c h =
      leave n.closing n.worker n.closed n.stop_closed n.cancelled n.done n.messages_closed
        n.panicked (ap is_absent e ∙ a) c h

  close-IsPhased :
      (n : Notifier Entry) (c : Closing) (worker : Worker)
      → n.worker ≡ worker
      → n.closing ≡ c
      → IsPhased n
      → IsPhased? (close n c worker)
  close-IsPhased n unclosed absent e c h = tt
  close-IsPhased n unclosed worker e c h = close_with n worker refl e c h
  close-IsPhased n _ worker e c h = tt

  close_end-IsPhased : (n : Notifier Entry) (c : Closing) (d : Bool) → IsPhased? (close_end n c d)
  close_end-IsPhased n waiting true = tt
  close_end-IsPhased n _ d = tt

module _ {Entry Report : Type 0} (render : List Entry → Option Report → Text) (delayed : Bool) where
  flush-IsPhased :
      (es : List Entry) (suppress : Bool) (n : Notifier Entry)
      → IsPhased n
      → IsPhased (flush render delayed es suppress n)
  unfolding send_entries
  flush-IsPhased [] suppress n h = h
  flush-IsPhased (e ∷ es) true n h = h
  flush-IsPhased (e ∷ es) false n h = send_entries-IsPhased (render (e ∷ es) none) n h

  fired-IsPhased :
      (entry : Entry) (rest : ℕ) (queue : Option (List Entry)) (n : Notifier Entry)
      → IsPhased n
      → IsPhased (fired render delayed entry rest queue n)
  unfolding send_entries
  fired-IsPhased entry rest none n h =
      send_entries-IsPhased (render (entry ∷ []) none) (record n { firing = rest }) h
  fired-IsPhased entry rest (some es) n h = h

  enter-IsPhased :
      (entry : Entry) (firing : ℕ) (n : Notifier Entry)
      → IsPhased n
      → IsPhased? (enter render delayed entry firing n)
  enter-IsPhased entry zero n h = tt
  enter-IsPhased entry (suc rest) n h = fired-IsPhased entry rest n.entries n h

  step-IsPhased :
      (event : Event Entry Report) (n : Notifier Entry)
      → IsPhased n
      → IsPhased? (step render delayed event n)
  unfolding step start_notification send_notification send_entries
  step-IsPhased hooked n h = add_log_hook-IsPhased n n.worker refl h
  step-IsPhased checked n h = if-keeps IsPhased n.closed _ _ h h
  step-IsPhased (entered entry) n h = enter-IsPhased entry n.firing n h
  step-IsPhased (started b) n h = flush-IsPhased (queued n.entries) b n h
  step-IsPhased (notified r) n h =
      send_entries-IsPhased (render (queued n.entries) r) (record n { entries = none }) h
  step-IsPhased emptied n h = h
  step-IsPhased (filtered es r) n h = send_entries-IsPhased (render es r) n h
  step-IsPhased (work w) n h = send_notifications-IsPhased delayed w n n.worker h
  step-IsPhased closing n h = close-IsPhased n n.closing n.worker refl refl h
  step-IsPhased closed n h = close_end-IsPhased n n.closing n.done

  pub Reached-IsPhased : (n : Notifier Entry) → Reached render delayed n → IsPhased n
  Reached-IsPhased _ created = (refl, refl, refl, refl, refl, refl)
  Reached-IsPhased _ (moved {n} event alive e before) =
      subst IsPhased? e (step-IsPhased event n (Reached-IsPhased n before))
