-- ===== src/Notify/Once.antt =====
-- How often sendSplitNotifications tells of a container.
use aether_supervisor.Prelude.{
  Text, any, text_eq, text_eq_iff, text_eq_refl, trim_space, Bool, true, false, ◌||◌, not, List, [],
  ◌∷◌, ◌++◌, ◌≡◌, ◌≢◌, refl, sym, subst, ◌∙◌, ◌⊎◌, inl, inr, All, All-append, Distinct, Memᴰ,
  Bool-cases, arith,
}
use mathlib.Core.List.Memᴰ.{not-nil, cases_cons}
use aether_supervisor.Container.Identifier.{is_empty}
use aether_supervisor.Session.Status.{ContainerStatus}
use aether_supervisor.Session.Report.{Report}
use aether_supervisor.Update.Stop.{RemovedImageInfo}
use aether_supervisor.Notify.{
  Call, Notices, report_of, update_call, restart_call, build_single_container_report,
  build_single_restarted_container_report, notify, notify_each, send_split_notifications,
}

-- The ID of the first container of a list, if there is one.
abbrev pub first_id : List ContainerStatus → Text → Text
first_id [] other = other
first_id (u ∷ us) other = u.container_id

-- The container that a call tells of.
abbrev pub subject : Call → Text
subject call = first_id (report_of call).updated (first_id (report_of call).restarted [])

-- A call tells of the container.
abbrev pub IsTold : List Call → Text → Type 0
IsTold calls k = (call : Call) × Memᴰ call calls × (subject call ≡ k)

IsTold-append :
    (calls : List Call) (call : Call) (k : Text) → IsTold calls k → IsTold (calls ++ call ∷ []) k
IsTold-append [] call k (c, m, e) = absurd (not-nil m)
IsTold-append (d ∷ calls) call k (c, m, e) = elim (cases_cons m) [
  | inl same ↦ (c, Memᴰ.head same, e)
  | inr rest ↦ let (c', m', e') = IsTold-append calls call k (c, rest, e) in (c', Memᴰ.tail m', e')
]

IsTold-end : (calls : List Call) (call : Call) → IsTold (calls ++ call ∷ []) (subject call)
IsTold-end [] call = (call, Memᴰ.head refl, refl)
IsTold-end (d ∷ calls) call = let (c, m, e) = IsTold-end calls call in (c, Memᴰ.tail m, e)

append-Distinct :
    (calls : List Call) (call : Call)
    → All (λ d. subject d ≢ subject call) calls
    → Distinct subject calls
    → Distinct subject (calls ++ call ∷ [])
append-Distinct [] call h d = (tt, tt)
append-Distinct (c ∷ calls) call h d = (
  All-append (λ e. subject c ≢ subject e) calls (call ∷ []) d.0 (h.0, tt),
  append-Distinct calls call h.1 d.1,
)

-- The calls tell of exactly the containers of the map, each once.
record IsOnce (n : Notices) : Type 0 where
  once : Distinct subject n.calls
  known : All (λ c. any (text_eq (subject c)) n.notified ≡ true) n.calls
  told : (k : Text) → any (text_eq k) n.notified ≡ true → IsTold n.calls k

unknown :
    (k : Text) (ids : List Text) (calls : List Call)
    → any (text_eq k) ids ≡ false
    → All (λ c. any (text_eq (subject c)) ids ≡ true) calls
    → All (λ c. subject c ≢ k) calls
unknown k ids [] h a = tt
unknown k ids (c ∷ calls) h a = ((λ e. true-ne-false (sym a.0 ∙ rw e h)), unknown k ids calls h a.1)
  where
    true-ne-false : true ≡ false → ⊥
    true-ne-false e = cc

still_known :
    (k : Text) (ids : List Text) (calls : List Call)
    → All (λ c. any (text_eq (subject c)) ids ≡ true) calls
    → All (λ c. any (text_eq (subject c)) (k ∷ ids) ≡ true) calls
still_known k ids [] a = tt
still_known k ids (c ∷ calls) a = (ground (arith, a.0), still_known k ids calls a.1)

tell-IsOnce :
    (call : Call) (n : Notices)
    → any (text_eq (subject call)) n.notified ≡ false
    → IsOnce n
    → IsOnce (record { notified = subject call ∷ n.notified; calls = n.calls ++ call ∷ [] })
tell-IsOnce call n h o = record {
  once = append-Distinct n.calls call (unknown (subject call) n.notified n.calls h o.known) o.once;
  known =
      All-append (λ c. any (text_eq (subject c)) (subject call ∷ n.notified) ≡ true) n.calls
        (call ∷ []) (still_known (subject call) n.notified n.calls o.known)
        (ground (arith, text_eq_refl (subject call)), tt);
  told = λ k i. elim (Bool-cases (text_eq k (subject call))) [
    | inl e ↦
        let (c, m, f) = IsTold-end n.calls call in
        (c, m, f ∙ sym ((text_eq_iff k (subject call)).0 e))
    | inr e ↦ IsTold-append n.calls call k (o.told k (rw e at i))
  ];
}

or-false : (a b : Bool) → (a || b) ≡ false → (a ≡ false) × (b ≡ false)
or-false true b h = absurd (cc)
or-false false b h = (refl, h)

module _ (should_send : Report → Bool) where
  module _ (call : ContainerStatus → Call) (selected : ContainerStatus → Bool) where
    notify-notified :
        (u : ContainerStatus) (n : Notices) (k : Text)
        → any (text_eq k) n.notified ≡ true
        → any (text_eq k) (notify should_send call selected u n).notified ≡ true
    unfolding notify
    notify-notified u n k h =
        elim (Bool-cases (
          is_empty (trim_space u.container_name)
          || (not (selected u) || any (text_eq u.container_id) n.notified))) [
            | inl e ↦ rw e h
            | inr e ↦ rw e (ground (arith, h))
          ]

    notify_lem :
        (u : ContainerStatus) (n : Notices)
        → is_empty (trim_space u.container_name) ≡ false
        → selected u ≡ true
        → any (text_eq u.container_id) (notify should_send call selected u n).notified ≡ true
    unfolding notify
    notify_lem u n filled chosen = elim (Bool-cases (any (text_eq u.container_id) n.notified)) [
      | inl e ↦ rw (filled, chosen, e) e
      | inr e ↦ rw (filled, chosen, e) (ground (arith, text_eq_refl u.container_id))
    ]

    notify_each-notified :
        (us : List ContainerStatus) (n : Notices) (k : Text)
        → any (text_eq k) n.notified ≡ true
        → any (text_eq k) (notify_each should_send call selected us n).notified ≡ true
    unfolding notify_each
    notify_each-notified [] n k h = h
    notify_each-notified (u ∷ us) n k h = notify_each-notified us _ k (notify-notified u n k h)

    notify_each_lem :
        (us : List ContainerStatus) (n : Notices) (u : ContainerStatus)
        → Memᴰ u us
        → is_empty (trim_space u.container_name) ≡ false
        → selected u ≡ true
        → any (text_eq u.container_id) (notify_each should_send call selected us n).notified ≡ true
    unfolding notify_each
    notify_each_lem [] n u m filled chosen = absurd (not-nil m)
    notify_each_lem (v ∷ us) n u m filled chosen = elim (cases_cons m) [
      | inr rest ↦ notify_each_lem us _ u rest filled chosen
      | inl same ↦ notify_each-notified us _ u.container_id (
          subst
            (λ x.
              any (text_eq u.container_id) (notify should_send call selected x n).notified ≡ true)
            same (notify_lem u n filled chosen))
    ]

    module _ (sends : (r : Report) → should_send r ≡ true)
        (about : (u : ContainerStatus) → subject (call u) ≡ u.container_id) where
      notify-IsOnce :
          (u : ContainerStatus) (n : Notices)
          → IsOnce n
          → IsOnce (notify should_send call selected u n)
      unfolding notify
      notify-IsOnce u n o =
          elim (Bool-cases (
            is_empty (trim_space u.container_name)
            || (not (selected u) || any (text_eq u.container_id) n.notified))) [
              | inl e ↦ rw e o
              | inr e ↦
                  let (_, unheard) =
                    or-false (not (selected u)) _
                      (or-false (is_empty (trim_space u.container_name)) _ e).1 in
                  rw (e, sends (report_of (call u)))
                    (subst
                      (λ k.
                        IsOnce
                          (record { notified = k ∷ n.notified; calls = n.calls ++ call u ∷ [] }))
                      (about u) (tell-IsOnce (call u) n (rw (about u) unheard) o))
            ]

      notify_each-IsOnce :
          (us : List ContainerStatus) (n : Notices)
          → IsOnce n
          → IsOnce (notify_each should_send call selected us n)
      unfolding notify_each
      notify_each-IsOnce [] n o = o
      notify_each-IsOnce (u ∷ us) n o = notify_each-IsOnce us _ (notify-IsOnce u n o)

module _ (as_report : Bool) (cleaned : List RemovedImageInfo) (result : Report) where
  update_call-subject :
      (u : ContainerStatus) → subject (update_call as_report cleaned result u) ≡ u.container_id
  unfolding build_single_container_report
  update_call-subject u = elim (Bool-cases as_report) [ inl e ↦ rw e refl | inr e ↦ rw e refl ]

  restart_call-subject :
      (u : ContainerStatus) → subject (restart_call as_report cleaned result u) ≡ u.container_id
  unfolding build_single_restarted_container_report
  restart_call-subject u = elim (Bool-cases as_report) [ inl e ↦ rw e refl | inr e ↦ rw e refl ]

  -- A container that is to be told of: updated, restarted, or stale and only monitored.
  abbrev pub IsNews : ContainerStatus → Type 0
  IsNews u =
      Memᴰ u result.updated
      ⊎ (Memᴰ u result.restarted ⊎ (Memᴰ u result.stale × (u.monitor_only ≡ true)))

  all-IsOnce :
      (should_send : Report → Bool)
      → ((r : Report) → should_send r ≡ true)
      → IsOnce (send_split_notifications should_send as_report result cleaned)
  unfolding send_split_notifications
  all-IsOnce should_send sends =
      let none_yet : Notices = record { notified = []; calls = [] } in
      let start : IsOnce none_yet = record { once = tt; known = tt; told = λ k e. absurd (cc) } in
      notify_each-IsOnce should_send (update_call as_report cleaned result) (λ u. u.monitor_only)
        sends update_call-subject result.stale _
        (notify_each-IsOnce should_send (restart_call as_report cleaned result) (λ u. true) sends
          restart_call-subject result.restarted _
          (notify_each-IsOnce should_send (update_call as_report cleaned result) (λ u. true) sends
            update_call-subject result.updated _ start))

  all-notified :
      (should_send : Report → Bool) (u : ContainerStatus)
      → IsNews u
      → is_empty (trim_space u.container_name) ≡ false
      → any
          (text_eq u.container_id)
          (send_split_notifications should_send as_report result cleaned).notified
        ≡ true
  unfolding send_split_notifications
  all-notified should_send u (inl m) filled =
      notify_each-notified should_send (update_call as_report cleaned result) (λ v. v.monitor_only)
        result.stale _ u.container_id
        (notify_each-notified should_send (restart_call as_report cleaned result) (λ v. true)
          result.restarted _ u.container_id
          (notify_each_lem should_send (update_call as_report cleaned result) (λ v. true)
            result.updated _ u m filled refl))
  all-notified should_send u (inr (inl m)) filled =
      notify_each-notified should_send (update_call as_report cleaned result) (λ v. v.monitor_only)
        result.stale _ u.container_id
        (notify_each_lem should_send (restart_call as_report cleaned result) (λ v. true)
          result.restarted _ u m filled refl)
  all-notified should_send u (inr (inr (m, monitored))) filled =
      notify_each_lem should_send (update_call as_report cleaned result) (λ v. v.monitor_only)
        result.stale _ u m filled monitored

  -- With a notifier that sends every report, the split notifications never tell twice of one
  -- container, and they tell of every container with a name that was updated or restarted, or is
  -- stale and only monitored.
  pub send_split_notifications_lem :
      (should_send : Report → Bool) (u : ContainerStatus)
      → ((r : Report) → should_send r ≡ true)
      → IsNews u
      → is_empty (trim_space u.container_name) ≡ false
      → Distinct subject (send_split_notifications should_send as_report result cleaned).calls
        × IsTold
            (send_split_notifications should_send as_report result cleaned).calls
            u.container_id
  send_split_notifications_lem should_send u sends news filled =
      let all = all-IsOnce should_send sends in
      (all.once, all.told u.container_id (all-notified should_send u news filled))
