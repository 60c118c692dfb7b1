-- ===== src/Update/Stop/Accounting.antt =====
-- What stopContainersInReversedOrder returns for each of its containers.
use aether_supervisor.Prelude.{
  Text, codes, Assoc, lookup, insert, lookup-insert, text_eq_refl, is_some, true, Option, none,
  some, List, [], ◌∷◌, ◌++◌, reverse, ◌≡◌, refl, ◌⊎◌, inl, inr, All, All-mem, Memᴰ, Option-cases,
  arith,
}
use mathlib.Core.List.{reverse_aux}
use mathlib.Core.List.Memᴰ.{not-nil, cases_cons}
use aether_supervisor.Container.Data.{Container, id}
use aether_supervisor.Container.Labels.{UpdateParams}
use aether_supervisor.Container.Client.{Client}
use aether_supervisor.Update.Stop.{
  caused, removed_image_info, fail_all, Stopped, stop_stale_container, record_stop, stop_each,
  stop_containers_in_reversed_order,
}

-- An entry for the ID.
abbrev pub HasError : Assoc Text → Text → Type 0
HasError failed k = is_some (lookup k failed) ≡ true

-- The container is among the failures or among the stopped.
abbrev pub Accounted : Stopped → Container → Type 0
Accounted s c = HasError s.failed (id c) ⊎ Memᴰ (removed_image_info c) s.stopped

insert-HasError :
    (j k : Text) (e : Text) (failed : Assoc Text)
    → HasError failed k
    → HasError (insert j e failed) k
insert-HasError j k e failed h = ground (arith, lookup-insert j k e failed)

insert-HasError_same : (k e : Text) (failed : Assoc Text) → HasError (insert k e failed) k
insert-HasError_same k e failed = ground (arith, lookup-insert k k e failed, text_eq_refl k)

fail_all-HasError :
    (cause : Text) (cs : List Container) (failed : Assoc Text) (k : Text)
    → HasError failed k
    → HasError (fail_all cause cs failed) k
unfolding fail_all
fail_all-HasError cause [] failed k h = h
fail_all-HasError cause (c ∷ cs) failed k h =
    fail_all-HasError cause cs (insert (id c) cause failed) k
      (insert-HasError (id c) k cause failed h)

-- Every container of the list has an entry.
pub fail_all_lem :
    (cause : Text) (cs : List Container) (failed : Assoc Text)
    → All (λ c. HasError (fail_all cause cs failed) (id c)) cs
unfolding fail_all
fail_all_lem cause [] failed = tt
fail_all_lem cause (c ∷ cs) failed = (
  fail_all-HasError cause cs (insert (id c) cause failed) (id c)
      (insert-HasError_same (id c) cause failed),
  fail_all_lem cause cs (insert (id c) cause failed),
)

mem-end : {A : Type 0} (a : A) (xs : List A) → Memᴰ a (xs ++ a ∷ [])
mem-end a [] = Memᴰ.head refl
mem-end a (x ∷ xs) = Memᴰ.tail (mem-end a xs)

mem-append : {A : Type 0} {a : A} {xs : List A} (ys : List A) → Memᴰ a xs → Memᴰ a (xs ++ ys)
mem-append ys (Memᴰ.head e) = Memᴰ.head e
mem-append ys (Memᴰ.tail m) = Memᴰ.tail (mem-append ys m)

mem-reverse_aux :
    {A : Type 0} {a : A} (xs acc : List A) → Memᴰ a xs ⊎ Memᴰ a acc → Memᴰ a (reverse_aux xs acc)
mem-reverse_aux [] acc (inl m) = absurd (not-nil m)
mem-reverse_aux [] acc (inr m) = m
mem-reverse_aux (x ∷ xs) acc (inl (Memᴰ.head e)) = mem-reverse_aux xs (x ∷ acc) (inr (Memᴰ.head e))
mem-reverse_aux (x ∷ xs) acc (inl (Memᴰ.tail m)) = mem-reverse_aux xs (x ∷ acc) (inl m)
mem-reverse_aux (x ∷ xs) acc (inr m) = mem-reverse_aux xs (x ∷ acc) (inr (Memᴰ.tail m))

mem-reverse : {A : Type 0} {a : A} (xs : List A) → Memᴰ a xs → Memᴰ a (reverse xs)
mem-reverse xs m = mem-reverse_aux xs [] (inl m)

record_stop-Accounted :
    (c d : Container) (e : Option Text) (s : Stopped)
    → Accounted s d
    → Accounted (record_stop c e s) d
unfolding record_stop
record_stop-Accounted c d (some cause) s (inl h) =
    inl (insert-HasError (id c) (id d) cause s.failed h)
record_stop-Accounted c d (some cause) s (inr m) = inr m
record_stop-Accounted c d none s (inl h) = inl h
record_stop-Accounted c d none s (inr m) = inr (mem-append _ m)

record_stop_lem : (c : Container) (e : Option Text) (s : Stopped) → Accounted (record_stop c e s) c
unfolding record_stop
record_stop_lem c (some cause) s = inl (insert-HasError_same (id c) cause s.failed)
record_stop_lem c none s = inr (mem-end (removed_image_info c) s.stopped)

fail-Accounted :
    (cause : Text) (cs : List Container) (s : Stopped) (d : Container)
    → Accounted s d
    → Accounted (record s { failed = fail_all cause cs s.failed }) d
fail-Accounted cause cs s d (inl h) = inl (fail_all-HasError cause cs s.failed (id d) h)
fail-Accounted cause cs s d (inr m) = inr m

module _ {W : Type 0} (client : Client W) (config : UpdateParams) where
  stop_each-Accounted :
      (cs : List Container) (s : Stopped) (w : W) (d : Container)
      → Accounted s d
      → Accounted (stop_each client config cs s w).0 d
  unfolding stop_each
  stop_each-Accounted [] s w d h = h
  stop_each-Accounted (c ∷ cs) s w d h = elim (Option-cases (client.context_error w).0) [
    | inr (e, f) ↦
        rw (stop_each, f) (fail-Accounted (caused (codes "stop skipped") e) (c ∷ cs) s d h)
    | inl f ↦ rw (stop_each, f) (stop_each-Accounted cs _ _ d (record_stop-Accounted c d _ s h))
  ]

  stop_each_lem :
      (cs : List Container) (s : Stopped) (w : W) (d : Container)
      → Memᴰ d cs
      → Accounted (stop_each client config cs s w).0 d
  unfolding stop_each
  stop_each_lem [] s w d m = absurd (not-nil m)
  stop_each_lem (c ∷ cs) s w d m = elim (Option-cases (client.context_error w).0) [
    | inr (e, f) ↦
        rw (stop_each, f)
          (inl (
            All-mem (λ c'. HasError _ (id c')) m
              (fail_all_lem (caused (codes "stop skipped") e) (c ∷ cs) s.failed)))
    | inl f ↦
        let (e, w') = stop_stale_container client config c (client.context_error w).1 in
        let s' = record_stop c e s in
        let here : (d ≡ c) → Accounted s' d = λ same. rw same (record_stop_lem c e s) in
        rw (stop_each, f)
          (elim (cases_cons m) [
            | inl same ↦ stop_each-Accounted cs s' w' d (here same)
            | inr rest ↦ stop_each_lem cs s' w' d rest
          ])
  ]

  -- Every container is entered as a failure under its ID, or its image as stopped, whatever the
  -- client answers and when the run is cancelled.
  pub stop_containers_in_reversed_order_lem :
      (cs : List Container) (w : W) (c : Container)
      → Memᴰ c cs
      → Accounted (stop_containers_in_reversed_order client config cs w).0 c
  unfolding stop_containers_in_reversed_order
  stop_containers_in_reversed_order_lem cs w c m =
      stop_each_lem (reverse cs) (record { failed = []; stopped = [] }) w c (mem-reverse cs m)
