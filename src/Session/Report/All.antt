-- ===== src/Session/Report/All.antt =====
-- The list of all containers that a report gives (allFromSlices).
use mathlib.Core.List.Permᴰ
use aether_supervisor.Prelude.{
  Text, text_eq, text_eq_iff, text_order, any, Ascending, Distinct, sort_by-perm, sort_by-Ascending,
  append_assoc, ap, ◌∙◌, text_eq_refl, All-mem, All-append, Permᴰ-mem, Memᴰ, true, false, Option,
  none, some, is_some, List, [], ◌∷◌, ◌++◌, if◌then◌else◌, ◌≡◌, ◌≢◌, ◌↔◌, refl, arith, sym,
  Bool-cases, inl, inr,
}
use aether_supervisor.Session.Status.{ContainerStatus}
use aether_supervisor.Session.Report.{Report, append_unique, all_from_slices, sort_reports}

-- The first status with the ID.
abbrev pub first_with : Text → List ContainerStatus → Option ContainerStatus
first_with k [] = none
first_with k (u ∷ us) =
    let rest = first_with k us in if text_eq k u.container_id then some u else rest

abbrev pub or_else : Option ContainerStatus → Option ContainerStatus → Option ContainerStatus
or_else none o = o
or_else (some u) o = some u

first_with-append :
    (k : Text) (us vs : List ContainerStatus)
    → first_with k (us ++ vs) ≡ or_else (first_with k us) (first_with k vs)
first_with-append k [] vs = refl
first_with-append k (u ∷ us) vs = ground (arith, first_with-append k us vs)

-- What the closure keeps true: `present` holds the IDs of `all`, which has none twice.
record Tracks (s : List ContainerStatus × List Text) : Type 0 where
  present : (k : Text) → any (text_eq k) s.1 ≡ is_some (first_with k s.0)
  distinct : Distinct (λ u. u.container_id) s.0

first_with-none :
    (k : Text) (v : ContainerStatus) (us : List ContainerStatus)
    → first_with k (v ∷ us) ≡ none
    → (text_eq k v.container_id ≡ false) × (first_with k us ≡ none)
first_with-none k v us h = ground arith

Distinct-snoc :
    (u : ContainerStatus) (us : List ContainerStatus)
    → first_with u.container_id us ≡ none
    → Distinct (λ u. u.container_id) us
    → Distinct (λ u. u.container_id) (us ++ u ∷ [])
Distinct-snoc u [] new d = (tt, tt)
Distinct-snoc u (v ∷ us) new d =
    let (other, rest) = first_with-none u.container_id v us new in
    (
      All-append (λ y. v.container_id ≢ y.container_id) us (u ∷ []) d.0
          ((λ e. cc (other, (text_eq_iff u.container_id v.container_id).1 (sym e))), tt),
      Distinct-snoc u us rest d.1,
    )

Tracks-append :
    (u : ContainerStatus) (s : List ContainerStatus × List Text)
    → any (text_eq u.container_id) s.1 ≡ false
    → Tracks s
    → Tracks (s.0 ++ u ∷ [], u.container_id ∷ s.1)
Tracks-append u (us, ks) new h = record {
  present = λ k. ground (arith, h.present k, first_with-append k us (u ∷ []));
  distinct = Distinct-snoc u us (ground (arith, h.present u.container_id)) h.distinct;
}

module _ (r : ContainerStatus) (rs us : List ContainerStatus) (ks : List Text) where
  append_unique-old :
      any (text_eq r.container_id) ks ≡ true
      → append_unique (r ∷ rs) (us, ks) ≡ append_unique rs (us, ks)
  unfolding append_unique
  append_unique-old old = rw old

  append_unique-new :
      any (text_eq r.container_id) ks ≡ false
      → append_unique (r ∷ rs) (us, ks) ≡ append_unique rs (us ++ r ∷ [], r.container_id ∷ ks)
  unfolding append_unique
  append_unique-new new = rw new

append_unique-Tracks :
    (rs : List ContainerStatus) (s : List ContainerStatus × List Text)
    → Tracks s
    → Tracks (append_unique rs s)
append_unique-Tracks [] s h = unfold append_unique in h
append_unique-Tracks (r ∷ rs) (us, ks) h = elim (Bool-cases (any (text_eq r.container_id) ks)) [
  | inl old ↦ rw (append_unique-old r rs us ks old) (append_unique-Tracks rs (us, ks) h)
  | inr new ↦
      rw (append_unique-new r rs us ks new) (
        append_unique-Tracks rs (us ++ r ∷ [], r.container_id ∷ ks)
          (Tracks-append r (us, ks) new h))
]

-- The loop adds what it meets first under each ID.
first_with-append_unique :
    (k : Text) (rs : List ContainerStatus) (s : List ContainerStatus × List Text)
    → Tracks s
    → first_with k (append_unique rs s).0 ≡ or_else (first_with k s.0) (first_with k rs)
first_with-append_unique k [] s h = unfold append_unique in ground arith
first_with-append_unique k (r ∷ rs) (us, ks) h =
    elim (Bool-cases (any (text_eq r.container_id) ks)) [
      | inl old ↦
          ap (λ (s : List ContainerStatus × List Text). first_with k s.0)
            (append_unique-old r rs us ks old)
          ∙ ground (
            arith,
            first_with-append_unique k rs (us, ks) h,
            h.present k,
            text_eq_iff k r.container_id,
          )
      | inr new ↦
          ap (λ (s : List ContainerStatus × List Text). first_with k s.0)
            (append_unique-new r rs us ks new)
          ∙ ground (
            arith,
            first_with-append k us (r ∷ []),
            first_with-append_unique k rs (us ++ r ∷ [], r.container_id ∷ ks)
                (Tracks-append r (us, ks) new h),
          )
    ]

append_unique-append :
    (rs ss : List ContainerStatus) (s : List ContainerStatus × List Text)
    → append_unique ss (append_unique rs s) ≡ append_unique (rs ++ ss) s
unfolding append_unique
append_unique-append [] ss s = refl
append_unique-append (r ∷ rs) ss (us, ks) = append_unique-append rs ss _

pub mem_of_first_with :
    (k : Text) (us : List ContainerStatus) {u : ContainerStatus}
    → first_with k us ≡ some u
    → Memᴰ u us × (u.container_id ≡ k)
mem_of_first_with k [] h = absurd (cc)
mem_of_first_with k (v ∷ us) {u} h = elim (Bool-cases (text_eq k v.container_id)) [
  | inl same ↦
      let e : v ≡ u = ground arith in
      (Memᴰ.head (sym e), rw (← e) (sym ((text_eq_iff k v.container_id).0 same)))
  | inr other ↦ let (m, e) = mem_of_first_with k us {u = u} (ground arith) in (Memᴰ.tail m, e)
]

pub first_with_of_mem :
    (us : List ContainerStatus) {u : ContainerStatus}
    → Distinct (λ u. u.container_id) us
    → Memᴰ u us
    → first_with u.container_id us ≡ some u
first_with_of_mem [] d m = elim m [ ]
first_with_of_mem (v ∷ us) d (Memᴰ.head e) = ground (arith, text_eq_refl v.container_id)
first_with_of_mem (v ∷ us) {u} d (Memᴰ.tail m) = ground (
  arith,
  first_with_of_mem us d.1 m,
  text_eq_iff u.container_id v.container_id,
  All-mem (λ y. v.container_id ≢ y.container_id) m d.0,
)

-- The slices in the order of their priority.
abbrev pub by_priority : Report → List ContainerStatus
by_priority r =
    r.updated ++ (r.restarted ++ (r.failed ++ (r.skipped ++ (r.stale ++ (r.fresh ++ r.scanned)))))

abbrev uniques : Report → List ContainerStatus × List Text
uniques r = append_unique (by_priority r) ([], [])

all_from_slices-eq : (r : Report) → all_from_slices r ≡ sort_reports (uniques r).0
unfolding all_from_slices
all_from_slices-eq r = simp (append_unique-append, append_assoc)

-- The list of all containers is in ascending order of the IDs, so no ID is there twice, and it
-- holds exactly the statuses that come first under their ID in the slices by priority: updated,
-- restarted, failed, skipped, stale, fresh, scanned.
pub all_from_slices_lem :
    (r : Report)
    → Ascending text_order (λ u. u.container_id) (all_from_slices r)
      × ((u : ContainerStatus)
          → Memᴰ u (all_from_slices r) ↔ (first_with u.container_id (by_priority r) ≡ some u))
all_from_slices_lem r =
    let rs = by_priority r in
    let start : Tracks ([], []) = record { present = λ k. refl; distinct = tt } in
    let d = (append_unique-Tracks rs ([], []) start).distinct in
    let p = sort_by-perm text_order (λ u. u.container_id) (uniques r).0 in
    let first =
      λ (u : ContainerStatus). first_with-append_unique u.container_id rs ([], []) start in
    rw (all_from_slices-eq r) (
      sort_by-Ascending text_order (λ u. u.container_id) (uniques r).0 d,
      λ u. (
        λ m. sym (first u) ∙ first_with_of_mem (uniques r).0 d (Permᴰ-mem p m),
        λ e.
            Permᴰ-mem (Permᴰ.symm p)
              (mem_of_first_with u.container_id (uniques r).0 (first u ∙ e)).0,
      ),
    )
