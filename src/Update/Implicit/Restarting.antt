-- ===== src/Update/Implicit/Restarting.antt =====
-- Why UpdateImplicitRestart marks a name.
use aether_supervisor.Prelude.{
  Text, text_eq, text_eq_iff, Assoc, insert, lookup, lookup-insert, Bool, true, false, ◌&&◌, not,
  Option, some, List, [], ◌∷◌, ◌≡◌, ◌⊎◌, inl, inr, All, refl, sym, ◌∙◌, subst, ap, arith, Memᴰ,
  Bool-cases, Option-cases, if◌then◌else◌, ℕ, zero, suc, length, All-of_mem, if-keeps,
}
use aether_supervisor.Container.Data.{Container, id, name, to_restart, set_linked_to_restarting}
use aether_supervisor.Container.Identifier.{is_empty}
use aether_supervisor.Update.Implicit.{
  is_marked, Scene, mark_linked, link_by_id, find_by_id, linked_identifier, mark_pass, mark_rounds,
  restart_by_name, update_implicit_restart,
}
use aether_supervisor.Update.Implicit.Match.{Mentions}
use aether_supervisor.Update.Implicit.Pass.{
  IsLinked, linked_identifier_lem, nonempty_found, unmarked_found, clash, linked_restarts,
}

inserted :
    (j k : Text) (b : Bool) (m : Assoc Bool)
    → is_marked (insert j b m) k ≡ true
    → ((j ≡ k) × (b ≡ true)) ⊎ (is_marked m k ≡ true)
inserted j k b m h = chosen (text_eq j k) refl (lookup-insert j k b m)
  where
    chosen :
        (t : Bool)
        → text_eq j k ≡ t
        → lookup k (insert j b m) ≡ (if text_eq j k then some b else lookup k m)
        → ((j ≡ k) × (b ≡ true)) ⊎ (is_marked m k ≡ true)
    chosen true e f = inl ((text_eq_iff j k).0 e, ground arith)
    chosen false e f = inr (ground arith)

-- A mark of the map of the names comes from a container.
restart_by_name-marked :
    (cs : List Container) (restarting : Assoc Bool) (k : Text)
    → is_marked (restart_by_name cs restarting) k ≡ true
    → (is_marked restarting k ≡ true)
      ⊎ ((c : Container) × Memᴰ c cs × (name c ≡ k) × (to_restart c ≡ true))
unfolding restart_by_name
restart_by_name-marked [] restarting k h = inl h
restart_by_name-marked (c ∷ cs) restarting k h =
    elim (restart_by_name-marked cs (insert (name c) (to_restart c) restarting) k h) [
      | inr (d, m, n, r) ↦ inr (d, Memᴰ.tail m, n, r)
      | inl old ↦ elim (inserted (name c) k (to_restart c) restarting old) [
        | inl (same, r) ↦ inr (c, Memᴰ.head refl, same, r)
        | inr marked ↦ inl marked
      ]
    ]

module _ (links : Container → List Text) (all_containers containers : List Container) where
  -- A name is that of a container that is to be restarted, or of one with the ID of a container of
  -- the run that has a link to such a name.
  pub data IsRestarting : Text → Type 0 where
    own : {c : Container} → Memᴰ c all_containers → to_restart c ≡ true → IsRestarting (name c)
    linked :
        {c ac : Container} {link identifier : Text}
        → Memᴰ c containers
        → to_restart c ≡ false
        → Memᴰ ac all_containers
        → id ac ≡ id c
        → Memᴰ link (links c)
        → Mentions link identifier
        → IsRestarting identifier
        → IsRestarting (name ac)

  -- The container has the name and the ID of one of all.
  abbrev IsKnown : Container → Type 0
  IsKnown ac =
      (original : Container) × Memᴰ original all_containers
      × (name original ≡ name ac)
      × (id original ≡ id ac)

  abbrev IsGrounded : Assoc Bool → Type 0
  IsGrounded restarting = (k : Text) → is_marked restarting k ≡ true → IsRestarting k

  abbrev pub IsJust : Scene → Type 0
  IsJust s = IsGrounded s.restarting × All IsKnown s.all_containers

  abbrev IsOriginal : Container → Type 0
  IsOriginal c = to_restart c ≡ false → Memᴰ c containers

  find_by_id-found :
      (wanted : Text) (acs : List Container) (ac : Container)
      → All IsKnown acs
      → find_by_id wanted acs ≡ some ac
      → IsKnown ac × (id ac ≡ wanted)
  unfolding find_by_id
  find_by_id-found wanted [] ac h e = absurd (cc)
  find_by_id-found wanted (a ∷ acs) ac h e = elim (Bool-cases (text_eq (id a) wanted)) [
    | inl same ↦
        let found : a ≡ ac = the_same (rw same at e) in
        (subst IsKnown found h.0, sym (ap id found) ∙ (text_eq_iff (id a) wanted).0 same)
    | inr other ↦ find_by_id-found wanted acs ac h.1 (rw other at e)
  ]
    where
      the_same : {x y : Container} → some x ≡ some y → x ≡ y
      the_same e = cc

  link_by_id-IsKnown :
      (wanted : Text) (acs : List Container) → All IsKnown acs → All IsKnown (link_by_id wanted acs)
  link_by_id-IsKnown wanted [] h = tt
  link_by_id-IsKnown wanted (a ∷ acs) h = (
    if-keeps IsKnown (text_eq (id a) wanted) (set_linked_to_restarting true a) a h.0 h.0,
    link_by_id-IsKnown wanted acs h.1,
  )

  mark_linked-IsJust :
      (c : Container) (s : Scene)
      → IsOriginal c
      → to_restart c ≡ false
      → IsLinked links s.restarting c
      → IsJust s
      → IsJust (mark_linked c s)
  unfolding mark_linked
  mark_linked-IsJust c s original r (i, marked, (link, l, mention)) (grounded, known) =
      elim (Option-cases (find_by_id (id c) s.all_containers)) [
        | inl e ↦ rw (mark_linked, e) (grounded, known)
        | inr (ac, e) ↦
            let ((o, m, n, o_id), ac_id) = find_by_id-found (id c) s.all_containers ac known e in
            rw (mark_linked, e)
              (
                λ k h. elim (inserted (name ac) k true s.restarting h) [
                  | inr before ↦ grounded k before
                  | inl (same, _) ↦
                      subst IsRestarting (n ∙ same)
                        (linked (original r) r m (o_id ∙ ac_id) l mention (grounded i marked))
                ],
                link_by_id-IsKnown (id c) s.all_containers known,
              )
      ]

  -- A pass keeps what the marks rest on, and the containers that it leaves are the original ones.
  mark_pass-IsJust :
      (cs : List Container) (s : Scene)
      → All IsOriginal cs
      → IsJust s
      → let (marked, end) = mark_pass links cs s in IsJust end × All IsOriginal marked
  unfolding mark_pass
  mark_pass-IsJust [] s o h = (h, tt)
  mark_pass-IsJust (c ∷ cs) s o h =
      elim (Bool-cases (not (to_restart c) && not (is_empty (linked_identifier links s c)))) [
        | inl found ↦
            let r = unmarked_found links c s found in
            let is_linked =
              linked_identifier_lem links s c (λ e. nonempty_found links c s found e) in
            let (just, originals) =
              mark_pass-IsJust cs (mark_linked c s) o.1
                (mark_linked-IsJust c s o.0 r is_linked h) in
            rw found (just, (λ e. absurd (clash e (linked_restarts c)), originals))
        | inr closed ↦
            let (just, originals) = mark_pass-IsJust cs s o.1 h in
            rw closed (just, (o.0, originals))
      ]

  mark_rounds-IsJust :
      (fuel : ℕ) (cs : List Container) (s : Scene) (marked : List Container) (end : Scene)
      → All IsOriginal cs
      → IsJust s
      → mark_rounds links fuel cs s ≡ some (marked, end)
      → IsJust end
  unfolding mark_rounds
  mark_rounds-IsJust zero cs s marked end o h e = absurd (cc)
  mark_rounds-IsJust (suc fuel) cs s marked end o h e =
      let calm = record s { changed = false } in
      let (next, after) = mark_pass links cs calm in
      let (just, originals) = mark_pass-IsJust cs calm o h in
      elim (Bool-cases after.changed) [
        | inl moved ↦
            mark_rounds-IsJust fuel next after marked end originals just
              (rw (mark_rounds, moved) at e)
        | inr still ↦ subst IsJust (the_end (rw (mark_rounds, still) at e)) just
      ]
    where
      the_end :
          {a b : List Container} {x y : Scene}
          → ◌≡◌ {A = Option (List Container × Scene)} (some (a, x)) (some (b, y))
          → x ≡ y
      the_end e = cc

-- Every name that is marked in the end is one of a container that is restarting.
pub update_implicit_restart-IsRestarting :
    (links : Container → List Text) (all_containers containers marked : List Container)
    (end : Scene)
    → update_implicit_restart links all_containers containers ≡ some (marked, end)
    → (k : Text) → is_marked end.restarting k ≡ true
    → IsRestarting links all_containers containers k
unfolding update_implicit_restart
update_implicit_restart-IsRestarting links all_containers containers marked end e =
    (mark_rounds-IsJust links all_containers containers (suc (length containers)) containers
      (record {
        all_containers = all_containers;
        restarting = restart_by_name all_containers [];
        changed = true;
      })
      marked end (All-of_mem _ containers (λ c m r. m))
      (grounded, All-of_mem _ all_containers (λ c m. (c, m, refl, refl))) e).0
  where
    grounded :
        (k : Text)
        → is_marked (restart_by_name all_containers []) k ≡ true
        → IsRestarting links all_containers containers k
    grounded k h = elim (restart_by_name-marked all_containers [] k h) [
      | inl never ↦ absurd (cc)
      | inr (c, m, n, r) ↦ subst (IsRestarting links all_containers containers) n (own m r)
    ]
