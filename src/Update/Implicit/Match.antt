-- ===== src/Update/Implicit/Match.antt =====
-- What an identifier that the search for a restarting link returns has to do with the link.
use aether_supervisor.Prelude.{
  Text, Assoc, text_eq, contains, split, Bool, true, false, ◌&&◌, none, some, List, [], ◌∷◌,
  if◌then◌else◌, ◌≡◌, ◌≢◌, ◌⊎◌, inl, inr, All, refl, sym, subst, arith, Memᴰ, Bool-cases,
  Option-cases,
}
use aether_supervisor.Container.Data.{Container}
use aether_supervisor.Container.Identifier.{is_empty}
use aether_supervisor.Update.Implicit.{
  is_marked, project_of, project_service_match, service_match, nonempty, match_parts, match_link,
  linked_identifier_marked_for_restart,
}

-- The service that a link names: what stands behind its only dash, or the link.
abbrev pub service_in : Text → List Text → Text
service_in link (_ ∷ next ∷ []) = next
service_in link _ = link

abbrev pub service_of : Text → Text
service_of link = service_in link (split link b'-')

abbrev pub Mentions : Text → Text → Type 0
Mentions link identifier = (identifier ≡ link) ⊎ (contains identifier (service_of link) ≡ true)

some_injective : {i j : Text} → some i ≡ some j → i ≡ j
some_injective e = cc

some_ne_none : {i : Text} → some i ≡ none → ⊥
some_ne_none e = cc

both : {b : Bool} → b ≡ false → b ≡ true → ⊥
both f g = cc

module _ (names : Assoc Container) (restarting : Assoc Bool) where
  project_service_match_lem :
      (link_project service_name identifier : Text) (ids : List Text)
      → project_service_match names restarting link_project service_name ids ≡ some identifier
      → (is_marked restarting identifier ≡ true) × (contains identifier service_name ≡ true)
  unfolding project_service_match
  project_service_match_lem p s identifier [] e = absurd (cc)
  project_service_match_lem p s identifier (i ∷ ids) e =
      ground (arith, project_service_match_lem p s identifier ids)

  -- The fallback of the loop: none yet, or a marked name that contains the link.
  abbrev IsFallback : Text → Text → Type 0
  IsFallback link [] = Unit
  IsFallback link (c ∷ cs) =
      (is_marked restarting (c ∷ cs) ≡ true) × (contains (c ∷ cs) link ≡ true)

  IsMatch : Text → Text → Type 0
  IsMatch part identifier =
      (is_marked restarting identifier ≡ true) × (contains identifier part ≡ true)

  is_match : (link i : Text) → (is_marked restarting i && contains i link) ≡ true → IsMatch link i
  unfolding IsMatch
  is_match link i h = ground arith

  fallback_lem :
      (link identifier cross : Text)
      → IsFallback link cross
      → nonempty cross ≡ some identifier
      → IsMatch link identifier
  unfolding IsMatch
  fallback_lem link identifier [] f e = absurd (cc)
  fallback_lem link identifier (c ∷ cs) f e = subst (IsMatch link) (some_injective e) f

  first-IsFallback :
      (link identifier cross : Text)
      → IsFallback link cross
      → IsMatch link identifier
      → IsFallback link (if is_empty cross then identifier else cross)
  unfolding IsMatch
  first-IsFallback link [] [] f m = tt
  first-IsFallback link (c ∷ cs) [] f m = m
  first-IsFallback link identifier (c ∷ cs) f m = f

  service_match_lem :
      (link project identifier cross : Text) (ids : List Text)
      → IsFallback link cross
      → service_match names restarting link project cross ids ≡ some identifier
      → IsMatch link identifier
  unfolding service_match
  service_match_lem link project identifier cross [] f e = fallback_lem link identifier cross f e
  service_match_lem link project identifier cross (i ∷ ids) f e =
      elim (Bool-cases (is_marked restarting i && contains i link)) [
        | inr other ↦ service_match_lem link project identifier cross ids f (rw other at e)
        | inl found ↦
            let m : IsMatch link i = is_match link i found in
            elim (Bool-cases (text_eq (project_of names i) project)) [
              | inl same ↦ subst (IsMatch link) (some_injective (rw (found, same) at e)) m
              | inr other ↦
                  service_match_lem link project identifier _ ids
                    (first-IsFallback link i cross f m) (rw (found, other) at e)
            ]
      ]

  match_parts_lem :
      (project link identifier : Text) (parts : List Text)
      → match_parts names restarting project link parts ≡ some identifier
      → IsMatch (service_in link parts) identifier
  unfolding match_parts IsMatch
  match_parts_lem project link i [] e = service_match_lem link project i [] _ tt e
  match_parts_lem project link i (p ∷ []) e = service_match_lem link project i [] _ tt e
  match_parts_lem project link i (p ∷ n ∷ []) e = project_service_match_lem p n i _ e
  match_parts_lem project link i (p ∷ n ∷ m ∷ r) e = service_match_lem link project i [] _ tt e

  -- What is found for a link is marked, and is the link or mentions its service.
  match_link_lem :
      (project link identifier : Text)
      → match_link names restarting project link ≡ some identifier
      → (is_marked restarting identifier ≡ true) × Mentions link identifier
  unfolding match_link IsMatch
  match_link_lem project link identifier e = elim (Bool-cases (is_marked restarting link)) [
    | inl marked ↦
        let same = some_injective (rw marked at e) in
        (subst (λ i. is_marked restarting i ≡ true) same marked, inl (sym same))
    | inr unmarked ↦
        let (marked, part) =
          match_parts_lem project link identifier (split link b'-') (rw unmarked at e) in
        (marked, inr part)
  ]

  unmatched :
      (project link : Text)
      → match_link names restarting project link ≡ none
      → is_marked restarting link ≡ false
  unfolding match_link
  unmatched project link e = elim (Bool-cases (is_marked restarting link)) [
    | inl marked ↦ absurd (some_ne_none (rw marked at e))
    | inr unmarked ↦ unmarked
  ]

  -- An identifier that is returned is marked, and mentions one of the links.
  pub linked_identifier_marked_lem :
      (project : Text) (links : List Text)
      → linked_identifier_marked_for_restart names restarting project links ≢ []
      → let identifier = linked_identifier_marked_for_restart names restarting project links in
        (is_marked restarting identifier ≡ true)
        × ((link : Text) × Memᴰ link links × Mentions link identifier)
  unfolding linked_identifier_marked_for_restart
  linked_identifier_marked_lem project [] h = absurd (h refl)
  linked_identifier_marked_lem project (link ∷ links) h =
      elim (Option-cases (match_link names restarting project link)) [
        | inl next ↦
            let (marked, (l, m, found)) =
              linked_identifier_marked_lem project links
                (rw (next, linked_identifier_marked_for_restart) at h) in
            rw (next, linked_identifier_marked_for_restart) (marked, (l, Memᴰ.tail m, found))
        | inr (identifier, e) ↦
            let (marked, found) = match_link_lem project link identifier e in
            rw (e, linked_identifier_marked_for_restart) (marked, (link, Memᴰ.head refl, found))
      ]

  -- Where nothing is returned, no link is itself the name of a marked container.
  pub unlinked_lem :
      (project : Text) (links : List Text)
      → is_marked restarting [] ≡ false
      → linked_identifier_marked_for_restart names restarting project links ≡ []
      → All (λ link. is_marked restarting link ≡ false) links
  unfolding linked_identifier_marked_for_restart
  unlinked_lem project [] named e = tt
  unlinked_lem project (link ∷ links) named e =
      elim (Option-cases (match_link names restarting project link)) [
        | inl next ↦ (
          unmatched project link next,
          unlinked_lem project links named (rw (next, linked_identifier_marked_for_restart) at e),
        )
        | inr (identifier, f) ↦
            let (marked, _) = match_link_lem project link identifier f in
            let empty : identifier ≡ [] = rw (f, linked_identifier_marked_for_restart) at e in
            absurd (both named (subst (λ i. is_marked restarting i ≡ true) empty marked))
      ]
