-- ===== src/Services/Identity.antt =====
-- What the other components read from the labels of a service's container.
use aether_supervisor.Prelude.{
  Text, Assoc, lookup, insert, lookup-insert, codes, text_eq, if◌then◌else◌, [], ◌∷◌, Option, some,
  none, ap, false, ◌≡◌, refl, ◌∙◌,
}
use aether_supervisor.Container.Identifier.{
  is_empty, compose_project_label, compose_service_label, compose_container_number,
  compose_depends_on_label, get_project_name, get_service_name, get_container_number,
}
use aether_supervisor.Services.{
  Any, AppSpec, ServiceSpec, service_labels, labels_to_map, depends_on_value,
}

-- The labels with the identity written to them
module _ (m : Assoc Text) (project service number : Text) where
  abbrev identified : Assoc Text
  identified =
      insert compose_container_number number
        (insert compose_service_label service (insert compose_project_label project m))

  lookup-project : lookup compose_project_label identified ≡ some project
  lookup-project =
      rw
        (
          lookup-insert compose_container_number compose_project_label number
              (insert compose_service_label service (insert compose_project_label project m)),
          lookup-insert compose_service_label compose_project_label service
              (insert compose_project_label project m),
          lookup-insert compose_project_label compose_project_label project m,
        )
        refl

  lookup-service : lookup compose_service_label identified ≡ some service
  lookup-service =
      rw
        (
          lookup-insert compose_container_number compose_service_label number
              (insert compose_service_label service (insert compose_project_label project m)),
          lookup-insert compose_service_label compose_service_label service
              (insert compose_project_label project m),
        )
        refl

  lookup-number : lookup compose_container_number identified ≡ some number
  lookup-number =
      rw
        (lookup-insert compose_container_number compose_container_number number
          (insert compose_service_label service (insert compose_project_label project m)))
        refl

abbrev or_empty : Option Text → Text
or_empty o = elim o [ none ↦ [] | some v ↦ v ]

-- The label of the dependencies hides no other one.
lookup-depends_on :
    (j d : Text) (m : Assoc Text)
    → text_eq compose_depends_on_label j ≡ false
    → lookup j (if is_empty d then m else insert compose_depends_on_label d m) ≡ lookup j m
lookup-depends_on j [] m h = refl
lookup-depends_on j (c ∷ d) m h = rw (lookup-insert compose_depends_on_label j (c ∷ d) m, h) refl

module _ (marshal : Assoc (Assoc Any) → Option Text) (app : AppSpec) (service : Text)
    (spec : ServiceSpec) where
  abbrev written : Assoc Text
  written = identified (labels_to_map spec.labels) app.name service (codes "1")

  service_labels-lookup :
      (j : Text)
      → text_eq compose_depends_on_label j ≡ false
      → lookup j (service_labels marshal app service spec) ≡ lookup j written
  unfolding service_labels
  service_labels-lookup j h =
      lookup-depends_on j (depends_on_value marshal spec.depends_on) written h

  -- From the labels of a service's container the project, the service and the container number
  -- read as the application's name, the service's name and 1, whatever labels and dependencies the
  -- service declares.
  pub service_labels_identity :
      (get_project_name (service_labels marshal app service spec) ≡ app.name)
      × (get_service_name (service_labels marshal app service spec) ≡ service)
      × (get_container_number (service_labels marshal app service spec) ≡ codes "1")
  unfolding get_project_name get_service_name get_container_number
  service_labels_identity =
      let ms = labels_to_map spec.labels in
      (
        ap or_empty (
            service_labels-lookup compose_project_label refl
            ∙ lookup-project ms app.name service (codes "1")),
        ap or_empty (
            service_labels-lookup compose_service_label refl
            ∙ lookup-service ms app.name service (codes "1")),
        ap or_empty (
            service_labels-lookup compose_container_number refl
            ∙ lookup-number ms app.name service (codes "1")),
      )
