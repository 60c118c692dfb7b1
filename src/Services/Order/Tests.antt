-- ===== src/Services/Order/Tests.antt =====
-- Services in the order of their dependencies, a circle, and a dependency that is no service.
use aether_supervisor.Prelude.{Text, Assoc, codes, some, List, inl, inr, [], ◌∷◌, ◌≡◌, refl}
use aether_supervisor.Services.{ServiceSpec}
use aether_supervisor.Services.Order.{circular, ordered_service_names}
use aether_supervisor.Services.Order.Total.{IsAnswer, ordered_service_names_lem}

abbrev needs : List Text → ServiceSpec
needs names = record {
  container_name = [];
  labels = record { mapping = []; items = [] };
  depends_on = record { names = names; values = [] };
}

abbrev shop : Assoc ServiceSpec
shop =
    (codes "api", needs (codes "db" ∷ codes "cache" ∷ []))
    ∷ (codes "db", needs [])
    ∷ (codes "web", needs (codes "api" ∷ []))
    ∷ []

abbrev circle : Assoc ServiceSpec
circle = (codes "a", needs (codes "b" ∷ [])) ∷ (codes "b", needs (codes "a" ∷ [])) ∷ []

shop_order : ordered_service_names shop ≡ some (inr (codes "db" ∷ codes "api" ∷ codes "web" ∷ []))
unfolding ordered_service_names
shop_order = refl

circle_error : ordered_service_names circle ≡ some (inl (circular (codes "a")))
unfolding ordered_service_names
circle_error = refl

ordered_service_names_lem_example : IsAnswer shop (ordered_service_names shop)
ordered_service_names_lem_example = ordered_service_names_lem shop
