-- ===== src/Services/Tests.antt =====
-- The labels of lists and mappings, and a device with permissions.
use aether_supervisor.Prelude.{codes, none, [], ◌∷◌, ◌≡◌, refl}
use aether_supervisor.Container.Identifier.{
  get_project_name, get_service_name, get_container_number,
}
use aether_supervisor.Services.Identity.{service_labels_identity}
use aether_supervisor.Services.{
  ServiceSpec, AppSpec, service_labels, labels_to_map, devices_to_mappings,
}

listed :
    labels_to_map (record { mapping = []; items = codes "a=b=c" ∷ codes "d" ∷ codes "a=e" ∷ [] })
    ≡ (codes "a", codes "e") ∷ (codes "d", []) ∷ []
unfolding labels_to_map
listed = refl

device :
    devices_to_mappings (codes "/dev/a:/dev/b:rw" ∷ [])
    ≡ record {
      path_on_host = codes "/dev/a";
      path_in_container = codes "/dev/b";
      cgroup_permissions = codes "rw";
    }
      ∷ []
unfolding devices_to_mappings
device = refl

-- A label of the spec that claims another project is overridden.
abbrev foreign : ServiceSpec
foreign = record {
  container_name = [];
  labels = record { mapping = []; items = codes "com.docker.compose.project=other" ∷ [] };
  depends_on = record { names = codes "db" ∷ []; values = [] };
}

abbrev shop : AppSpec
shop = record { name = codes "shop"; networks = [] }

service_labels_identity_example :
    (get_project_name (service_labels (λ _. none) shop (codes "web") foreign) ≡ codes "shop")
    × (get_service_name (service_labels (λ _. none) shop (codes "web") foreign) ≡ codes "web")
    × (get_container_number (service_labels (λ _. none) shop (codes "web") foreign) ≡ codes "1")
service_labels_identity_example = service_labels_identity (λ _. none) shop (codes "web") foreign
