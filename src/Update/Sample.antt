-- ===== src/Update/Sample.antt =====
-- Containers and a client for the tests. The client counts the stops, finds every container stale,
-- and nothing fails.
use aether_supervisor.Prelude.{
  Text, text_eq, if◌then◌else◌, ℕ, suc, Assoc, pos, codes, Bool, true, false, none, some, List, [],
  ◌∷◌,
}
use aether_supervisor.Container.Data.{Container, ContainerInfo, new_container, set_stale, id}
use aether_supervisor.Container.Labels.{UpdateParams, watchtower_label}
use aether_supervisor.Container.Client.{Client, Result, ok, err}

abbrev pub info : Text → Text → Assoc Text → ContainerInfo
info container_id container_name labels = record {
  id = container_id;
  name = container_name;
  image = codes "image:1";
  labels = labels;
  host_config = some (record { links = []; network_container = none });
  state = none;
  stop_signal = [];
  stop_timeout = none;
}

abbrev pub web : Container
web = new_container (info (codes "1") (codes "/web") []) (some (codes "sha256:old"))

abbrev pub database : Container
database = new_container (info (codes "2") (codes "/db") []) (some (codes "sha256:old-db"))

abbrev pub stale_database : Container
stale_database = set_stale true database

-- An instance of the program.
abbrev pub instance_named : Text → Assoc Text → Container
instance_named container_id labels =
    new_container
      (info container_id (codes "/watchtower") ((watchtower_label, codes "true") ∷ labels))
      (some (codes "sha256:self"))

abbrev pub no_params : UpdateParams
no_params = record {
  filter = none;
  cleanup = true;
  lifecycle_hooks = false;
  rolling_restart = false;
  pull_failure_delay = 0;
  lifecycle_uid = pos 0;
  lifecycle_gid = pos 0;
  no_restart = false;
  monitor_only = false;
  no_pull = false;
  label_precedence = false;
  run_once = false;
  skip_self_update = false;
  current_container_id = [];
}

abbrev pub counting : Client ℕ
counting = record {
  context_error = λ w. (none, w);
  list_containers = λ filter w. (ok (web ∷ database ∷ []), w);
  get_container = λ ctx container_id w. (err (codes "no such container"), w);
  stop_and_remove_container = λ ctx c w. (none, suc w);
  start_container = λ ctx c w. (ok (codes "new"), w);
  rename_container = λ ctx c new_name w. (none, w);
  update_container = λ ctx c policy w. (none, w);
  is_container_stale = λ ctx c params w. ((true, codes "sha256:new", none), w);
  execute_command = λ ctx c command timeout uid gid w. (ok false, w);
  wait_for_container_healthy = λ ctx container_id timeout w. (none, w);
  remove_image_by_id = λ ctx image_id image_name w. (none, w);
}

-- No image is pinned.
abbrev pub not_pinned : Text → Result Bool
not_pinned reference = ok false

-- The web server links to the database.
abbrev pub links_of : Container → List Text
links_of c = if text_eq (id c) (codes "1") then codes "db" ∷ [] else []
