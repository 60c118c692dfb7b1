-- ===== src/Sorter/Errors.antt =====
-- The texts of the errors of pkg/sorter/errors.go.
use aether_supervisor.Prelude.{join, Text, codes, [], ◌∷◌, ◌++◌, map}
use aether_supervisor.Container.Data.{id, name}
use aether_supervisor.Container.ShortId.{short_id}
use aether_supervisor.Sorter.Graph.{SortError, identifier_collision, circular_reference}

unfoldable pub sort_error_text : SortError → Text
unfolding short_id
sort_error_text (circular_reference container_name []) =
    codes "circular reference detected: " ++ container_name
sort_error_text (circular_reference container_name (first ∷ path)) =
    codes "circular reference detected: " ++ join (codes " -> ") (first ∷ path)
sort_error_text (identifier_collision identifier affected) =
    codes "identifier collision detected: '"
    ++ identifier
    ++ codes "' used by containers: "
    ++ join (codes ", ") (map (λ c. name c ++ codes " (" ++ short_id (id c) ++ codes ")") affected)
