-- ===== src/Util/Tests.antt =====
-- Slices and maps with a common element.
use aether_supervisor.Prelude.{Text, Assoc, codes, text_eq_iff, List, [], ◌∷◌, ◌≢◌}

abbrev few : List Text
few = codes "a" ∷ codes "b" ∷ []

abbrev labels : Assoc Text
labels = (codes "a", codes "1") ∷ (codes "b", codes "2") ∷ []

abbrev image_labels : Assoc Text
image_labels = (codes "a", codes "1") ∷ (codes "b", codes "3") ∷ []

a_ne_b : codes "a" ≢ codes "b"
a_ne_b e = cc ((text_eq_iff (codes "a") (codes "b")).1 e)
