-- ===== src/Cleanup/Tests.antt =====
-- The handover from an instance of the program to the next.
use aether_supervisor.Prelude.{
  codes, text_eq_iff, true, some, List, [], ◌∷◌, ◌++◌, ◌≡◌, ◌≢◌, inl, refl, none, Memᴰ,
}
use aether_supervisor.Container.Data.{Container, id, new_container}
use aether_supervisor.Container.Labels.{get_raw_label_value}
use aether_supervisor.Container.Hooks.{get_container_chain, container_chain_label}
use aether_supervisor.Update.Sample.{web, counting, instance_named}
use aether_supervisor.Update.Restart.{new_chain, with_chain}
use aether_supervisor.Cleanup.Excess.{container_chain, get_excess_containers}
use aether_supervisor.Cleanup.Excess.Selection.{Holds, IsExcess, get_excess_containers_lem}
use aether_supervisor.Cleanup.Handover.{
  container_chain-with_chain, get_excess_containers-with_chain,
}
use aether_supervisor.Cleanup.Removal.{remove_excess_containers}
use aether_supervisor.Cleanup.Counts.{IsTold, remove_excess_containers_lem}

abbrev old : Container
old = instance_named (codes "7") ((container_chain_label, codes "5,6") ∷ [])

abbrev current : Container
current = instance_named (codes "8") ((container_chain_label, codes "5,6,7") ∷ [])

abbrev listed : List Container
listed = web ∷ old ∷ current ∷ []

get_excess_containers_lem_example :
    (Memᴰ old (get_excess_containers [] (some current) listed)
      → Memᴰ old listed × IsExcess [] current old)
    × (Memᴰ old listed
        → IsExcess [] current old
        → Holds (get_excess_containers [] (some current) listed) (id old))
get_excess_containers_lem_example = get_excess_containers_lem [] current listed old

old_filled : id old ≢ []
unfolding new_container
old_filled e = cc

container_chain-with_chain_example :
    container_chain (with_chain old) ≡ container_chain old ++ codes "7" ∷ []
unfolding new_container
container_chain-with_chain_example = container_chain-with_chain old old_filled refl

same_chain : get_container_chain current ≡ get_container_chain (with_chain old)
unfolding get_container_chain new_container get_raw_label_value new_chain
same_chain = refl

other_id : id old ≢ id current
unfolding new_container
other_id e = cc ((text_eq_iff (id old) (id current)).1 e)

get_excess_containers-with_chain_example :
    Holds (get_excess_containers [] (some current) listed) (codes "7")
unfolding new_container
get_excess_containers-with_chain_example =
    get_excess_containers-with_chain [] old current listed old old_filled refl same_chain
      (Memᴰ.tail (Memᴰ.head refl)) other_id (inl refl)

remove_excess_containers_lem_example :
    IsTold counting
      (λ w. (none, w))
      (old ∷ [])
      0
      (remove_excess_containers counting (λ w. (none, w)) (old ∷ []) true (some current) none 0).0.0
remove_excess_containers_lem_example =
    remove_excess_containers_lem counting (λ w. (none, w)) (old ∷ []) true (some current) none 0
