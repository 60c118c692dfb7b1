-- ===== src/Cleanup/Handover.antt =====
-- What an instance removes that was started in a self-update: those whose IDs are in the chain that
-- restartStaleContainer of internal/actions/update.go writes to its labels.
use aether_supervisor.Prelude.{
  Text, any, text_eq, text_eq_iff, Bool-cases, ◌⊎◌, lookup-insert, split, split-append, split-whole,
  contains_byte, Bool, true, false, Option, none, some, List, [], ◌∷◌, ◌++◌, ◌≡◌, ◌≢◌, refl, ap,
  ◌∙◌, Memᴰ, inl, inr, arith,
}
use aether_supervisor.Container.Data.{Container, id}
use aether_supervisor.Container.Hooks.{container_chain_label, get_container_chain}
use aether_supervisor.Container.Labels.{get_raw_label_value}
use aether_supervisor.Update.Restart.{extended, new_chain, with_chain}
use aether_supervisor.Cleanup.Excess.{container_chain, chain_ids, get_excess_containers}
use aether_supervisor.Cleanup.Excess.Selection.{Holds, get_excess_containers_lem}

get_container_chain-with_chain :
    (c : Container) → get_container_chain (with_chain c) ≡ some (new_chain c)
unfolding get_container_chain get_raw_label_value
get_container_chain-with_chain c =
    lookup-insert container_chain_label container_chain_label (new_chain c) c.container_info.labels

chain_ids-extended :
    (o : Option Text) (i : Text)
    → i ≢ []
    → contains_byte i b',' ≡ false
    → chain_ids (some (extended o i)) ≡ chain_ids o ++ i ∷ []
chain_ids-extended none [] filled plain = absurd (filled refl)
chain_ids-extended none (x ∷ xs) filled plain = split-whole (x ∷ xs) b',' plain
chain_ids-extended (some []) [] filled plain = absurd (filled refl)
chain_ids-extended (some []) (x ∷ xs) filled plain = split-whole (x ∷ xs) b',' plain
chain_ids-extended (some (x ∷ xs)) i filled plain =
    split-append (x ∷ xs) i b','
    ∙ ap (λ (ids : List Text). split (x ∷ xs) b',' ++ ids) (split-whole i b',' plain)

-- The chain that a self-update writes reads as the chain of the old instance with its ID at the end,
-- if the ID is not empty and has no comma.
pub container_chain-with_chain :
    (c : Container)
    → id c ≢ []
    → contains_byte (id c) b',' ≡ false
    → container_chain (with_chain c) ≡ container_chain c ++ id c ∷ []
unfolding container_chain new_chain
container_chain-with_chain c filled plain =
    ap chain_ids (get_container_chain-with_chain c)
    ∙ chain_ids-extended (get_container_chain c) (id c) filled plain

ne-text_eq : (a b : Text) → a ≢ b → text_eq a b ≡ false
ne-text_eq a b h = elim (Bool-cases (text_eq a b)) [
  | inl e ↦ absurd (h ((text_eq_iff a b).0 e))
  | inr e ↦ e
]

any-append :
    (p : Text → Bool) (xs : List Text) (x : Text)
    → (p x ≡ true) ⊎ (any p xs ≡ true)
    → any p (xs ++ x ∷ []) ≡ true
any-append p [] x (inl h) = ground arith
any-append p [] x (inr h) = absurd (cc)
any-append p (y ∷ ys) x (inl h) = elim (Bool-cases (p y)) [
  | inl e ↦ rw e refl
  | inr e ↦ rw e (any-append p ys x (inl h))
]
any-append p (y ∷ ys) x (inr h) = elim (Bool-cases (p y)) [
  | inl e ↦ rw e refl
  | inr e ↦ rw e (any-append p ys x (inr (rw e at h)))
]

-- An instance that was started with the labels that a self-update of an old instance writes, under
-- an ID of its own, removes the old instance, and every container of the old instance's chain that
-- is there. The IDs of containers are not empty and have no comma.
pub get_excess_containers-with_chain :
    (scope : Text) (old current : Container) (all_containers : List Container) (c : Container)
    → id old ≢ []
    → contains_byte (id old) b',' ≡ false
    → get_container_chain current ≡ get_container_chain (with_chain old)
    → Memᴰ c all_containers
    → id c ≢ id current
    → (id c ≡ id old) ⊎ (any (text_eq (id c)) (container_chain old) ≡ true)
    → Holds (get_excess_containers scope (some current) all_containers) (id c)
unfolding container_chain
get_excess_containers-with_chain scope old current all_containers c filled plain chain i other why =
    let parts : container_chain current ≡ container_chain old ++ id old ∷ [] =
      ap chain_ids chain ∙ container_chain-with_chain old filled plain in
    let found : any (text_eq (id c)) (container_chain current) ≡ true =
      ap (any (text_eq (id c))) parts
      ∙ any-append (text_eq (id c)) (container_chain old) (id old)
          (elim why [ inl e ↦ inl ((text_eq_iff (id c) (id old)).1 e) | inr h ↦ inr h ]) in
    (get_excess_containers_lem scope current all_containers c).1 i
      (ne-text_eq (id c) (id current) other, inr found)
