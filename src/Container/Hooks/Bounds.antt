-- ===== src/Container/Hooks/Bounds.antt =====
-- The range of the IDs that the lifecycle labels give, and the short form of a digest.
use aether_supervisor.Prelude.{
  Text, ℕ, ℤ, pos, negsuc, atoi, lookup, leb, codes, take, length, none, some, Option-cases, ◌++◌,
  ◌≡◌, refl, ap, ◌≤◌, Bool-cases, inl, inr, arith, ◌∙◌,
}
use aether_supervisor.Container.Data.{Container}
use aether_supervisor.Container.Labels.{get_raw_label_value}
use aether_supervisor.Container.Hooks.{get_lifecycle_id, id_in_range, max_reasonable_id}
use aether_supervisor.Container.ShortId.{short_id}

none-ne-some : {A : Type 0} {a : A} → none ≡ some a → ⊥
none-ne-some e = cc

some-injective : {a b : ℤ} → some a ≡ some b → b ≡ a
some-injective e = cc

id_in_range_lem :
    (parsed i : ℤ)
    → id_in_range parsed ≡ some i
    → (n : ℕ) × (parsed ≡ pos n) × (i ≡ pos n) × (n ≤ max_reasonable_id)
id_in_range_lem (negsuc n) i e = absurd (cc)
id_in_range_lem (pos n) i e = elim (Bool-cases (leb n max_reasonable_id)) [
  | inl h ↦ (n, refl, some-injective (rw h at e), ground arith)
  | inr h ↦ absurd (none-ne-some (rw h at e))
]

-- An ID that a lifecycle label gives is the number that its value denotes, at least 0 and at most
-- 2147483647.
pub get_lifecycle_id_lem :
    (c : Container) (label : Text) (i : ℤ)
    → get_lifecycle_id c label ≡ some i
    → (raw : Text) × (n : ℕ) × (lookup label c.container_info.labels ≡ some raw)
      × (atoi raw ≡ some (pos n))
      × (i ≡ pos n)
      × (n ≤ max_reasonable_id)
unfolding get_lifecycle_id get_raw_label_value
get_lifecycle_id_lem c label i e = elim (Option-cases (lookup label c.container_info.labels)) [
  | inl l ↦ absurd (none-ne-some (rw (get_lifecycle_id, l) at e))
  | inr (raw, l) ↦ elim (Option-cases (atoi raw)) [
    | inl p ↦ absurd (none-ne-some (rw (get_lifecycle_id, l, p) at e))
    | inr (parsed, p) ↦
        let (n, f, g, h) = id_in_range_lem parsed i (rw (get_lifecycle_id, l, p) at e) in
        (raw, n, l, p ∙ ap (λ (z : ℤ). some z) f, g, h)
  ]
]

-- The short form of a digest of SHA-256 is its first twelve digits.
short_id-digest :
    (digest : Text) → 12 ≤ length digest → short_id (codes "sha256:" ++ digest) ≡ take 12 digest
unfolding short_id
short_id-digest digest h = ground arith
