-- ===== src/Cleanup/Removes.antt =====
-- How the excess instances are removed, one after the other, with up to three tries each.
use aether_supervisor.Prelude.{
  Text, ℕ, zero, suc, true, false, Option, none, some, List, [], ◌∷◌, ◌≡◌, refl, ◌⊎◌, inl, inr,
  Option-cases, Bool-cases, ap,
}
use aether_supervisor.Container.Data.{Container}
use aether_supervisor.Container.Client.{Client, StopError, parent}
use aether_supervisor.Cleanup.Removal.{
  Attempt, removed, gone, given_up, interrupted, max_removal_attempts, attempt_removal,
}

pub Attempt-cases :
    (a : Attempt)
    → (a ≡ removed) ⊎ ((a ≡ gone) ⊎ ((a ≡ given_up) ⊎ ((cause : Text) × (a ≡ interrupted cause))))
Attempt-cases removed = inl refl
Attempt-cases gone = inr (inl refl)
Attempt-cases given_up = inr (inr (inl refl))
Attempt-cases (interrupted cause) = inr (inr (inr (cause, refl)))

module _ {W : Type 0} (client : Client W) (retry_delay : W → Option Text × W) where
  -- Up to three stops of a container: one succeeds or finds it gone, each fails, or the wait between
  -- two is cancelled.
  pub data Tries (c : Container) : ℕ → W → Attempt → W → Type 0 where
    stopped :
        {n : ℕ} {w w' : W}
        → client.stop_and_remove_container parent c w ≡ (none, w')
        → Tries c (suc n) w removed w'
    missing :
        {n : ℕ} {w w' : W} (failure : StopError)
        → client.stop_and_remove_container parent c w ≡ (some failure, w')
        → failure.is_not_found ≡ true
        → Tries c (suc n) w gone w'
    last :
        {w w' : W} (failure : StopError)
        → client.stop_and_remove_container parent c w ≡ (some failure, w')
        → failure.is_not_found ≡ false
        → Tries c 1 w given_up w'
    aborted :
        {n : ℕ} {w w' w'' : W} (failure : StopError) (cause : Text)
        → client.stop_and_remove_container parent c w ≡ (some failure, w')
        → failure.is_not_found ≡ false
        → retry_delay w' ≡ (some cause, w'')
        → Tries c (suc (suc n)) w (interrupted cause) w''
    again :
        {n : ℕ} {a : Attempt} {w w' w'' end : W} (failure : StopError)
        → client.stop_and_remove_container parent c w ≡ (some failure, w')
        → failure.is_not_found ≡ false
        → retry_delay w' ≡ (none, w'')
        → Tries c (suc n) w'' a end
        → Tries c (suc (suc n)) w a end

  -- The removal of one container after the other, with how many were removed or gone, how many
  -- were given up, and the cancellation that ended it.
  pub data Removes : List Container → W → (done failed : ℕ) → Option Text → W → Type 0 where
    all_done : {w : W} → Removes [] w 0 0 none w
    one_removed :
        {c : Container} {cs : List Container} {w w' end : W} {done failed : ℕ} {stop : Option Text}
        → Tries c max_removal_attempts w removed w'
        → Removes cs w' done failed stop end
        → Removes (c ∷ cs) w (suc done) failed stop end
    one_gone :
        {c : Container} {cs : List Container} {w w' end : W} {done failed : ℕ} {stop : Option Text}
        → Tries c max_removal_attempts w gone w'
        → Removes cs w' done failed stop end
        → Removes (c ∷ cs) w (suc done) failed stop end
    one_failed :
        {c : Container} {cs : List Container} {w w' end : W} {done failed : ℕ} {stop : Option Text}
        → Tries c max_removal_attempts w given_up w'
        → Removes cs w' done failed stop end
        → Removes (c ∷ cs) w done (suc failed) stop end
    halted :
        {c : Container} {cs : List Container} {w w' : W} {cause : Text}
        → Tries c max_removal_attempts w (interrupted cause) w'
        → Removes (c ∷ cs) w 0 0 (some cause) w'

  pub attempt_removal_lem :
      (n : ℕ) (c : Container) (w : W)
      → let (a, w') = attempt_removal client retry_delay (suc n) c w in Tries c (suc n) w a w'
  unfolding attempt_removal
  attempt_removal_lem zero c w =
      let (failed, w') = client.stop_and_remove_container parent c w in
      elim (Option-cases failed) [
        | inl e ↦ rw (attempt_removal, e) (stopped (ap (λ o. (o, w')) e))
        | inr (failure, e) ↦ elim (Bool-cases failure.is_not_found) [
          | inl f ↦ rw (attempt_removal, e, f) (missing failure (ap (λ o. (o, w')) e) f)
          | inr f ↦ rw (attempt_removal, e, f) (last failure (ap (λ o. (o, w')) e) f)
        ]
      ]
  attempt_removal_lem (suc n) c w =
      let (failed, w') = client.stop_and_remove_container parent c w in
      elim (Option-cases failed) [
        | inl e ↦ rw (attempt_removal, e) (stopped (ap (λ o. (o, w')) e))
        | inr (failure, e) ↦ elim (Bool-cases failure.is_not_found) [
          | inl f ↦ rw (attempt_removal, e, f) (missing failure (ap (λ o. (o, w')) e) f)
          | inr f ↦ elim (Option-cases (retry_delay w').0) [
            | inl g ↦
                rw (attempt_removal, e, f, g)
                  (again failure (ap (λ o. (o, w')) e) f (ap (λ o. (o, (retry_delay w').1)) g)
                    (attempt_removal_lem n c (retry_delay w').1))
            | inr (cause, g) ↦
                rw (attempt_removal, e, f, g)
                  (aborted failure cause (ap (λ o. (o, w')) e) f
                    (ap (λ o. (o, (retry_delay w').1)) g))
          ]
        ]
      ]
