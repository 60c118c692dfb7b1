-- ===== src/Notifier/Phases.antt =====
-- The signals that go with each stage of Close: its flags, the goroutine and the channel.
use aether_supervisor.Prelude.{
  Text, Bool, true, false, Option, none, ◌≡◌, refl, sym, ◌∙◌, if◌then◌else◌,
}
use aether_supervisor.Notifier.{
  Worker, absent, idle, sending, draining, exited, Closing, unclosed, waiting, ended,
}

abbrev pub is_absent : Worker → Bool
is_absent absent = true
is_absent _ = false

abbrev pub is_exited : Worker → Bool
is_exited (exited _) = true
is_exited _ = false

-- The goroutine has seen that it shall stop, or has ended.
abbrev pub is_leaving : Worker → Bool
is_leaving draining = true
is_leaving (sending drain _) = drain
is_leaving (exited _) = true
is_leaving _ = false

pub leaving-exited : (w : Worker) → is_leaving w ≡ false → is_exited w ≡ false
leaving-exited (exited m) e = absurd (cc)
leaving-exited _ e = refl

-- The signals that go with each stage of Close
abbrev pub Phase : Closing → Worker → Bool → Bool → Bool → Bool → Bool → Bool → Type 0
Phase unclosed w cl stop cancelled done messages panicked =
    (stop ≡ false)
    × (cancelled ≡ false)
    × (done ≡ false)
    × (messages ≡ false)
    × (panicked ≡ false)
    × (is_leaving w ≡ false)
Phase waiting w cl stop cancelled done messages panicked =
    (cl ≡ true)
    × (stop ≡ true)
    × (cancelled ≡ false)
    × (done ≡ is_exited w)
    × (messages ≡ false)
    × (panicked ≡ false)
    × (is_absent w ≡ false)
Phase ended w cl stop cancelled done messages panicked = Unit

pub panics :
    (c : Closing) (w : Worker) (cl st ca d mc p : Bool)
    → mc ≡ true
    → Phase c w cl st ca d mc p
    → Phase c w cl st ca d mc true
panics unclosed w cl st ca d mc p e (s, c, h, m, q, l) = absurd (cc)
panics waiting w cl st ca d mc p e (k, s, c, h, m, q, l) = absurd (cc)
panics ended w cl st ca d mc p e h = tt

pub resets :
    (c : Closing) (w : Worker) (cl st ca d mc p : Bool)
    → cl ≡ false
    → Phase c w cl st ca d mc p
    → Phase c w cl st ca false mc p
resets unclosed w cl st ca d mc p e (s, c, h, m, q, l) = (s, c, refl, m, q, l)
resets waiting w cl st ca d mc p e (k, s, c, h, m, q, l) = absurd (cc)
resets ended w cl st ca d mc p e h = tt

-- The goroutine goes on.
pub carries :
    (c : Closing) (w w' : Worker) (cl st ca d mc p : Bool)
    → is_leaving w ≡ is_leaving w'
    → is_exited w ≡ is_exited w'
    → is_absent w' ≡ false
    → Phase c w cl st ca d mc p
    → Phase c w' cl st ca d mc p
carries unclosed w w' cl st ca d mc p l e a (s, c, h, m, q, k) = (s, c, h, m, q, sym l ∙ k)
carries waiting w w' cl st ca d mc p l e a (k, s, c, h, m, q, _) = (k, s, c, h ∙ e, m, q, a)
carries ended w w' cl st ca d mc p l e a h = tt

pub begins :
    (c : Closing) (cl st ca d mc p : Bool)
    → Phase c absent cl st ca d mc p
    → Phase c idle cl st ca d mc p
begins unclosed cl st ca d mc p h = h
begins waiting cl st ca d mc p (k, s, c, h, m, q, a) = absurd (cc)
begins ended cl st ca d mc p h = tt

pub drained :
    (c : Closing) (cl st ca d mc p : Bool)
    → Phase c draining cl st ca d mc p
    → Phase c (exited none) cl st ca true mc p
drained unclosed cl st ca d mc p (s, c, h, m, q, l) = absurd (cc)
drained waiting cl st ca d mc p (k, s, c, h, m, q, a) = (k, s, c, refl, m, q, refl)
drained ended cl st ca d mc p h = tt

pub cancels :
    (c : Closing) (w : Worker) (given_up : Option Text) (cl st ca d mc p : Bool)
    → ca ≡ true
    → Phase c w cl st ca d mc p
    → Phase c (exited given_up) cl st ca true mc p
cancels unclosed w g cl st ca d mc p e (s, c, h, m, q, l) = absurd (cc)
cancels waiting w g cl st ca d mc p e (k, s, c, h, m, q, l) = absurd (cc)
cancels ended w g cl st ca d mc p e h = tt

pub stops :
    (c : Closing) (cl st ca d mc p : Bool)
    → st ≡ true
    → Phase c idle cl st ca d mc p
    → Phase c draining cl st ca d mc p
stops unclosed cl st ca d mc p e (s, c, h, m, q, l) = absurd (cc)
stops waiting cl st ca d mc p e (k, s, c, h, m, q, l) = (k, s, c, h, m, q, refl)
stops ended cl st ca d mc p e h = tt

pub leave :
    (c : Closing) (w : Worker) (cl st ca d mc p : Bool)
    → is_absent w ≡ false
    → c ≡ unclosed
    → Phase c w cl st ca d mc p
    → Phase waiting w true true ca d mc p
leave unclosed w cl st ca d mc p a e (s, c, h, m, q, l) =
    (refl, refl, c, h ∙ sym (leaving-exited w l), m, q, a)
leave waiting w cl st ca d mc p a e h = absurd (cc)
leave ended w cl st ca d mc p a e h = absurd (cc)

pub if-cases :
    {A : Type 0} (P : A → Type 0) (b : Bool) (x y : A)
    → (b ≡ true → P x)
    → (b ≡ false → P y)
    → P (if b then x else y)
if-cases P true x y p q = p refl
if-cases P false x y p q = q refl
