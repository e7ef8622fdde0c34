-- ===== src/Shared/Run.antt =====
-- What a piece of Go code does: it returns, it panics, or (a value of the model only) its loop ran
-- out of fuel.
use mathlib.Core.Path.{◌≡◌, refl}
use mathlib.Core.Logic.{◌≢◌}

pub data Run {ℓ} (A : Type ℓ) : Type ℓ where
  returns : A → Run A
  panic : Run A
  stuck : Run A

infixl 5 ◌>>=◌
abbrev pub ◌>>=◌ {ℓ κ} : {A : Type ℓ} {B : Type κ} → Run A → (A → Run B) → Run B
returns a >>= f = f a
panic >>= f = panic
stuck >>= f = stuck

pub bind-ne-stuck {ℓ κ} :
    {A : Type ℓ} {B : Type κ} (m : Run A) (f : A → Run B)
    → m ≢ stuck
    → ((a : A) → f a ≢ stuck)
    → (m >>= f) ≢ stuck
bind-ne-stuck (returns a) f hm hf = hf a
bind-ne-stuck panic f hm hf = λ e. cc
bind-ne-stuck stuck f hm hf = absurd (hm refl)

pub >>=-ap {ℓ κ} :
    {A : Type ℓ} {B : Type κ} (m : Run A) (f g : A → Run B)
    → ((a : A) → f a ≡ g a)
    → (m >>= f) ≡ (m >>= g)
>>=-ap (returns a) f g h = h a
>>=-ap panic f g h = refl
>>=-ap stuck f g h = refl
