-- ===== src/Common/Options.antt =====
-- Chains of calls that may fail.
use mathlib.Core.Path.{◌≡◌, refl, ap, ◌∙◌}
use mathlib.Core.Option.{Option, none, some}

infixl 5 ◌>>=◌
abbrev pub ◌>>=◌ : {A B : Type 0} → Option A → (A → Option B) → Option B
none >>= f = none
some a >>= f = f a

-- What a chain that returned has gone through.
pub >>=-eq-some :
    {A B : Type 0} (m : Option A) (f : A → Option B) {b : B}
    → (m >>= f) ≡ some b
    → (a : A) × (m ≡ some a) × (f a ≡ some b)
>>=-eq-some none f h = cc
>>=-eq-some (some a) f h = (a, refl, h)

-- A chain whose first call returned goes on with its result.
pub >>=-some :
    {A B : Type 0} {m : Option A} (f : A → Option B) {a : A} {r : Option B}
    → m ≡ some a
    → f a ≡ r
    → (m >>= f) ≡ r
>>=-some f e h = ap (λ o. o >>= f) e ∙ h

pub >>=-none : {A B : Type 0} {m : Option A} (f : A → Option B) → m ≡ none → (m >>= f) ≡ none
>>=-none f e = ap (λ o. o >>= f) e

pub >>=-congr :
    {A B : Type 0} (m : Option A) {f g : A → Option B}
    → ((a : A) → f a ≡ g a)
    → (m >>= f) ≡ (m >>= g)
>>=-congr none h = refl
>>=-congr (some a) h = h a

pub >>=_assoc :
    {A B C : Type 0} (m : Option A) (f : A → Option B) (g : B → Option C)
    → (m >>= f >>= g) ≡ (m >>= λ a. f a >>= g)
>>=_assoc none f g = refl
>>=_assoc (some a) f g = refl
