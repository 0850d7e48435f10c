-- ===== src/Base/Effects.antt =====
-- The outcome of code that reads and writes memory.
use mathlib.Core.Path.{◌≡◌, refl, subst}
use mathlib.Core.Logic.{◌≢◌}
use mathlib.Core.Option.{Option, none, some}

-- `fault` is an access outside an array or a mapped window, which C leaves undefined; `spent` is a
-- loop of the model that has run out of fuel.
pub data Run {ℓ} (A : Type ℓ) : Type ℓ where
  done : A → Run A
  fault spent : Run A

infixl 5 ◌>>=◌
abbrev pub ◌>>=◌ {ℓ κ} : {A : Type ℓ} {B : Type κ} → Run A → (A → Run B) → Run B
done a >>= f = f a
fault >>= f = fault
spent >>= f = spent

-- A read that may fall outside its array.
abbrev pub or_fault {ℓ} : {A : Type ℓ} → Option A → Run A
or_fault none = fault
or_fault (some a) = done a

pub >>=-assoc {ℓ κ μ} :
    {A : Type ℓ} {B : Type κ} {C : Type μ} (m : Run A) (f : A → Run B) (g : B → Run C)
    → (m >>= f >>= g) ≡ (m >>= λ a. f a >>= g)
>>=-assoc (done a) f g = refl
>>=-assoc fault f g = refl
>>=-assoc spent f g = refl

pub >>=-eq-done {ℓ κ} :
    {A : Type ℓ} {B : Type κ} (m : Run A) (f : A → Run B) {b : B}
    → (m >>= f) ≡ done b
    → (a : A) × (m ≡ done a) × (f a ≡ done b)
>>=-eq-done (done a) f h = (a, refl, h)
>>=-eq-done fault f h = cc
>>=-eq-done spent f h = cc

-- The run ends with a result that has `P`, or in a fault: it does not run out of fuel.
pub data Ends {ℓ κ} {A : Type ℓ} (P : A → Type κ) : Run A → Type (ℓ ⊔ κ) where
  ends : {a : A} → P a → Ends P (done a)
  faults : Ends P fault

pub Ends->>= {ℓ κ} :
    {A : Type ℓ} {B : Type κ} {P : A → Type 0} {Q : B → Type 0} {m : Run A} (f : A → Run B)
    → Ends P m
    → ((a : A) → P a → Ends Q (f a))
    → Ends Q (m >>= f)
Ends->>= f (ends {a} h) k = k a h
Ends->>= f faults k = faults

pub Ends-weaken {ℓ} :
    {A : Type ℓ} {P Q : A → Type 0} {m : Run A} → ((a : A) → P a → Q a) → Ends P m → Ends Q m
Ends-weaken k (ends {a} h) = ends (k a h)
Ends-weaken k faults = faults

pub Ends-done {ℓ} : {A : Type ℓ} {P : A → Type 0} {m : Run A} {a : A} → Ends P m → m ≡ done a → P a
Ends-done {P = P} {a = a} (ends {a = b} h) e = let same : b ≡ a = cc in subst P same h
Ends-done faults e = cc

pub Ends-ne-spent {ℓ} : {A : Type ℓ} {P : A → Type 0} {m : Run A} → Ends P m → m ≢ spent
Ends-ne-spent (ends h) e = cc
Ends-ne-spent faults e = cc
