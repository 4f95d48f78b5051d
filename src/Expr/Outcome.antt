-- ===== src/Expr/Outcome.antt =====
-- Results that may be missing, because the fuel of a recursion is spent: their chaining, what holds
-- of a result if there is one, and what holds of a result that there is.
use kdevops.Prelude.{◌≡◌, refl, Option, none, some}
use mathlib.Core.Option.{some-injective}
use mathlib.Core.Path.{subst}

infixl 5 ◌>>=◌
abbrev pub ◌>>=◌ {ℓ κ} : {A : Type ℓ} {B : Type κ} → Option A → (A → Option B) → Option B
none >>= f = none
some a >>= f = f a

pub data Post {ℓ κ} {A : Type ℓ} (P : A → Type κ) : Option A → Type (ℓ ⊔ κ) where
  nothing : Post P none
  just : {a : A} → P a → Post P (some a)

pub >>=-Post {ℓ κ ι ρ} :
    {A : Type ℓ} {B : Type κ} {P : A → Type ι} {Q : B → Type ρ} (m : Option A) {f : A → Option B}
    → Post P m
    → ((a : A) → P a → Post Q (f a))
    → Post Q (m >>= f)
>>=-Post none p k = nothing
>>=-Post (some a) (just h) k = k a h

-- A result is what the computation gives.
pub Post-self {ℓ} : {A : Type ℓ} (m : Option A) → Post (λ a. m ≡ some a) m
Post-self none = nothing
Post-self (some a) = just refl

pub Post-eq {ℓ κ} :
    {A : Type ℓ} {P : A → Type κ} {m : Option A} {a : A} → Post P m → m ≡ some a → P a
Post-eq {P} nothing e = cc
Post-eq {P} (just h) e = subst P (some-injective _ _ e) h

pub Post-map {ℓ κ ι} :
    {A : Type ℓ} {P : A → Type κ} {Q : A → Type ι} (m : Option A)
    → ((a : A) → P a → Q a)
    → Post P m
    → Post Q m
Post-map none f p = nothing
Post-map (some a) f (just h) = just (f a h)

pub Post-both {ℓ κ ι} :
    {A : Type ℓ} {P : A → Type κ} {Q : A → Type ι} (m : Option A)
    → Post P m
    → Post Q m
    → Post (λ a. P a × Q a) m
Post-both none p q = nothing
Post-both (some a) (just h) (just k) = just (h, k)

-- There is a result, and it has the property.
pub record Ends {ℓ κ} {A : Type ℓ} (P : A → Type κ) (m : Option A) : Type (ℓ ⊔ κ) where
  pub result : A
  pub is_result : m ≡ some result
  pub holds : P result

pub >>=-Ends {ℓ κ ι ρ} :
    {A : Type ℓ} {B : Type κ} {P : A → Type ι} {Q : B → Type ρ} (m : Option A) {f : A → Option B}
    → Ends P m
    → ((a : A) → P a → Ends Q (f a))
    → Ends Q (m >>= f)
>>=-Ends m {f} p k =
    let q = k p.result p.holds in
    record { result = q.result; is_result = rw p.is_result q.is_result; holds = q.holds }

-- A result that there is has what holds of a result if there is one.
pub Ends-Post {ℓ κ ι} :
    {A : Type ℓ} {P : A → Type κ} {Q : A → Type ι} {m : Option A} → Ends P m → Post Q m → Ends Q m
Ends-Post e p = record { result = e.result; is_result = e.is_result; holds = Post-eq p e.is_result }
