-- ===== src/Common/Outcomes.antt =====
-- What a call of the program comes to, and `Result`.
use mathlib.Core.Path.{◌≡◌, refl}
use mathlib.Core.Option.{Option, none, some}

-- `panic` is a failed `unwrap` or an `unreachable!`; `overrun` is a recursion or a loop that has not
-- ended when its fuel is used up.
pub data Outcome {ℓ} (A : Type ℓ) : Type ℓ where
  done : A → Outcome A
  panic : Outcome A
  overrun : Outcome A

infixl 5 ◌>>=◌
abbrev pub ◌>>=◌ {ℓ κ} : {A : Type ℓ} {B : Type κ} → Outcome A → (A → Outcome B) → Outcome B
done a >>= f = f a
panic >>= f = panic
overrun >>= f = overrun

-- `Option::unwrap`.
abbrev pub unwrap {ℓ} : {A : Type ℓ} → Option A → Outcome A
unwrap none = panic
unwrap (some a) = done a

-- Inversion of a bind that returned.
pub >>=-eq-done {ℓ κ} :
    {A : Type ℓ} {B : Type κ} (m : Outcome A) (f : A → Outcome B) {b : B}
    → (m >>= f) ≡ done b
    → (a : A) × (m ≡ done a) × (f a ≡ done b)
>>=-eq-done (done a) f h = (a, refl, h)
>>=-eq-done panic f h = cc
>>=-eq-done overrun f h = cc

-- The call returns, and what it returns satisfies the predicate.
abbrev pub Ends {ℓ} : {A : Type ℓ} → (A → Type 0) → Outcome A → Type 0
Ends P (done a) = P a
Ends P panic = ⊥
Ends P overrun = ⊥

pub Ends->>= {ℓ κ} :
    {A : Type ℓ} {B : Type κ} (P : A → Type 0) (Q : B → Type 0) (m : Outcome A) (f : A → Outcome B)
    → Ends P m
    → ((a : A) → P a → Ends Q (f a))
    → Ends Q (m >>= f)
Ends->>= P Q (done a) f h k = k a h
Ends->>= P Q panic f h k = absurd h
Ends->>= P Q overrun f h k = absurd h

pub Ends-exists {ℓ} :
    {A : Type ℓ} (P : A → Type 0) (m : Outcome A) → Ends P m → (a : A) × (m ≡ done a) × P a
Ends-exists P (done a) h = (a, refl, h)
Ends-exists P panic h = absurd h
Ends-exists P overrun h = absurd h

-- `std::result::Result`.
pub data Result {ℓ κ} (A : Type ℓ) (E : Type κ) : Type (ℓ ⊔ κ) where
  ok : A → Result A E
  err : E → Result A E

-- If the call returns, what it returns satisfies the predicate.
abbrev pub WhenDone {ℓ} : {A : Type ℓ} → (A → Type 0) → Outcome A → Type 0
WhenDone P (done a) = P a
WhenDone P panic = Unit
WhenDone P overrun = Unit

pub WhenDone->>= {ℓ κ} :
    {A : Type ℓ} {B : Type κ} (P : A → Type 0) (Q : B → Type 0) (m : Outcome A) (f : A → Outcome B)
    → WhenDone P m
    → ((a : A) → P a → WhenDone Q (f a))
    → WhenDone Q (m >>= f)
WhenDone->>= P Q (done a) f h k = k a h
WhenDone->>= P Q panic f h k = tt
WhenDone->>= P Q overrun f h k = tt

pub WhenDone-any {ℓ κ} :
    {A : Type ℓ} {B : Type κ} (Q : B → Type 0) (m : Outcome A) (f : A → Outcome B)
    → ((a : A) → WhenDone Q (f a))
    → WhenDone Q (m >>= f)
WhenDone-any Q (done a) f k = k a
WhenDone-any Q panic f k = tt
WhenDone-any Q overrun f k = tt

pub WhenDone-imp {ℓ} :
    {A : Type ℓ} (P Q : A → Type 0) (m : Outcome A)
    → WhenDone P m
    → ((a : A) → P a → Q a)
    → WhenDone Q m
WhenDone-imp P Q (done a) h f = f a h
WhenDone-imp P Q panic h f = tt
WhenDone-imp P Q overrun h f = tt

pub Ends-imp {ℓ} :
    {A : Type ℓ} (P Q : A → Type 0) (m : Outcome A) → Ends P m → ((a : A) → P a → Q a) → Ends Q m
Ends-imp P Q (done a) h f = f a h
Ends-imp P Q panic h f = absurd h
Ends-imp P Q overrun h f = absurd h

pub Ends-both {ℓ} :
    {A : Type ℓ} (P Q : A → Type 0) (m : Outcome A) → Ends P m → Ends Q m → Ends (λ a. P a × Q a) m
Ends-both P Q (done a) p q = (p, q)
Ends-both P Q panic p q = p
Ends-both P Q overrun p q = p

-- A call that returns, and whose result satisfies the predicate when there is one.
pub Ends-WhenDone {ℓ} :
    {A : Type ℓ} (P Q : A → Type 0) (m : Outcome A) → Ends P m → WhenDone Q m → Ends Q m
Ends-WhenDone P Q (done a) p q = q
Ends-WhenDone P Q panic p q = p
Ends-WhenDone P Q overrun p q = p

-- What follows a call need only agree on what the call can return.
pub >>=-WhenDone {ℓ κ} :
    {A : Type ℓ} {B : Type κ} (P : A → Type 0) (m : Outcome A) (f g : A → Outcome B)
    → WhenDone P m
    → ((a : A) → P a → f a ≡ g a)
    → (m >>= f) ≡ (m >>= g)
>>=-WhenDone P (done a) f g h k = k a h
>>=-WhenDone P panic f g h k = refl
>>=-WhenDone P overrun f g h k = refl

pub >>=-assoc {ℓ κ μ} :
    {A : Type ℓ} {B : Type κ} {C : Type μ} (m : Outcome A) (f : A → Outcome B) (g : B → Outcome C)
    → ((m >>= f) >>= g) ≡ (m >>= λ a. f a >>= g)
>>=-assoc (done a) f g = refl
>>=-assoc panic f g = refl
>>=-assoc overrun f g = refl
