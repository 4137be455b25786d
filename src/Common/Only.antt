-- ===== src/Common/Only.antt =====
-- The one element of a list that passes a test.
use mathlib.Core.Path.{◌≡◌, refl, ap}
use mathlib.Core.Logic.{inl, inr}
use mathlib.Core.Bool.{Bool, true, false}
use mathlib.Core.List.{List, [], ◌∷◌, ◌++◌, map}
use native.Mathlib.Omega.{arith}
use mum.Common.Tests.{Bool-cases}
use mum.Common.Lists.{All, keep_if}

-- `x` is the one element of the list that passes the test.
pub record IsOnly {ℓ} {A : Type ℓ} (p : A → Bool) (xs : List A) (x : A) : Type ℓ where
  pub before : List A
  pub after : List A
  pub split : xs ≡ before ++ x ∷ after
  pub passes : p x ≡ true
  pub none_before : All (λ y. p y ≡ false) before
  pub none_after : All (λ y. p y ≡ false) after

module _ {ℓ} {A : Type ℓ} (p : A → Bool) where
  pub keep_if-eq-nil : (xs : List A) → keep_if p xs ≡ [] → All (λ y. p y ≡ false) xs
  keep_if-eq-nil [] h = tt
  keep_if-eq-nil (x ∷ xs) h = ground (arith, keep_if-eq-nil xs)

  pub keep_if-none : (xs : List A) → All (λ y. p y ≡ false) xs → keep_if p xs ≡ []
  keep_if-none [] h = refl
  keep_if-none (x ∷ xs) h = ground (arith, keep_if-none xs)

  pub IsOnly-keep_if : (xs : List A) (x : A) → keep_if p xs ≡ x ∷ [] → IsOnly p xs x
  IsOnly-keep_if [] x h = cc
  IsOnly-keep_if (y ∷ xs) x h = elim (Bool-cases (p y)) [
    | inl hit ↦ record {
      before = [];
      after = xs;
      split = ground arith;
      passes = ground arith;
      none_before = tt;
      none_after = keep_if-eq-nil xs (ground arith);
    }
    | inr miss ↦
        let rest = IsOnly-keep_if xs x (ground arith) in
        record {
          before = y ∷ rest.before;
          after = rest.after;
          split = ap (◌∷◌ y) rest.split;
          passes = rest.passes;
          none_before = (miss, rest.none_before);
          none_after = rest.none_after;
        }
  ]

  keep_if-split :
      (before after : List A) (x : A)
      → p x ≡ true
      → All (λ y. p y ≡ false) before
      → All (λ y. p y ≡ false) after
      → keep_if p (before ++ x ∷ after) ≡ x ∷ []
  keep_if-split [] after x h b a = ground (arith, keep_if-none after a)
  keep_if-split (y ∷ before) after x h b a = ground (arith, keep_if-split before after x h b.1 a)

  pub keep_if-IsOnly : (xs : List A) (x : A) → IsOnly p xs x → keep_if p xs ≡ x ∷ []
  keep_if-IsOnly xs x o =
      rw o.split (keep_if-split o.before o.after x o.passes o.none_before o.none_after)

pub keep_if-map {ℓ κ} :
    {A : Type ℓ} {B : Type κ} (q : B → Bool) (f : A → B) (xs : List A)
    → keep_if q (map f xs) ≡ map f (keep_if (λ x. q (f x)) xs)
keep_if-map q f [] = refl
keep_if-map q f (x ∷ xs) = elim (Bool-cases (q (f x))) [
  | inl hit ↦ rw hit (ap (◌∷◌ (f x)) (keep_if-map q f xs))
  | inr miss ↦ rw miss (keep_if-map q f xs)
]
