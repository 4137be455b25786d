-- ===== src/Common/Dict.antt =====
-- `HashMap<u32, V>` as an association list. The order of the list is the order in which the map
-- happens to be iterated; a new key goes to the end.
use mathlib.Core.Logic.{inl, inr}
use mathlib.Core.Path.{◌≡◌, refl, subst}
use mathlib.Core.List.{List, [], ◌∷◌}
use mathlib.Core.Option.{Option, none, some}
use Prim.Native.Nat.{ℕ, ◌≤◌, ◌<◌}
use native.Mathlib.Omega.{arith}
use mum.Common.Tests.{◌==◌, if◌then◌else◌, Bool-cases}
use mum.Common.Lists.{length, All}

abbrev pub Dict {ℓ} : Type ℓ → Type ℓ
Dict V = List (ℕ × V)

module _ {ℓ} {V : Type ℓ} where
  unfoldable pub get : Dict V → ℕ → Option V
  get [] k = none
  get ((j, v) ∷ d) k = if j == k then some v else get d k

  unfoldable pub insert : Dict V → ℕ → V → Dict V
  insert [] k v = (k, v) ∷ []
  insert ((j, w) ∷ d) k v = if j == k then (j, v) ∷ d else (j, w) ∷ insert d k v

  unfoldable pub remove : Dict V → ℕ → Dict V
  remove [] k = []
  remove ((j, w) ∷ d) k = if j == k then remove d k else (j, w) ∷ remove d k

  pub get-insert :
      (d : Dict V) (k : ℕ) (v : V) (j : ℕ)
      → get (insert d k v) j ≡ (if k == j then some v else get d j)
  unfolding get insert
  get-insert [] k v j = refl
  get-insert ((i, w) ∷ d) k v j = ground (arith, get-insert d k v j)

  pub get-remove : (d : Dict V) (k j : ℕ) → get (remove d k) j ≡ (if k == j then none else get d j)
  unfolding get remove
  get-remove [] k j = ground arith
  get-remove ((i, w) ∷ d) k j = ground (arith, get-remove d k j)

  -- Taking an entry out makes the map shorter.
  pub length-remove-le : (d : Dict V) (k : ℕ) → length (remove d k) ≤ length d
  unfolding remove
  length-remove-le [] k = omega arith
  length-remove-le ((j, w) ∷ d) k = ground (arith, length-remove-le d k)

  pub length-remove-lt :
      (d : Dict V) (k : ℕ) (v : V) → get d k ≡ some v → length (remove d k) < length d
  unfolding get remove
  length-remove-lt [] k v h = cc
  length-remove-lt ((j, w) ∷ d) k v h = ground (arith, length-remove-lt d k v, length-remove-le d k)

module _ {ℓ κ} {V : Type ℓ} (P : V → Type κ) where
  pub All-insert :
      (d : Dict V) (k : ℕ) (v : V) → P v → All (λ e. P e.1) d → All (λ e. P e.1) (insert d k v)
  unfolding insert
  All-insert [] k v h a = (h, tt)
  All-insert ((j, w) ∷ d) k v h a = elim (Bool-cases (j == k)) [
    | inl same ↦ rw same (h, a.1)
    | inr other ↦ rw other (a.0, All-insert d k v h a.1)
  ]

  pub All-remove : (d : Dict V) (k : ℕ) → All (λ e. P e.1) d → All (λ e. P e.1) (remove d k)
  unfolding remove
  All-remove [] k a = tt
  All-remove ((j, w) ∷ d) k a = elim (Bool-cases (j == k)) [
    | inl same ↦ rw same (All-remove d k a.1)
    | inr other ↦ rw other (a.0, All-remove d k a.1)
  ]

  pub All-get : (d : Dict V) (k : ℕ) (v : V) → get d k ≡ some v → All (λ e. P e.1) d → P v
  unfolding get
  All-get [] k v h a = cc
  All-get ((j, w) ∷ d) k v h a = elim (Bool-cases (j == k)) [
    | inl same ↦ let e : w ≡ v = ground arith in subst P e a.0
    | inr other ↦ All-get d k v (ground arith) a.1
  ]

pub All-imp {ℓ κ μ} :
    {V : Type ℓ} (P : V → Type κ) (Q : V → Type μ) (d : Dict V)
    → ((v : V) → P v → Q v)
    → All (λ e. P e.1) d
    → All (λ e. Q e.1) d
All-imp P Q [] f a = tt
All-imp P Q ((k, v) ∷ d) f a = (f v a.0, All-imp P Q d f a.1)
