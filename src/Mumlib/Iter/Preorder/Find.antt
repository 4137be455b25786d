-- ===== src/Mumlib/Iter/Preorder/Find.antt =====
-- Looking for a channel through the iterator.
use mathlib.Core.Path.{subst}
use mum.Common.{
  ℕ, zero, suc, ◌<◌, ◌≡◌, refl, Option, none, some, List, ◌∷◌, length, find, Bool, true, false, inl,
  inr, Bool-cases, done, Ends-exists, arith,
}
use mum.Mumlib.Tree.{Channel}
use mum.Mumlib.Iter.{Iter, iter, next, find_next}
use mum.Mumlib.Iter.Preorder.{
  preorder, pending, IsValid, Steps, next-Steps, iter-pending, iter-IsValid,
}

find_next-found :
    (p : Channel → Bool) (fuel : ℕ) (found : Option Channel) (j : Iter) (l : List Channel)
    → ((l : List Channel)
        → pending j ≡ l
        → IsValid j
        → length l < fuel
        → find_next fuel p j ≡ done (find p l))
    → Steps l (found, j)
    → length l < suc fuel
    → (elim found [
      | none ↦ done none
      | some c ↦ elim (p c) [ true ↦ done (some c) | false ↦ find_next fuel p j ]
    ])
      ≡ done (find p l)
find_next-found p fuel none j l enough (v, (gives, ends)) h = rw (gives, ends refl) refl
find_next-found p fuel (some c) j l enough (v, (gives, ends)) h =
    let below : length (c ∷ pending j) < suc fuel = subst (λ k. length k < suc fuel) gives h in
    rw gives (elim (Bool-cases (p c)) [
      | inl passes ↦ rw passes refl
      | inr fails ↦ rw fails (enough (pending j) refl v (omega (arith, below)))
    ])

find_next-pending :
    (p : Channel → Bool) (fuel : ℕ) (i : Iter) (l : List Channel)
    → pending i ≡ l
    → IsValid i
    → length l < fuel
    → find_next fuel p i ≡ done (find p l)
unfolding find_next
find_next-pending p zero i l e v h = elim h [ ]
find_next-pending p (suc fuel) i l e v h =
    let (r, stepped, s) = Ends-exists (Steps (pending i)) (next i) (next-Steps i v) in
    rw stepped (
      find_next-found p fuel r.0 r.1 l (find_next-pending p fuel r.1) (subst (λ k. Steps k r) e s)
        h)

-- Looking for a channel through `iter` finds the first in pre-order that passes, or none if none
-- does, and never panics.
pub find_next-preorder :
    (p : Channel → Bool) (c : Channel) (fuel : ℕ)
    → length (preorder c) < fuel
    → find_next fuel p (iter c) ≡ done (find p (preorder c))
find_next-preorder p c fuel h =
    find_next-pending p fuel (iter c) (preorder c) (iter-pending c) (iter-IsValid c) h
