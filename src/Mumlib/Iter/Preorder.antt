-- ===== src/Mumlib/Iter/Preorder.antt =====
-- The traversal is in pre-order: a channel, then its children's in turn.
pub mod Find
use mathlib.Core.Path.{subst, ap₂}
use mum.Common.{
  ℕ, zero, suc, ◌<◌, ◌≡◌, refl, sym, ap, ◌∙◌, Option, none, some, List, [], ◌∷◌, ◌++◌, length, done,
  ◌>>=◌, Ends, Ends->>=, Ends-exists, arith,
}
use mum.Mumlib.Tree.{Channel, Channels, channel}
use mum.Mumlib.Iter.{
  Iter, Iters, iterator, no_more, more, iter, iter_each, next, next_at, scan, collect, Scanned,
  one_later,
}

unfoldable mutual
  pub preorder : Channel → List Channel
  preorder (channel description max_users name children users links) =
      channel description max_users name children users links ∷ preorder_each children

  pub preorder_each : Channels → List Channel
  preorder_each Channels.nil = []
  preorder_each (Channels.cons c cs) = preorder c ++ preorder_each cs

abbrev listed : Option Channel → List Channel
listed none = []
listed (some c) = c ∷ []

-- What is still to come from an iterator.
unfoldable mutual
  pending : Iter → List Channel
  pending (iterator me none children) = listed me
  pending (iterator me (some c) children) = listed me ++ pending_from c children

  pending_from : ℕ → Iters → List Channel
  pending_from c no_more = []
  pending_from zero (more i is) = pending i ++ pending_each is
  pending_from (suc c) (more i is) = pending_from c is

  pending_each : Iters → List Channel
  pending_each no_more = []
  pending_each (more i is) = pending i ++ pending_each is

-- The index is that of a child, and so below it.
unfoldable mutual
  IsValid : Iter → Type 0
  IsValid (iterator me none children) = Unit
  IsValid (iterator me (some c) children) = IsValidFrom c children

  IsValidFrom : ℕ → Iters → Type 0
  IsValidFrom c no_more = ⊥
  IsValidFrom zero (more i is) = IsValid i × AreValid is
  IsValidFrom (suc c) (more i is) = IsValidFrom c is

  AreValid : Iters → Type 0
  AreValid no_more = Unit
  AreValid (more i is) = IsValid i × AreValid is

abbrev pending_at : Option ℕ → Iters → List Channel
pending_at none is = []
pending_at (some c) is = pending_from c is

abbrev IsValidAt : Option ℕ → Iters → Type 0
IsValidAt none is = Unit
IsValidAt (some c) is = IsValidFrom c is

-- The channel that is given is the first of those to come, and nothing is given only if none is.
abbrev Gives : List Channel → Option Channel → List Channel → Type 0
Gives before found after = (before ≡ listed found ++ after) × (found ≡ none → after ≡ [])

abbrev Steps : List Channel → Option Channel × Iter → Type 0
Steps before (found, j) = IsValid j × Gives before found (pending j)

abbrev Scans : List Channel → Scanned → Type 0
Scans before (found, at_child, left) =
    IsValidAt at_child left × Gives before found (pending_at at_child left)

shift :
    (before : List Channel) (later : Option Channel) (at_child : Option ℕ) (j : Iter) (left : Iters)
    → Scans before (later, at_child, left)
    → Scans before (later, one_later at_child, more j left)
unfolding pending_from IsValidFrom
shift before later none j left s = s
shift before later (some c) j left s = s

-- One turn of the loop, once the first child has been asked.
turn :
    (i : Iter) (is : Iters) (found : Option Channel) (j : Iter)
    → AreValid is
    → Ends (Scans (pending_each is)) (scan is)
    → Steps (pending i) (found, j)
    → Ends (Scans (pending i ++ pending_each is)) (elim found [
      | some x ↦ done (some x, some 0, more j is)
      | none ↦ do (later, at_child, left) ← scan is; done (later, one_later at_child, more j left)
    ])
unfolding pending_from IsValidFrom
turn i is (some x) j valid rest (vj, (gives, ends)) =
    ((vj, valid), (ap (λ l. l ++ pending_each is) gives, λ e. cc))
turn i is none j valid rest (vj, (gives, ends)) =
    Ends->>= (Scans (pending_each is)) (Scans (pending i ++ pending_each is)) (scan is) _ rest
      (λ r s.
        subst (λ l. Scans (l ++ pending_each is) (r.0, one_later r.1, more j r.2))
          (sym (gives ∙ ends refl)) (shift (pending_each is) r.0 r.1 j r.2 s))

as_step :
    (before : List Channel) (found : Option Channel) (at_child : Option ℕ) (left : Iters)
    → Scans before (found, at_child, left)
    → Steps before (found, iterator none at_child left)
unfolding pending IsValid
as_step before found none left s = s
as_step before found (some c) left s = s

mutual
  unfolding next next_at scan pending pending_from pending_each IsValid IsValidFrom AreValid

  next-Steps : (i : Iter) → IsValid i → Ends (Steps (pending i)) (next i)
  next-Steps (iterator (some c) none children) v = (tt, (refl, λ e. cc))
  next-Steps (iterator (some c) (some k) children) v = (v, (refl, λ e. cc))
  next-Steps (iterator none none children) v = (tt, (refl, λ e. refl))
  next-Steps (iterator none (some c) children) v =
      Ends->>= (Scans (pending_from c children)) (Steps (pending_from c children))
        (next_at c children) _ (next_at-Scans c children v)
        (λ r s. as_step (pending_from c children) r.0 r.1 r.2 s)

  next_at-Scans :
      (c : ℕ) (is : Iters) → IsValidFrom c is → Ends (Scans (pending_from c is)) (next_at c is)
  next_at-Scans zero no_more v = absurd v
  next_at-Scans (suc c) no_more v = absurd v
  next_at-Scans zero (more i is) v =
      Ends->>= (Steps (pending i)) (Scans (pending i ++ pending_each is)) (next i) _
        (next-Steps i v.0) (λ r s. turn i is r.0 r.1 v.1 (scan-Scans is v.1) s)
  next_at-Scans (suc c) (more i is) v =
      Ends->>= (Scans (pending_from c is)) (Scans (pending_from c is)) (next_at c is) _
        (next_at-Scans c is v) (λ r s. shift (pending_from c is) r.0 r.1 i r.2 s)

  scan-Scans : (is : Iters) → AreValid is → Ends (Scans (pending_each is)) (scan is)
  scan-Scans no_more v = (tt, (refl, λ e. refl))
  scan-Scans (more i is) v =
      Ends->>= (Steps (pending i)) (Scans (pending i ++ pending_each is)) (next i) _
        (next-Steps i v.0) (λ r s. turn i is r.0 r.1 v.1 (scan-Scans is v.1) s)

mutual
  unfolding iter iter_each preorder preorder_each pending pending_from pending_each IsValid
      IsValidFrom AreValid

  iter-pending : (c : Channel) → pending (iter c) ≡ preorder c
  iter-pending (channel d m n Channels.nil u l) = refl
  iter-pending (channel d m n (Channels.cons c cs) u l) =
      ap (◌∷◌ (channel d m n (Channels.cons c cs) u l))
        (ap₂ ◌++◌ (iter-pending c) (iter_each-pending cs))

  iter_each-pending : (cs : Channels) → pending_each (iter_each cs) ≡ preorder_each cs
  iter_each-pending Channels.nil = refl
  iter_each-pending (Channels.cons c cs) = ap₂ ◌++◌ (iter-pending c) (iter_each-pending cs)

  iter-IsValid : (c : Channel) → IsValid (iter c)
  iter-IsValid (channel d m n Channels.nil u l) = tt
  iter-IsValid (channel d m n (Channels.cons c cs) u l) = (iter-IsValid c, iter_each-AreValid cs)

  iter_each-AreValid : (cs : Channels) → AreValid (iter_each cs)
  iter_each-AreValid Channels.nil = tt
  iter_each-AreValid (Channels.cons c cs) = (iter-IsValid c, iter_each-AreValid cs)

-- The fuel is enough for the iterators that have fewer channels to come.
abbrev Enough : ℕ → Type 0
Enough fuel =
    (i : Iter) (l : List Channel)
    → pending i ≡ l
    → IsValid i
    → length l < fuel
    → collect fuel i ≡ done l

collect-found :
    (fuel : ℕ) (found : Option Channel) (j : Iter) (l : List Channel)
    → Enough fuel
    → Steps l (found, j)
    → length l < suc fuel
    → (elim found [ none ↦ done [] | some c ↦ do rest ← collect fuel j; done (c ∷ rest) ]) ≡ done l
collect-found fuel none j l enough (v, (gives, ends)) h = ap done (sym (gives ∙ ends refl))
collect-found fuel (some c) j l enough (v, (gives, ends)) h =
    let below : length (c ∷ pending j) < suc fuel = subst (λ k. length k < suc fuel) gives h in
    rw (enough j (pending j) refl v (omega (arith, below))) (ap done (sym gives))

collect-pending :
    (fuel : ℕ) (i : Iter) (l : List Channel)
    → pending i ≡ l
    → IsValid i
    → length l < fuel
    → collect fuel i ≡ done l
unfolding collect
collect-pending zero i l e v h = elim h [ ]
collect-pending (suc fuel) i l e v h =
    let (r, stepped, s) = Ends-exists (Steps (pending i)) (next i) (next-Steps i v) in
    rw stepped (collect-found fuel r.0 r.1 l (collect-pending fuel) (subst (λ k. Steps k r) e s) h)

-- Taking channels from `iter` until there are no more gives the channel and those below it in
-- pre-order, each once, and never panics.
pub collect-preorder :
    (c : Channel) (fuel : ℕ)
    → length (preorder c) < fuel
    → collect fuel (iter c) ≡ done (preorder c)
collect-preorder c fuel h =
    collect-pending fuel (iter c) (preorder c) (iter-pending c) (iter-IsValid c) h
