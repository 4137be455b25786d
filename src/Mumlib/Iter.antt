-- ===== src/Mumlib/Iter.antt =====
-- mumlib/src/state.rs, `Channel::iter` and `Iter`: the traversal of a channel and those below it.
pub mod Preorder
use mum.Common.{
  ℕ, zero, suc, Bool, true, false, Option, none, some, List, [], ◌∷◌, ◌++◌, Outcome, done, panic,
  overrun, ◌>>=◌,
}
use mum.Mumlib.Tree.{Channel, Channels, channel}

-- The fields `me`, `channel` and `channels`; `Iters` is `Vec<Iter>`.
mutual
  pub data Iter : Type 0 where
    iterator : Option Channel → Option ℕ → Iters → Iter

  pub data Iters : Type 0 where
    no_more : Iters
    more : Iter → Iters → Iters

abbrev first_child : Channels → Option ℕ
first_child Channels.nil = none
first_child (Channels.cons c cs) = some 0

unfoldable mutual
  pub iter : Channel → Iter
  iter (channel description max_users name children users links) =
      iterator (some (channel description max_users name children users links))
        (first_child children) (iter_each children)

  pub iter_each : Channels → Iters
  iter_each Channels.nil = no_more
  iter_each (Channels.cons c cs) = more (iter c) (iter_each cs)

-- What the loop comes to: the channel, the index to go on from, and the children as they are left.
abbrev pub Scanned : Type 0
Scanned = Option Channel × Option ℕ × Iters

abbrev pub one_later : Option ℕ → Option ℕ
one_later none = none
one_later (some c) = some (suc c)

-- `next`. `next_at` goes to the child of the index, which panics if there is none; `scan` is the loop
-- from a child on.
unfoldable mutual
  pub next : Iter → Outcome (Option Channel × Iter)
  next (iterator (some c) at_child children) = done (some c, iterator none at_child children)
  next (iterator none none children) = done (none, iterator none none children)
  next (iterator none (some c) children) = do
    (found, at_child, left) ← next_at c children
    done (found, iterator none at_child left)

  pub next_at : ℕ → Iters → Outcome Scanned
  next_at c no_more = panic
  next_at zero (more i is) = do
    (found, j) ← next i
    elim found [
      | some x ↦ done (some x, some 0, more j is)
      | none ↦ do (later, at_child, left) ← scan is; done (later, one_later at_child, more j left)
    ]
  next_at (suc c) (more i is) = do
    (found, at_child, left) ← next_at c is
    done (found, one_later at_child, more i left)

  pub scan : Iters → Outcome Scanned
  scan no_more = done (none, none, no_more)
  scan (more i is) = do
    (found, j) ← next i
    elim found [
      | some x ↦ done (some x, some 0, more j is)
      | none ↦ do (later, at_child, left) ← scan is; done (later, one_later at_child, more j left)
    ]

-- `collect`, which calls `next` until it gives nothing; the fuel bounds the calls.
unfoldable pub collect : ℕ → Iter → Outcome (List Channel)
collect zero i = overrun
collect (suc fuel) i = do
  (found, j) ← next i
  elim found [ none ↦ done [] | some c ↦ do rest ← collect fuel j; done (c ∷ rest) ]

-- `find`, which stops at the first channel that passes; the fuel bounds the calls.
unfoldable pub find_next : ℕ → (Channel → Bool) → Iter → Outcome (Option Channel)
find_next zero p i = overrun
find_next (suc fuel) p i = do
  (found, j) ← next i
  elim found [
    | none ↦ done none
    | some c ↦ elim (p c) [ true ↦ done (some c) | false ↦ find_next fuel p j ]
  ]
