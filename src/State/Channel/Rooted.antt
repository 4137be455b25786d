-- ===== src/State/Channel/Rooted.antt =====
-- Channels whose chain of parents ends at a root: their path is found within the fuel.
use mum.Common.{
  ℕ, zero, suc, ◌<◌, ◌≤◌, ◌≡◌, refl, ap, Text, text, none, some, ◌++◌, length, done, arith, ==_iff,
  ◌==◌, inl, inr, Bool-cases,
}
use mum.Common.Dict.{Dict, get, remove, get-remove, length-remove-lt}
use mum.State.Channel.{Channel, path_from, path}

-- `Rooted channels n c`: `n` steps from parent to parent lead from `c` to a channel without one.
pub data Rooted (channels : Dict Channel) : ℕ → Channel → Type 0 where
  root : {c : Channel} → c.parent ≡ none → Rooted channels zero c
  below :
      {n : ℕ} {c : Channel} (t : ℕ) (p : Channel)
      → c.parent ≡ some t
      → get channels t ≡ some p
      → Rooted channels n p
      → Rooted channels (suc n) c

-- The names from the root down, with slashes between them.
abbrev pub names : {channels : Dict Channel} {n : ℕ} {c : Channel} → Rooted channels n c → Text
names (root {c} e) = c.name
names (below {c = c} t p e g r) = names r ++ (text "/" ++ c.name)

path_from-Rooted :
    {channels : Dict Channel} {n : ℕ} {c : Channel} (r : Rooted channels n c) (fuel : ℕ)
    → n < fuel
    → path_from fuel channels c ≡ done (names r)
unfolding path_from
path_from-Rooted r zero h = elim h [ ]
path_from-Rooted (root e) (suc fuel) h = ground arith
path_from-Rooted (below t p e g r) (suc fuel) h =
    rw (e, path_from, g) (rw (path_from-Rooted r fuel (omega arith)))

-- A channel has one distance from its root.
Rooted_unique :
    {channels : Dict Channel} {m n : ℕ} {c d : Channel}
    → c ≡ d
    → Rooted channels m c
    → Rooted channels n d
    → m ≡ n
Rooted_unique eq (root e) (root f) = refl
Rooted_unique eq (root e) (below t p f g r) = cc
Rooted_unique eq (below t p e g r) (root f) = cc
Rooted_unique eq (below t p e g r) (below u q f k s) = ap suc (Rooted_unique (cc) r s)

-- The chain above a channel does not lead through a channel that is further down.
Rooted-remove :
    {channels : Dict Channel} {m n : ℕ} {c d : Channel} (id : ℕ)
    → get channels id ≡ some d
    → Rooted channels n d
    → m ≤ n
    → Rooted channels m c
    → Rooted (remove channels id) m c
Rooted-remove id at low h (root e) = root e
Rooted-remove {channels} {n = n} id at low h (below {n = m} t p e g r) =
    elim (Bool-cases (id == t)) [
      | inl same ↦ absurd (omega (arith, Rooted_unique (cc ((==_iff id t).0 same)) r low))
      | inr other ↦
          below t p e (rw (get-remove channels id t, other) g)
            (Rooted-remove id at low (omega arith) r)
    ]

-- No chain of parents is longer than the map.
pub Rooted-le-length :
    (n : ℕ) {channels : Dict Channel} {c : Channel} → Rooted channels n c → n ≤ length channels
Rooted-le-length zero r = omega arith
Rooted-le-length (suc n) {channels} (below t p e g r) = omega (
  arith,
  Rooted-le-length n (Rooted-remove t g r (omega arith) r),
  length-remove-lt channels t p g,
)

-- The path of a channel whose chain of parents ends at a root is found, however long the chain is:
-- it is the names from the root down to the channel, with a slash before each but the first.
pub path-names :
    {channels : Dict Channel} {n : ℕ} {c : Channel} (r : Rooted channels n c)
    → path channels c ≡ done (names r)
unfolding path
path-names {channels} {n} r =
    path_from-Rooted r (suc (length channels)) (omega (arith, Rooted-le-length n r))
