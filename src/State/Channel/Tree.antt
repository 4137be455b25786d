-- ===== src/State/Channel/Tree.antt =====
-- mum/src/state/channel.rs, `ProtoTree` and `into_channel`: the tree of channels with their users.
pub mod Walks
pub mod Nodes
pub mod Total
use mum.Common.{
  ℕ, zero, suc, ℤ, leb_ℤ, Text, text_leb, Bool, true, false, Option, some, none, get_or, List, [],
  ◌∷◌, map, length, push, Outcome, done, panic, overrun, unwrap, ◌>>=◌, ◌==◌, if◌then◌else◌,
}
use mum.Common.Dict.{Dict, get, insert}
use mum.Mumlib.Tree
use mum.State.User
use mum.State.User.{User}
use mum.State.Channel.{Channel, to_mumlib}

-- `Branches` is the `HashMap<u32, ProtoTree>` of the children.
mutual
  pub data ProtoTree : Type 0 where
    proto : Option Channel → Branches → List User → ProtoTree

  pub data Branches : Type 0 where
    none_yet : Branches
    branch : ℕ → ProtoTree → Branches → Branches

-- What `or_insert` puts in.
abbrev empty : ProtoTree
empty = proto none none_yet []

unfoldable pub get_branch : Branches → ℕ → Option ProtoTree
get_branch none_yet k = none
get_branch (branch j t bs) k = if j == k then some t else get_branch bs k

unfoldable pub set_branch : Branches → ℕ → ProtoTree → Branches
set_branch none_yet k t = branch k t none_yet
set_branch (branch j u bs) k t = if j == k then branch j t bs else branch j u (set_branch bs k t)

-- `pt.channel = …; pt.users = …` at the end of a walk.
abbrev place : Channel → List User → ProtoTree → ProtoTree
place channel users (proto c bs us) = proto (some channel) bs users

unfoldable pub walk_and_add : Channel → Dict (List User) → List ℕ → ProtoTree → Outcome ProtoTree
walk_and_add channel users [] t = panic
walk_and_add channel users (node ∷ []) (proto c bs us) =
    let here = place channel (get_or (get users node) []) (get_or (get_branch bs node) empty) in
    done (proto c (set_branch bs node here) us)
walk_and_add channel users (node ∷ next ∷ rest) (proto c bs us) = do
  below ← walk_and_add channel users (next ∷ rest) (get_or (get_branch bs node) empty)
  done (proto c (set_branch bs node below) us)

-- The order of the key `(position, name)`.
abbrev name_of : Tree.Channel → Text
name_of (Tree.channel description max_users name children users links) = name

unfoldable pub key_leb : ℤ × Tree.Channel → ℤ × Tree.Channel → Bool
key_leb (p, c) (q, d) =
    if leb_ℤ p q then (if leb_ℤ q p then text_leb (name_of c) (name_of d) else true) else false

-- `sort_by_key`, which keeps the order of equal keys.
insert_sorted : ℤ × Tree.Channel → List (ℤ × Tree.Channel) → List (ℤ × Tree.Channel)
insert_sorted x [] = x ∷ []
insert_sorted x (y ∷ ys) =
    let rest = insert_sorted x ys in if key_leb x y then x ∷ y ∷ ys else y ∷ rest

unfoldable pub sort_by_key : List (ℤ × Tree.Channel) → List (ℤ × Tree.Channel)
unfolding insert_sorted
sort_by_key [] = []
sort_by_key (x ∷ xs) = insert_sorted x (sort_by_key xs)

children_of : List (ℤ × Tree.Channel) → Tree.Channels
children_of [] = Tree.nil
children_of ((p, c) ∷ cs) = Tree.cons c (children_of cs)

abbrev filled : Tree.Channel → Tree.Channels → List Tree.User → Tree.Channel
filled (Tree.channel description max_users name c u links) children users =
    Tree.channel description max_users name children users links

channel_in : ProtoTree → Option Channel
channel_in (proto c bs us) = c

-- `From<&ProtoTree> for mumlib::state::Channel`: a node without a channel panics.
unfoldable mutual
  unfolding sort_by_key children_of channel_in

  pub to_channel : ProtoTree → Outcome Tree.Channel
  to_channel (proto c bs us) = do
    own ← unwrap c
    children ← to_children bs
    done (filled (to_mumlib own) (children_of (sort_by_key children)) (map User.to_mumlib us))

  pub to_children : Branches → Outcome (List (ℤ × Tree.Channel))
  to_children none_yet = done []
  to_children (branch k t bs) = do
    own ← unwrap (channel_in t)
    child ← to_channel t
    rest ← to_children bs
    done ((own.position, child) ∷ rest)

-- The users of each channel.
channel_lookup : Dict (List User) → Dict User → Dict (List User)
channel_lookup found [] = found
channel_lookup found ((id, u) ∷ users) =
    channel_lookup (insert found u.channel (push (get_or (get found u.channel) []) u)) users

-- The `while` loop and `reverse`: the ids from below the root down to the channel. The fuel bounds
-- the steps; an id that is not in the map panics.
unfoldable pub climb : ℕ → Dict Channel → ℕ → List ℕ → Outcome (List ℕ)
climb zero channels current walk = overrun
climb (suc fuel) channels current walk = do
  c ← unwrap (get channels current)
  elim c.parent [ none ↦ done walk | some next ↦ climb fuel channels next (current ∷ walk) ]

unfoldable pub walks_of : Dict Channel → Dict Channel → Outcome (List (List ℕ × Channel))
walks_of channels [] = done []
walks_of channels ((id, c) ∷ rest) = do
  walk ← climb (suc (length channels)) channels id []
  walks ← walks_of channels rest
  done (elim walk [ [] ↦ walks | step ∷ steps ↦ (step ∷ steps, c) ∷ walks ])

add_all : Dict (List User) → List (List ℕ × Channel) → ProtoTree → Outcome ProtoTree
add_all users [] t = done t
add_all users ((walk, c) ∷ walks) t = do u ← walk_and_add c users walk t; add_all users walks u

unfoldable pub into_channel : Dict Channel → Dict User → Outcome Tree.Channel
unfolding channel_lookup walks_of add_all
into_channel channels users =
    let by_channel = channel_lookup [] users in
    do
      walks ← walks_of channels channels
      root ← unwrap (get channels 0)
      t ← add_all by_channel walks (proto (some root) none_yet (get_or (get by_channel 0) []))
      to_channel t
