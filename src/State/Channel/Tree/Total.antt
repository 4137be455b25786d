-- ===== src/State/Channel/Tree/Total.antt =====
-- The tree of a forest of channels can be shown.
use mathlib.Core.Path.{subst}
use mum.Common.{
  ℕ, ◌≡◌, refl, sym, ap, ◌∙◌, ◌⊎◌, inl, inr, Bool-cases, ◌==◌, ==_refl, ==_iff, Option, some, none,
  get_or, List, [], ◌∷◌, ◌++◌, All, Outcome, done, Ends, Ends->>=, Ends-imp, Ends-exists,
}
use mum.Common.Dict.{Dict, get}
use mum.Mumlib.Tree as Shown
use mum.State.User.{User}
use mum.State.Channel.{Channel}
use mum.State.Channel.Tree.{
  ProtoTree, proto, Branches, none_yet, branch, get_branch, walk_and_add, add_all, walks_of,
  channel_lookup, to_channel, to_children, channel_in, into_channel,
}
use mum.State.Channel.Tree.Walks.{Has, Closed, IsStep, walks_of-Closed, AllRooted}
use mum.State.Channel.Tree.Nodes.{
  IsProper, AreProper, node_at, HasNode, IsFilled, IsPrefix, Added, walk_and_add-Added,
  node_at-under, under,
}

-- What all the walks do to a tree.
abbrev AllAdded : List (List ℕ × Channel) → ProtoTree → ProtoTree → Type 0
AllAdded ws t u =
    IsProper u
    × ((p : List ℕ) → IsFilled t p → IsFilled u p)
    × ((p : List ℕ) → Has p ws → IsFilled u p)
    × ((p : List ℕ) → HasNode u p → HasNode t p ⊎ ((s : List ℕ) × Has (p ++ s) ws))

add_all-AllAdded :
    (users : Dict (List User)) (ws : List (List ℕ × Channel)) (t : ProtoTree)
    → All IsStep ws
    → IsProper t
    → Ends (AllAdded ws t) (add_all users ws t)
unfolding add_all Has IsPrefix
add_all-AllAdded users [] t h proper = (proper, (λ p f. f), (λ p k. absurd k), λ p n. inl n)
add_all-AllAdded users ((walk, c) ∷ ws) t ((y, q, starts), rest) proper =
    Ends->>= (Added walk t) (AllAdded ((walk, c) ∷ ws) t) (walk_and_add c users walk t) _
      (subst (λ w. Ends (Added w t) (walk_and_add c users w t)) (sym starts)
        (walk_and_add-Added c users y q t proper))
      λ u (good, filled, keeps, news).
        Ends-imp (AllAdded ws u) (AllAdded ((walk, c) ∷ ws) t) (add_all users ws u)
          (add_all-AllAdded users ws u rest good)
          λ v (good', keeps', fills', news'). (
            good',
            (λ p f. keeps' p (keeps p f)),
            (λ p k. elim k [
              | inl here ↦ keeps' p (subst (IsFilled u) (sym here) filled)
              | inr later ↦ fills' p later
            ]),
            λ p n. elim (news' p n) [
              | inl old ↦ elim (news p old) [
                | inl older ↦ inl older
                | inr (s, whole) ↦ inr (s, inl whole)
              ]
              | inr (s, later) ↦ inr (s, inr later)
            ],
          )

top_node : (t : ProtoTree) → node_at t [] ≡ some t
unfolding node_at
top_node t = refl

channel_found : Option ProtoTree → Option Channel
unfolding channel_in
channel_found none = none
channel_found (some t) = channel_in t

-- Every node has a channel.
abbrev Complete : ProtoTree → Type 0
Complete t = (p : List ℕ) → HasNode t p → IsFilled t p

abbrev CompleteBelow : Branches → Type 0
CompleteBelow bs = (k : ℕ) (t : ProtoTree) → get_branch bs k ≡ some t → Complete t

Complete-below :
    (c : Option Channel) (bs : Branches) (us : List User)
    → Complete (proto c bs us)
    → CompleteBelow bs
Complete-below c bs us h k t there p (u, e) =
    let path = node_at-under c bs us k p ∙ ap (λ o. under o p) there in
    let (d, cs, vs, f) = h (k ∷ p) (u, path ∙ e) in (d, cs, vs, sym path ∙ f)

Returns {ℓ} : {A : Type ℓ} → Outcome A → Type 0
Returns m = Ends (λ a. Unit) m

-- The channel at the top.
top_channel : (t : ProtoTree) → IsFilled t [] → (c : Channel) × (channel_in t ≡ some c)
unfolding node_at channel_in channel_found
top_channel (proto c bs us) (d, cs, vs, e) = (d, ap channel_found e)

CompleteBelow-rest :
    (k : ℕ) (t : ProtoTree) (bs : Branches)
    → get_branch bs k ≡ none
    → CompleteBelow (branch k t bs)
    → CompleteBelow bs
unfolding get_branch
CompleteBelow-rest k t bs new h j u there = elim (Bool-cases (k == j)) [
  | inl same ↦ let kj = (==_iff k j).0 same in cc
  | inr other ↦ h j u (rw other there)
]

mutual
  unfolding to_channel IsProper get_branch Returns channel_in

  to_channel-Returns : (t : ProtoTree) → IsProper t → Complete t → Returns (to_channel t)
  to_channel-Returns (proto c bs us) proper h =
      let (d, same) =
        top_channel (proto c bs us) (h [] (proto c bs us, top_node (proto c bs us))) in
      rw same (
        Ends->>= (λ a. Unit) (λ a. Unit) (to_children bs) _
          (to_children-Returns bs proper (Complete-below c bs us h)) λ a u. tt)

  to_children-Returns : (bs : Branches) → AreProper bs → CompleteBelow bs → Returns (to_children bs)
  to_children-Returns none_yet proper h = tt
  to_children-Returns (branch k t bs) (new, proper, rest) h =
      let complete = h k t (rw (==_refl k) refl) in
      let (d, same) = top_channel t (complete [] (t, top_node t)) in
      rw same (
        Ends->>= (λ a. Unit) (λ a. Unit) (to_channel t) _ (to_channel-Returns t proper complete)
          λ child u.
            Ends->>= (λ a. Unit) (λ a. Unit) (to_children bs) _
              (to_children-Returns bs rest (CompleteBelow-rest k t bs new h)) λ cs v. tt)

-- The tree that the walks start from.
abbrev start : Channel → List User → ProtoTree
start top us = proto (some top) none_yet us

AllAdded-Complete :
    (top : Channel) (us : List User) (ws : List (List ℕ × Channel)) (t : ProtoTree)
    → Closed ws
    → AllAdded ws (start top us) t
    → Complete t
unfolding node_at get_branch Closed
AllAdded-Complete top us ws t closed (good, keeps, fills, news) [] n =
    keeps [] (top, none_yet, us, refl)
AllAdded-Complete top us ws t closed (good, keeps, fills, news) (y ∷ p) n = elim (news (y ∷ p) n) [
  | inl (u, e) ↦ cc
  | inr (s, walked) ↦ fills (y ∷ p) (closed y p s walked)
]

-- A forest of channels with a channel 0, and whatever users there are, can be shown as a tree: every
-- walk is found, and every node that the walks make has a channel in the end.
pub into_channel-Returns :
    (channels : Dict Channel) (users : Dict User) (top : Channel)
    → AllRooted channels channels
    → get channels 0 ≡ some top
    → (c : Shown.Channel) × (into_channel channels users ≡ done c)
unfolding into_channel IsProper Returns
into_channel-Returns channels users top h there =
    let by_channel = channel_lookup [] users in
    let root_users = get_or (get by_channel 0) [] in
    let (c, returns, any) =
      Ends-exists (λ a. Unit) (into_channel channels users)
        (Ends->>= (λ ws. All IsStep ws × Closed ws) (λ a. Unit) (walks_of channels channels) _
          (walks_of-Closed channels h)
          λ ws (steps, closed). rw there (
            Ends->>= (AllAdded ws (start top root_users)) (λ a. Unit)
              (add_all by_channel ws (start top root_users)) _
              (add_all-AllAdded by_channel ws (start top root_users) steps tt)
              λ t added.
                to_channel-Returns t added.0
                  (AllAdded-Complete top root_users ws t closed added))) in
    (c, returns)
