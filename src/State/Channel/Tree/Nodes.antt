-- ===== src/State/Channel/Tree/Nodes.antt =====
-- The nodes of the tree that the walks build.
use mathlib.Core.Path.{ap₂}
use mum.Common.{
  ℕ, ◌≡◌, refl, sym, ap, ◌∙◌, ◌⊎◌, inl, inr, false, Bool-cases, ==_iff, ==_refl, ◌==◌, Option, some,
  none, get_or, List, [], ◌∷◌, ◌++◌, Ends, Ends->>=, if◌then◌else◌, arith,
}
use mum.Common.Dict.{Dict, get}
use mum.State.User.{User}
use mum.State.Channel.{Channel}
use mum.State.Channel.Tree.{
  ProtoTree, proto, Branches, none_yet, branch, get_branch, set_branch, walk_and_add, place, empty,
}

pub get_branch-set_branch :
    (bs : Branches) (k : ℕ) (t : ProtoTree) (j : ℕ)
    → get_branch (set_branch bs k t) j ≡ (if k == j then some t else get_branch bs j)
unfolding get_branch set_branch
get_branch-set_branch none_yet k t j = refl
get_branch-set_branch (branch i u bs) k t j = ground (arith, get_branch-set_branch bs k t j)

-- The keys of a map are different.
unfoldable mutual
  pub IsProper : ProtoTree → Type 0
  IsProper (proto c bs us) = AreProper bs

  pub AreProper : Branches → Type 0
  AreProper none_yet = Unit
  AreProper (branch k t bs) = (get_branch bs k ≡ none) × IsProper t × AreProper bs

-- The node at the end of a path.
unfoldable pub node_at : ProtoTree → List ℕ → Option ProtoTree
node_at t [] = some t
node_at (proto c bs us) (k ∷ ks) = elim (get_branch bs k) [ none ↦ none | some u ↦ node_at u ks ]

abbrev pub HasNode : ProtoTree → List ℕ → Type 0
HasNode t p = (u : ProtoTree) × (node_at t p ≡ some u)

abbrev pub IsFilled : ProtoTree → List ℕ → Type 0
IsFilled t p =
    (c : Channel) × (bs : Branches) × (us : List User) × (node_at t p ≡ some (proto (some c) bs us))

unfoldable pub IsPrefix : List ℕ → List ℕ → Type 0
IsPrefix p w = (s : List ℕ) × (p ++ s ≡ w)

-- What a walk does to a tree: its end has a channel, no channel is lost, and nodes are only added on
-- the walk.
abbrev pub Added : List ℕ → ProtoTree → ProtoTree → Type 0
Added w t u =
    IsProper u
    × IsFilled u w
    × ((p : List ℕ) → IsFilled t p → IsFilled u p)
    × ((p : List ℕ) → HasNode u p → HasNode t p ⊎ IsPrefix p w)

AreProper-set_branch :
    (bs : Branches) (k : ℕ) (t : ProtoTree)
    → AreProper bs
    → IsProper t
    → AreProper (set_branch bs k t)
unfolding set_branch IsProper get_branch
AreProper-set_branch none_yet k t h p = (refl, p, tt)
AreProper-set_branch (branch j u bs) k t (new, proper, rest) p = elim (Bool-cases (j == k)) [
  | inl same ↦ rw same (new, p, rest)
  | inr other ↦
      rw other
        (ground (arith, get_branch-set_branch bs k t j), proper, AreProper-set_branch bs k t rest p)
]

get_branch-IsProper :
    (bs : Branches) (k : ℕ) → AreProper bs → IsProper (get_or (get_branch bs k) empty)
unfolding IsProper get_branch
get_branch-IsProper none_yet k h = tt
get_branch-IsProper (branch j u bs) k (new, proper, rest) = elim (Bool-cases (j == k)) [
  | inl same ↦ rw same proper
  | inr other ↦ rw other (get_branch-IsProper bs k rest)
]

-- The rest of a path, below a branch that may be there.
abbrev pub under : Option ProtoTree → List ℕ → Option ProtoTree
under none p = none
under (some u) p = node_at u p

pub node_at-under :
    (c : Option Channel) (bs : Branches) (us : List User) (j : ℕ) (p : List ℕ)
    → node_at (proto c bs us) (j ∷ p) ≡ under (get_branch bs j) p
unfolding node_at
node_at-under c bs us j p = go (get_branch bs j) refl
  where
    go : (o : Option ProtoTree) → get_branch bs j ≡ o → node_at (proto c bs us) (j ∷ p) ≡ under o p
    go none e = rw (node_at, e) refl
    go (some u) e = rw (node_at, e) refl

under-empty :
    (o : Option ProtoTree) (p : List ℕ) (u : ProtoTree)
    → under o p ≡ some u
    → node_at (get_or o empty) p ≡ some u
under-empty none p u h = cc
under-empty (some v) p u h = h

empty-under :
    (o : Option ProtoTree) (p : List ℕ) (u : ProtoTree)
    → node_at (get_or o empty) p ≡ some u
    → (under o p ≡ some u) ⊎ (p ≡ [])
unfolding node_at get_branch
empty-under none [] u h = inr refl
empty-under none (j ∷ p) u h = cc
empty-under (some v) p u h = inl h

channel_at : Option ProtoTree → Option Channel
channel_at none = none
channel_at (some (proto c bs us)) = c

-- A subtree is put in the place of what was there, or of an empty one.
module _ (c : Option Channel) (bs : Branches) (us : List User) (k : ℕ) (b : ProtoTree) where
  abbrev was : ProtoTree
  was = get_or (get_branch bs k) empty

  abbrev before : ProtoTree
  before = proto c bs us

  abbrev after : ProtoTree
  after = proto c (set_branch bs k b) us

  node_at-here : (p : List ℕ) → node_at after (k ∷ p) ≡ node_at b p
  node_at-here p =
      let found : get_branch (set_branch bs k b) k ≡ some b =
        rw (get_branch-set_branch bs k b k, ==_refl k) refl in
      node_at-under c (set_branch bs k b) us k p ∙ ap (λ o. under o p) found

  node_at-there :
      (j : ℕ) (p : List ℕ) → (k == j) ≡ false → node_at after (j ∷ p) ≡ node_at before (j ∷ p)
  node_at-there j p other =
      let found : get_branch (set_branch bs k b) j ≡ get_branch bs j =
        rw (get_branch-set_branch bs k b j, other) refl in
      node_at-under c (set_branch bs k b) us j p
      ∙ ap (λ o. under o p) found
      ∙ sym (node_at-under c bs us j p)

  set-keeps :
      ((p : List ℕ) → IsFilled was p → IsFilled b p)
      → (p : List ℕ) → IsFilled before p
      → IsFilled after p
  unfolding node_at channel_at
  set-keeps keeps [] (d, cs, vs, e) =
      let same : c ≡ some d = ap channel_at e in
      (d, set_branch bs k b, us, ap (λ c. some (proto c (set_branch bs k b) us)) same)
  set-keeps keeps (j ∷ p) (d, cs, vs, e) = elim (Bool-cases (k == j)) [
    | inl same ↦
        let e' : node_at before (k ∷ p) ≡ some (proto (some d) cs vs) =
          ap (λ i. node_at before (i ∷ p)) ((==_iff k j).0 same) ∙ e in
        let (f, ds, ws, g) =
          keeps p
            (d, cs, vs, under-empty (get_branch bs k) p _ (sym (node_at-under c bs us k p) ∙ e')) in
        (
          f,
          ds,
          ws,
          ap (λ i. node_at after (i ∷ p)) (sym ((==_iff k j).0 same)) ∙ node_at-here p ∙ g,
        )
    | inr other ↦ (d, cs, vs, node_at-there j p other ∙ e)
  ]

  set-news :
      (w : List ℕ)
      → ((p : List ℕ) → HasNode b p → HasNode was p ⊎ IsPrefix p w)
      → (p : List ℕ) → HasNode after p
      → HasNode before p ⊎ IsPrefix p (k ∷ w)
  unfolding node_at IsPrefix
  set-news w new [] h = inl (before, refl)
  set-news w new (j ∷ p) (u, e) = elim (Bool-cases (k == j)) [
    | inl same ↦
        let kj = (==_iff k j).0 same in
        let e' : node_at after (k ∷ p) ≡ some u = ap (λ i. node_at after (i ∷ p)) kj ∙ e in
        elim (new p (u, sym (node_at-here p) ∙ e')) [
          | inl (v, there) ↦ elim (empty-under (get_branch bs k) p v there) [
            | inl below ↦
                inl
                  (v, ap (λ i. node_at before (i ∷ p)) (sym kj) ∙ node_at-under c bs us k p ∙ below)
            | inr ends ↦ inr (w, ap₂ (λ i q. i ∷ (q ++ w)) (sym kj) ends)
          ]
          | inr (s, whole) ↦ inr (s, ap₂ ◌∷◌ (sym kj) whole)
        ]
    | inr other ↦ inl (u, sym (node_at-there j p other) ∙ e)
  ]

  set-Added :
      (w : List ℕ)
      → AreProper bs
      → IsProper b
      → IsFilled b w
      → ((p : List ℕ) → IsFilled was p → IsFilled b p)
      → ((p : List ℕ) → HasNode b p → HasNode was p ⊎ IsPrefix p w)
      → Added (k ∷ w) before after
  unfolding IsProper
  set-Added w proper good (d, cs, vs, e) keeps new = (
    AreProper-set_branch bs k b proper good,
    (d, cs, vs, node_at-here w ∙ e),
    set-keeps keeps,
    set-news w new,
  )

-- A channel that is placed where its walk ends.
placed :
    (ch : Channel) (users : List User) (t : ProtoTree) → IsProper t → Added [] t (place ch users t)
unfolding node_at IsProper IsPrefix
placed ch users (proto c bs us) proper = (proper, (ch, bs, users, refl), keeps, news)
  where
    keeps : (p : List ℕ) → IsFilled (proto c bs us) p → IsFilled (proto (some ch) bs users) p
    keeps [] h = (ch, bs, users, refl)
    keeps (j ∷ p) h = h

    news :
        (p : List ℕ)
        → HasNode (proto (some ch) bs users) p
        → HasNode (proto c bs us) p ⊎ IsPrefix p []
    news [] h = inr ([], refl)
    news (j ∷ p) h = inl h

-- A walk that is not empty adds its channel.
pub walk_and_add-Added :
    (ch : Channel) (users : Dict (List User)) (y : ℕ) (walk : List ℕ) (t : ProtoTree)
    → IsProper t
    → Ends (Added (y ∷ walk) t) (walk_and_add ch users (y ∷ walk) t)
unfolding walk_and_add IsProper
walk_and_add-Added ch users y [] (proto c bs us) proper =
    let (good, filled, keeps, news) =
      placed ch (get_or (get users y) []) (get_or (get_branch bs y) empty)
        (get_branch-IsProper bs y proper) in
    set-Added c bs us y (place ch (get_or (get users y) []) (get_or (get_branch bs y) empty)) []
      proper good filled keeps news
walk_and_add-Added ch users y (z ∷ walk) (proto c bs us) proper =
    Ends->>= (Added (z ∷ walk) (get_or (get_branch bs y) empty))
      (Added (y ∷ z ∷ walk) (proto c bs us))
      (walk_and_add ch users (z ∷ walk) (get_or (get_branch bs y) empty)) _
      (walk_and_add-Added ch users z walk (get_or (get_branch bs y) empty)
        (get_branch-IsProper bs y proper))
      λ b (good, filled, keeps, news).
        set-Added c bs us y b (z ∷ walk) proper good filled keeps news
