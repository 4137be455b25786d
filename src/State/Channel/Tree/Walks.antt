-- ===== src/State/Channel/Tree/Walks.antt =====
-- The walks from below the root to each channel.
use mathlib.Core.List.{append_assoc, append-nil}
use mathlib.Core.Path.{subst, ap₂}
use mum.Common.{
  ℕ, zero, suc, ◌<◌, ◌≡◌, refl, sym, ap, ◌∙◌, ◌⊎◌, inl, inr, Bool-cases, ==_iff, ◌==◌, some, none,
  List, [], ◌∷◌, ◌++◌, All, push, length, done, Ends, Ends->>=, Ends-imp, arith,
}
use mum.Common.Dict.{Dict, get, All-get}
use mum.State.Channel.{Channel}
use mum.State.Channel.Rooted.{Rooted, root, below, Rooted-le-length}
use mum.State.Channel.Tree.{climb, walks_of}

-- `n` steps lead from a channel up to a root, over the channels of the walk.
pub data Leads (channels : Dict Channel) : ℕ → ℕ → List ℕ → Type 0 where
  at_root :
      {id : ℕ} (c : Channel)
      → get channels id ≡ some c
      → c.parent ≡ none
      → Leads channels zero id []
  on :
      {n id : ℕ} (c : Channel) (next : ℕ) (walk : List ℕ)
      → get channels id ≡ some c
      → c.parent ≡ some next
      → Leads channels n next walk
      → Leads channels (suc n) id (push walk id)

Rooted-Leads :
    {channels : Dict Channel} {n : ℕ} {c : Channel} (id : ℕ)
    → get channels id ≡ some c
    → Rooted channels n c
    → (walk : List ℕ) × Leads channels n id walk
Rooted-Leads id h (root {c} e) = ([], at_root c h e)
Rooted-Leads id h (below {c = c} t p e g r) =
    let (walk, leads) = Rooted-Leads t g r in (push walk id, on c t walk h e leads)

climb-Leads :
    {channels : Dict Channel} {n id : ℕ} {walk : List ℕ} (fuel : ℕ) (above : List ℕ)
    → n < fuel
    → Leads channels n id walk
    → climb fuel channels id above ≡ done (walk ++ above)
unfolding climb
climb-Leads zero above h l = absurd (omega (arith, h))
climb-Leads (suc fuel) above h (at_root c g e) = rw (g, e) refl
climb-Leads {id = id} (suc fuel) above h (on c next walk g e l) =
    rw (g, e)
      (climb-Leads fuel (id ∷ above) (omega arith) l
        ∙ ap done (sym (append_assoc walk (id ∷ []) above)))

-- A walk that is not empty and begins another is the walk of a channel too.
IsPrefix : List ℕ → List ℕ → Type 0
IsPrefix p w = (s : List ℕ) × (p ++ s ≡ w)

shorter :
    (p s w : List ℕ) (x : ℕ) → p ++ s ≡ push w x → (p ≡ push w x) ⊎ ((r : List ℕ) × (p ++ r ≡ w))
shorter [] s w x h = inr (w, refl)
shorter (y ∷ []) s [] x h = inl (cc)
shorter (y ∷ q ∷ p) s [] x h = cc
shorter (y ∷ p) s (z ∷ w) x h =
    let same : y ≡ z = cc in
    let rest : p ++ s ≡ push w x = cc in
    elim (shorter p s w x rest) [
      | inl whole ↦ inl (ap₂ ◌∷◌ same whole)
      | inr (r, part) ↦ inr (r, ap₂ ◌∷◌ same part)
    ]

Leads-prefix :
    {channels : Dict Channel} {n id : ℕ} {w : List ℕ} (y : ℕ) (p s : List ℕ)
    → Leads channels n id w
    → (y ∷ p) ++ s ≡ w
    → (m : ℕ) × (j : ℕ) × Leads channels m j (y ∷ p)
Leads-prefix y p s (at_root c g e) h = cc
Leads-prefix {channels} {id = id} y p s (on {n = n} c next walk g e l) h =
    elim (shorter (y ∷ p) s walk id h) [
      | inl whole ↦
          (suc n, id, subst (Leads channels (suc n) id) (sym whole) (on c next walk g e l))
      | inr (r, part) ↦ Leads-prefix y p r l part
    ]

-- A walk is among those that are followed.
unfoldable pub Has : List ℕ → List (List ℕ × Channel) → Type 0
Has p [] = ⊥
Has p (e ∷ es) = (p ≡ e.0) ⊎ Has p es

-- The channels that are followed have walks, and those of the channels of the map are followed.
IsWalk : Dict Channel → List ℕ × Channel → Type 0
IsWalk channels e =
    (y : ℕ) × (p : List ℕ) × (n : ℕ) × (id : ℕ) × (e.0 ≡ y ∷ p) × Leads channels n id e.0

Key : ℕ → Dict Channel → Type 0
Key id [] = ⊥
Key id ((j, c) ∷ rest) = (id ≡ j) ⊎ Key id rest

get-Key : (d : Dict Channel) (id : ℕ) (c : Channel) → get d id ≡ some c → Key id d
unfolding get Key
get-Key [] id c h = cc
get-Key ((j, d) ∷ rest) id c h = elim (Bool-cases (j == id)) [
  | inl same ↦ inl (sym ((==_iff j id).0 same))
  | inr other ↦ inr (get-Key rest id c (rw other at h))
]

Follows : Dict Channel → Dict Channel → List (List ℕ × Channel) → Type 0
Follows channels rest ws =
    All (IsWalk channels) ws
    × ((n id y : ℕ) (p : List ℕ) → Key id rest → Leads channels n id (y ∷ p) → Has (y ∷ p) ws)

-- A walk is the only one of its channel.
Leads-Leads :
    {channels : Dict Channel} {m n id : ℕ} {v w : List ℕ}
    → Leads channels m id v
    → Leads channels n id w
    → v ≡ w
Leads-Leads (at_root c g e) (at_root d h f) = refl
Leads-Leads (at_root c g e) (on d next w h f k) = cc
Leads-Leads (on c next v g e l) (at_root d h f) = cc
Leads-Leads {channels} {id = id} (on c next v g e l) (on {n = n} d other w h f k) =
    let same : other ≡ next = cc in
    ap (λ u. push u id) (Leads-Leads l (subst (λ i. Leads channels n i w) same k))

-- The walk of an entry, which is found within the fuel.
Found : Dict Channel → ℕ × Channel → Type 0
Found channels e = (n : ℕ) × (w : List ℕ) × Leads channels n e.0 w × (n < suc (length channels))

abbrev add_walk : List ℕ → Channel → List (List ℕ × Channel) → List (List ℕ × Channel)
add_walk w c walks = elim w [ [] ↦ walks | step ∷ steps ↦ (step ∷ steps, c) ∷ walks ]

add_walk-Follows :
    {channels : Dict Channel} {n : ℕ} (id : ℕ) (c : Channel) (w : List ℕ) (rest : Dict Channel)
    (ws : List (List ℕ × Channel))
    → Leads channels n id w
    → Follows channels rest ws
    → Follows channels ((id, c) ∷ rest) (add_walk w c ws)
unfolding Follows Key Has IsWalk
add_walk-Follows {channels} id c [] rest ws l (walks, has) = (
  walks,
  λ m j y p key k. elim key [
    | inl same ↦
        let none_here = Leads-Leads l (subst (λ i. Leads channels m i (y ∷ p)) same k) in cc
    | inr later ↦ has m j y p later k
  ],
)
add_walk-Follows {channels} {n} id c (x ∷ q) rest ws l (walks, has) = (
  ((x, q, n, id, refl, l), walks),
  λ m j y p key k. elim key [
    | inl same ↦ inl (sym (Leads-Leads l (subst (λ i. Leads channels m i (y ∷ p)) same k)))
    | inr later ↦ inr (has m j y p later k)
  ],
)

walks_of-Follows :
    (channels rest : Dict Channel)
    → All (Found channels) rest
    → Ends (Follows channels rest) (walks_of channels rest)
unfolding walks_of Found Follows Key Has
walks_of-Follows channels [] h = (tt, λ n id y p key l. key)
walks_of-Follows channels ((id, c) ∷ rest) ((n, w, l, low), h) =
    rw (climb-Leads (suc (length channels)) [] low l) (
      Ends->>= (Follows channels rest) (Follows channels ((id, c) ∷ rest)) (walks_of channels rest)
        _ (walks_of-Follows channels rest h)
        λ ws f.
          subst (λ v. Follows channels ((id, c) ∷ rest) (add_walk v c ws)) (sym (append-nil w))
            (add_walk-Follows id c w rest ws l f))

Key-get : (d : Dict Channel) (id : ℕ) → Key id d → (c : Channel) × (get d id ≡ some c)
unfolding get Key
Key-get [] id h = absurd h
Key-get ((j, c) ∷ d) id h = elim (Bool-cases (j == id)) [
  | inl same ↦ (c, rw same refl)
  | inr other ↦ elim h [
    | inl here ↦ ground arith
    | inr later ↦ let (e, g) = Key-get d id later in (e, rw other g)
  ]
]

-- Every channel is a root, or hangs below one.
abbrev pub AllRooted : Dict Channel → Dict Channel → Type 0
AllRooted channels rest = All (λ e. (n : ℕ) × Rooted channels n e.1) rest

AllRooted-Found :
    (channels rest : Dict Channel)
    → AllRooted channels channels
    → ((id : ℕ) → Key id rest → Key id channels)
    → All (Found channels) rest
unfolding Found Key
AllRooted-Found channels [] h keys = tt
AllRooted-Found channels ((id, c) ∷ rest) h keys =
    let (d, g) = Key-get channels id (keys id (inl refl)) in
    let (n, r) = All-get (λ c. (n : ℕ) × Rooted channels n c) channels id d g h in
    let (w, l) = Rooted-Leads id g r in
    (
      (n, w, l, omega (arith, Rooted-le-length n r)),
      AllRooted-Found channels rest h λ j k. keys j (inr k),
    )

Leads-Key :
    {channels : Dict Channel} {n id : ℕ} {w : List ℕ} → Leads channels n id w → Key id channels
Leads-Key {channels} {id = id} (at_root c g e) = get-Key channels id c g
Leads-Key {channels} {id = id} (on c next w g e l) = get-Key channels id c g

Has-IsWalk :
    {channels : Dict Channel} (p : List ℕ) (ws : List (List ℕ × Channel))
    → All (IsWalk channels) ws
    → Has p ws
    → (n : ℕ) × (id : ℕ) × Leads channels n id p
unfolding Has IsWalk
Has-IsWalk p [] h k = absurd k
Has-IsWalk {channels} p (e ∷ ws) ((y, q, n, id, nonempty, l), rest) k = elim k [
  | inl same ↦ (n, id, subst (Leads channels n id) (sym same) l)
  | inr later ↦ Has-IsWalk p ws rest later
]

-- The beginnings of the walks are walks.
unfoldable pub Closed : List (List ℕ × Channel) → Type 0
Closed ws = (y : ℕ) (p s : List ℕ) → Has ((y ∷ p) ++ s) ws → Has (y ∷ p) ws

abbrev pub IsStep : List ℕ × Channel → Type 0
IsStep e = (y : ℕ) × (p : List ℕ) × (e.0 ≡ y ∷ p)

AllSteps :
    (channels : Dict Channel) (ws : List (List ℕ × Channel))
    → All (IsWalk channels) ws
    → All IsStep ws
unfolding IsWalk
AllSteps channels [] h = tt
AllSteps channels (e ∷ ws) ((y, p, n, id, nonempty, l), rest) =
    ((y, p, nonempty), AllSteps channels ws rest)

pub walks_of-Closed :
    (channels : Dict Channel)
    → AllRooted channels channels
    → Ends (λ ws. All IsStep ws × Closed ws) (walks_of channels channels)
unfolding Follows Closed
walks_of-Closed channels h =
    Ends-imp (Follows channels channels) (λ ws. All IsStep ws × Closed ws)
      (walks_of channels channels)
      (walks_of-Follows channels channels (AllRooted-Found channels channels h λ id k. k))
      λ ws (walks, has). (
        AllSteps channels ws walks,
        λ y p s k.
            let (n, id, l) = Has-IsWalk ((y ∷ p) ++ s) ws walks k in
            let (m, j, short) = Leads-prefix y p s l refl in has m j y p (Leads-Key short) short,
      )
