-- ===== src/State/Server/Names.antt =====
-- Finding a channel by the end of its path.
use mum.Common.{
  ℕ, ◌≡◌, ◌↔◌, ◌⊎◌, inl, inr, refl, Text, Bool, false, List, [], ◌∷◌, All, keep_if, map, ends_with,
  done, ok, err, Outcome, panic, overrun, arith,
}
use mum.Common.Dict.{Dict}
use mum.Common.Only.{
  IsOnly, keep_if-eq-nil, keep_if-none, IsOnly-keep_if, keep_if-IsOnly, keep_if-map,
}
use mum.Mumlib.Error.{invalid, ambiguous}
use mum.State.Channel
use mum.State.Channel.{Channel}
use mum.State.Channel.Rooted.{Rooted, path-names}
use mum.State.Server.{paths, Named, soft_match, exact_match, channel_name}

done-injective {ℓ} : {A : Type ℓ} {a b : A} → done a ≡ done b → a ≡ b
done-injective h = cc

-- Every channel is a root, or hangs below one.
abbrev pub IsForest : Dict Channel → Type 0
IsForest channels = All (λ e. (n : ℕ) × Rooted channels n e.1) channels

-- The text of a path, where there is one.
abbrev text_of : Outcome Text → Text
text_of (done t) = t
text_of panic = []
text_of overrun = []

abbrev pub label : Dict Channel → ℕ × Channel → Text
label channels e = text_of (Channel.path channels e.1)

abbrev labelled : Dict Channel → ℕ × Channel → (ℕ × Channel) × Text
labelled channels e = (e, label channels e)

path-label :
    (channels : Dict Channel) (c : Channel) (id : ℕ) {n : ℕ}
    → Rooted channels n c
    → Channel.path channels c ≡ done (label channels (id, c))
path-label channels c id r = rw (path-names r)

paths-IsForest :
    (channels rest : Dict Channel)
    → All (λ e. (n : ℕ) × Rooted channels n e.1) rest
    → paths channels rest ≡ done (map (labelled channels) rest)
unfolding paths
paths-IsForest channels [] h = refl
paths-IsForest channels ((id, c) ∷ rest) h =
    rw (path-label channels c id h.0.1) (rw (paths-IsForest channels rest h.1))

-- The path of the channel ends with the name; the same with both in lower case.
abbrev pub exact : Dict Channel → Text → ℕ × Channel → Bool
exact channels name e = ends_with (label channels e) name

abbrev pub soft : (Text → Text) → Dict Channel → Text → ℕ × Channel → Bool
soft to_lowercase channels name e = ends_with (to_lowercase (label channels e)) (to_lowercase name)

-- The two matches in turn, on the channels that pass the tests.
chosen : List (ℕ × Channel) → List (ℕ × Channel) → Named
chosen (e ∷ []) softs = ok e
chosen (e ∷ f ∷ es) softs = err ambiguous
chosen [] (e ∷ []) = ok e
chosen [] (e ∷ f ∷ es) = err ambiguous
chosen [] [] = err invalid

chosen_lem :
    (channels : Dict Channel) (es fs : List (ℕ × Channel))
    → exact_match (map (labelled channels) es) (soft_match (map (labelled channels) fs))
      ≡ chosen es fs
unfolding exact_match soft_match chosen
chosen_lem channels [] [] = refl
chosen_lem channels [] (f ∷ []) = refl
chosen_lem channels [] (f ∷ g ∷ fs) = refl
chosen_lem channels (e ∷ []) fs = refl
chosen_lem channels (e ∷ d ∷ es) fs = refl

-- What it takes for a name to stand for a channel.
abbrev pub Names : (Text → Text) → Dict Channel → Text → ℕ × Channel → Type 0
Names to_lowercase channels name e =
    IsOnly (exact channels name) channels e
    ⊎ (All (λ d. exact channels name d ≡ false) channels
        × IsOnly (soft to_lowercase channels name) channels e)

module _ (to_lowercase : Text → Text) (channels : Dict Channel) (name : Text) where
  abbrev exacts : List (ℕ × Channel)
  exacts = keep_if (exact channels name) channels

  abbrev softs : List (ℕ × Channel)
  softs = keep_if (soft to_lowercase channels name) channels

  channel_name-chosen :
      IsForest channels → channel_name to_lowercase channels name ≡ done (chosen exacts softs)
  unfolding channel_name
  channel_name-chosen h =
      rw (paths-IsForest channels channels h)
        (simp keep_if-map (rw (chosen_lem channels exacts softs)))

chosen-eq-ok :
    (es fs : List (ℕ × Channel)) (e : ℕ × Channel)
    → chosen es fs ≡ ok e
    → (es ≡ e ∷ []) ⊎ ((es ≡ []) × (fs ≡ e ∷ []))
unfolding chosen
chosen-eq-ok [] [] e h = cc
chosen-eq-ok [] (f ∷ []) e h = inr (refl, ground arith)
chosen-eq-ok [] (f ∷ g ∷ fs) e h = cc
chosen-eq-ok (d ∷ []) fs e h = inl (ground arith)
chosen-eq-ok (d ∷ c ∷ es) fs e h = cc

chosen-eq-invalid :
    (es fs : List (ℕ × Channel)) → chosen es fs ≡ err invalid → (es ≡ []) × (fs ≡ [])
unfolding chosen
chosen-eq-invalid [] [] h = (refl, refl)
chosen-eq-invalid [] (f ∷ []) h = cc
chosen-eq-invalid [] (f ∷ g ∷ fs) h = cc
chosen-eq-invalid (d ∷ []) fs h = cc
chosen-eq-invalid (d ∷ c ∷ es) fs h = cc

-- In a forest of channels a name is answered by a channel exactly when that channel is the only one
-- whose path ends with the name, or no path does and the channel is the only one whose path ends
-- with it once both are in lower case.
pub channel_name-Names :
    (to_lowercase : Text → Text) (channels : Dict Channel) (name : Text) (e : ℕ × Channel)
    → IsForest channels
    → (channel_name to_lowercase channels name ≡ done (ok e)) ↔ Names to_lowercase channels name e
unfolding chosen
channel_name-Names lower channels name e h = (
  λ q.
      elim (chosen-eq-ok _ _ e
        (done-injective (rw (channel_name-chosen lower channels name h) at q))) [
          | inl one ↦ inl (IsOnly-keep_if (exact channels name) channels e one)
          | inr two ↦ inr (
            keep_if-eq-nil (exact channels name) channels two.0,
            IsOnly-keep_if (soft lower channels name) channels e two.1,
          )
        ],
  λ n. rw (channel_name-chosen lower channels name h) (elim n [
    | inl one ↦ rw (keep_if-IsOnly (exact channels name) channels e one)
    | inr two ↦ rw (
      keep_if-none (exact channels name) channels two.0,
      keep_if-IsOnly (soft lower channels name) channels e two.1,
    )
  ]),
)

-- In a forest of channels the name is reported invalid exactly when no path ends with it, not even
-- in lower case; the search always comes to an answer.
pub channel_name-invalid :
    (to_lowercase : Text → Text) (channels : Dict Channel) (name : Text)
    → IsForest channels
    → ((r : Named) × (channel_name to_lowercase channels name ≡ done r))
      × ((channel_name to_lowercase channels name ≡ done (err invalid)) ↔ (
          All (λ d. exact channels name d ≡ false) channels
          × All (λ d. soft to_lowercase channels name d ≡ false) channels))
unfolding chosen
channel_name-invalid lower channels name h = (
  (
    chosen (exacts lower channels name) (softs lower channels name),
    channel_name-chosen lower channels name h,
  ),
  (
    λ q.
        let two =
          chosen-eq-invalid _ _
            (done-injective (rw (channel_name-chosen lower channels name h) at q)) in
        (
          keep_if-eq-nil (exact channels name) channels two.0,
          keep_if-eq-nil (soft lower channels name) channels two.1,
        ),
    λ n. rw (
      channel_name-chosen lower channels name h,
      keep_if-none (exact channels name) channels n.0,
      keep_if-none (soft lower channels name) channels n.1,
    ),
  ),
)
