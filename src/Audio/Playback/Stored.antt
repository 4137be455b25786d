-- ===== src/Audio/Playback/Stored.antt =====
-- What a packet of voice leaves in the queue of its user.
use mathlib.Core.List.{append_assoc, append-nil}
use mum.Common.{
  ◌+◌, ◌-◌, ◌⊎◌, inl, inr, Bool-cases, ltb, ltb_iff, le_of_not_ltb, ℕ, zero, suc, ◌*◌, ◌<◌, ◌≤◌,
  ◌≡◌, refl, sym, ap, ◌∙◌, some, List, [], ◌∷◌, ◌++◌, length, take, drop, length-append,
  length-drop, push, done, arith,
}
use mum.Mumlib.Command.{F32}
use mum.Audio.Transformers.{OpusChannels}
use mum.Audio.Playback.{
  Crates, ClientAudioData, push_all, store_packet, adapted, zeros, count, decoder_for, set_decoder,
}

-- The newest samples, so many at most.
abbrev pub newest {ℓ} : {A : Type ℓ} → ℕ → List A → List A
newest n xs = drop (length xs - n) xs

-- A queue of bounded length: `contents` are its samples, the oldest first, and `bound` how many it can
-- hold. While there is room a sample is added, and a full queue drops its oldest for it.
pub record IsBounded {D R : Type 0} (crates : Crates D R) (contents : R → List F32) (bound : R → ℕ)
    : Type 0 where
  pub push_bound : (r : R) (x : F32) → bound (crates.push_ring r x) ≡ bound r
  pub push_room :
      (r : R) (x : F32)
      → length (contents r) < bound r
      → contents (crates.push_ring r x) ≡ push (contents r) x
  pub push_full :
      (r : R) (x : F32)
      → 0 < bound r
      → length (contents r) ≡ bound r
      → contents (crates.push_ring r x) ≡ drop 1 (push (contents r) x)

drop-append-le {ℓ} :
    {A : Type ℓ} (n : ℕ) (xs ys : List A) → n ≤ length xs → drop n (xs ++ ys) ≡ drop n xs ++ ys
drop-append-le zero xs ys h = refl
drop-append-le (suc n) [] ys h = absurd (omega (arith, h))
drop-append-le (suc n) (x ∷ xs) ys h = drop-append-le n xs ys (omega arith)

drop-nil {ℓ} : {A : Type ℓ} (n : ℕ) → ◌≡◌ {A = List A} [] (drop n [])
drop-nil zero = refl
drop-nil (suc n) = refl

drop-drop {ℓ} : {A : Type ℓ} (m n : ℕ) (xs : List A) → drop m (drop n xs) ≡ drop (n + m) xs
drop-drop m zero xs = let same : m ≡ 0 + m = omega arith in ap (λ i. drop i xs) same
drop-drop zero (suc n) [] = drop-nil (suc n + 0)
drop-drop (suc m) (suc n) [] = drop-nil (suc n + suc m)
drop-drop m (suc n) (x ∷ xs) =
    let later : suc (n + m) ≡ suc n + m = omega arith in
    drop-drop m n xs ∙ ap (λ i. drop i (x ∷ xs)) later

-- What is dropped first does not matter to what is newest in the end.
newest-append {ℓ} :
    {A : Type ℓ} (n : ℕ) (xs ys : List A) → newest n (newest n xs ++ ys) ≡ newest n (xs ++ ys)
newest-append n xs ys =
    let k = length xs - n in
    let below : k ≤ length xs = omega arith in
    let cut : drop k xs ++ ys ≡ drop k (xs ++ ys) = sym (drop-append-le k xs ys below) in
    ap (newest n) cut
    ∙ drop-drop (length (drop k (xs ++ ys)) - n) k (xs ++ ys)
    ∙ ap (λ i. drop i (xs ++ ys))
        (omega (arith, below, length-drop k (xs ++ ys), length-append xs ys))

newest-all {ℓ} : {A : Type ℓ} (n : ℕ) (xs : List A) → length xs ≤ n → newest n xs ≡ xs
newest-all n xs h = let none_over : length xs - n ≡ 0 = omega (arith, h) in rw none_over refl

cases_le : (m n : ℕ) → m ≤ n → (m < n) ⊎ (m ≡ n)
cases_le m n h = elim (Bool-cases (ltb m n)) [
  | inl less ↦ inl ((ltb_iff m n).0 less)
  | inr not_less ↦ let above = le_of_not_ltb m n not_less in inr (omega (arith, h, above))
]

module _ {D R : Type 0} (crates : Crates D R) (contents : R → List F32) (bound : R → ℕ)
    (ring : IsBounded crates contents bound) where
  push_ring-newest :
      (r : R) (x : F32)
      → 0 < bound r
      → length (contents r) ≤ bound r
      → contents (crates.push_ring r x) ≡ newest (bound r) (push (contents r) x)
  push_ring-newest r x pos fits =
      let size = length-append (contents r) (x ∷ []) in
      elim (cases_le (length (contents r)) (bound r) fits) [
        | inl room ↦
            ring.push_room r x room
            ∙ sym (newest-all (bound r) (push (contents r) x) (omega (arith, size, room)))
        | inr full ↦
            let one : length (push (contents r) x) - bound r ≡ 1 = omega (arith, size, full) in
            ring.push_full r x pos full ∙ ap (λ i. drop i (push (contents r) x)) (sym one)
      ]

  push_all-newest :
      (r : R) (xs : List F32)
      → 0 < bound r
      → length (contents r) ≤ bound r
      → contents (push_all crates r xs) ≡ newest (bound r) (contents r ++ xs)
  unfolding push_all
  push_all-newest r [] pos fits =
      sym (append-nil (contents r))
      ∙ sym (
          newest-all (bound r) (contents r ++ [])
            (omega (arith, fits, length-append (contents r) [])))
  push_all-newest r (x ∷ xs) pos fits =
      let one = push_ring-newest r x pos fits in
      let still : length (contents (crates.push_ring r x)) ≤ bound r = rw one (
        omega
          (arith, length-drop (length (push (contents r) x) - bound r) (push (contents r) x))) in
      push_all-newest (crates.push_ring r x) xs (rw (ring.push_bound r x) pos)
        (rw (ring.push_bound r x) still)
      ∙ rw (ring.push_bound r x, one)
          (newest-append (bound r) (push (contents r) x) xs
            ∙ ap (newest (bound r)) (append_assoc (contents r) (x ∷ []) xs))

  -- What is pushed for a packet of so many channels.
  abbrev pub stored : ClientAudioData D R → OpusChannels → List F32 → ℕ → List F32
  stored c channels out parsed = adapted channels c.output_channels (take parsed out)

  abbrev kept : ClientAudioData D R → OpusChannels → D → List F32 → ClientAudioData D R
  kept c channels d new = record (set_decoder crates c channels d) {
    buf = push_all crates c.buf new;
  }

  -- If the queue of the user can hold samples and holds no more than that, a packet that is decoded adds its samples at the end,
  -- and the queue keeps as many of the newest as it can hold.
  pub store_packet-newest :
      (c : ClientAudioData D R) (bytes : List ℕ) (channels : OpusChannels) (d : D) (out : List F32)
      (parsed : ℕ)
      → 0 < bound c.buf
      → length (contents c.buf) ≤ bound c.buf
      → crates.get_nb_channels bytes ≡ some channels
      → crates.decode_float (decoder_for crates c channels) bytes (zeros (720 * count channels * 4))
        ≡ some (d, out, parsed)
      → (e : ClientAudioData D R) × (store_packet crates c bytes ≡ done e)
        × (contents e.buf ≡ newest (bound c.buf) (contents c.buf ++ stored c channels out parsed))
  unfolding store_packet
  store_packet-newest c bytes channels d out parsed pos fits kind decodes =
      let new = stored c channels out parsed in
      (kept c channels d new, rw (kind, decodes) refl, push_all-newest c.buf new pos fits)
