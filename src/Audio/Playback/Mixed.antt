-- ===== src/Audio/Playback/Mixed.antt =====
-- What the callback plays at each place of the output.
use mum.Common.{
  ℕ, zero, suc, ◌<◌, ◌≡◌, refl, ap, ◌∙◌, Bool, false, inl, inr, Bool-cases, Option, some, none,
  get_or, List, [], ◌∷◌, if◌then◌else◌, arith,
}
use mum.Common.Dict.{Dict, get}
use mum.Mumlib.Command.{F32}
use mum.Audio.Output.{one}
use mum.Audio.Transformers.{FloatOps}
use mum.Audio.Playback.{
  Crates, ClientAudioData, ClientStreamKey, ClientStream, Samples, mix_client, mix_clients,
  mix_effects, silence, callback,
}

-- The queue of bounded length gives its samples up from the oldest to the newest.
pub record IsQueue {D R : Type 0} (crates : Crates D R) (contents : R → List F32) : Type 0 where
  pub pop_nil : (r : R) → contents r ≡ [] → crates.pop_ring r ≡ none
  pub pop_cons :
      (r : R) (x : F32) (xs : List F32)
      → contents r ≡ x ∷ xs
      → (s : R) × (crates.pop_ring r ≡ some (x, s)) × (contents s ≡ xs)

abbrev pub get_elem? {ℓ} : {A : Type ℓ} → List A → ℕ → Option A
get_elem? [] i = none
get_elem? (x ∷ xs) zero = some x
get_elem? (x ∷ xs) (suc i) = get_elem? xs i

-- The sample of a queue at a place, and silence behind its end.
abbrev pub sample_of : List F32 → ℕ → F32
sample_of xs i = get_or (get_elem? xs i) 0

module _ {D R T : Type 0} (crates : Crates D R) (ops : FloatOps) (samples : Samples T)
    (contents : R → List F32) where
  abbrev pub plus_voice : F32 → F32 → F32 → T → T
  plus_voice volume user_volume x t =
      samples.saturating_add t (samples.from (ops.times (ops.times x volume) user_volume))

  abbrev popped : R → F32 × R
  popped r = get_or (crates.pop_ring r) (0, r)

  popped-sample_of :
      IsQueue crates contents
      → (r : R)
      → ((popped r).0 ≡ sample_of (contents r) 0)
        × ((j : ℕ) → sample_of (contents (popped r).1) j ≡ sample_of (contents r) (suc j))
  popped-sample_of q r = go (contents r) refl
    where
      go :
          (xs : List F32)
          → contents r ≡ xs
          → ((popped r).0 ≡ sample_of (contents r) 0)
            × ((j : ℕ) → sample_of (contents (popped r).1) j ≡ sample_of (contents r) (suc j))
      go [] e = rw (q.pop_nil r e, e) (refl, λ j. refl)
      go (x ∷ xs) e = let (s, pops, left) = q.pop_cons r x xs e in rw (pops, e) (refl, λ j. rw left)

  mix_client-get_elem? :
      IsQueue crates contents
      → (volume user_volume : F32) (out : List T) (r : R) (i : ℕ) (t : T) → get_elem? out i ≡ some t
      → get_elem? (mix_client crates ops samples volume user_volume out r).0 i
        ≡ some (plus_voice volume user_volume (sample_of (contents r) i) t)
  unfolding mix_client
  mix_client-get_elem? q volume user [] r i t h = cc
  mix_client-get_elem? q volume user (d ∷ ds) r zero t h =
      rw ((popped-sample_of q r).0)
        (ap (λ u. some (plus_voice volume user (sample_of (contents r) 0) u)) (cc))
  mix_client-get_elem? q volume user (d ∷ ds) r (suc i) t h =
      mix_client-get_elem? q volume user ds (popped r).1 i t h ∙ rw ((popped-sample_of q r).1 i)

  -- The clients that are not muted, added up at one place of the output.
  abbrev pub mixed :
      F32 → Dict (F32 × Bool) → List (ClientStreamKey × ClientAudioData D R) → ℕ → T → T
  mixed volume user_volumes [] i t = t
  mixed volume user_volumes ((k, c) ∷ cs) i t =
      let entry = get_or (get user_volumes k.1) (one, false) in
      mixed volume user_volumes cs i
        (if entry.1 then t else plus_voice volume entry.0 (sample_of (contents c.buf) i) t)

  mix_clients-get_elem? :
      IsQueue crates contents
      → (volume : F32) (user_volumes : Dict (F32 × Bool))
        (cs : List (ClientStreamKey × ClientAudioData D R)) (out : List T) (i : ℕ) (t : T)
      → get_elem? out i ≡ some t
      → get_elem? (mix_clients crates ops samples volume user_volumes cs out).0 i
        ≡ some (mixed volume user_volumes cs i t)
  unfolding mix_clients
  mix_clients-get_elem? q volume user_volumes [] out i t h = h
  mix_clients-get_elem? q volume user_volumes ((k, c) ∷ cs) out i t h =
      elim (Bool-cases (get_or (get user_volumes k.1) (one, false)).1) [
        | inl muted ↦ rw muted (mix_clients-get_elem? q volume user_volumes cs out i t h)
        | inr heard ↦ rw heard (
            mix_clients-get_elem? q volume user_volumes cs _ i _
              (mix_client-get_elem? q volume _ out c.buf i t h))
      ]

  mix_effects-get_elem? :
      (volume : F32) (out : List T) (es : List F32) (i : ℕ) (t : T)
      → get_elem? out i ≡ some t
      → get_elem? (mix_effects crates ops samples volume out es).0 i
        ≡ some (samples.saturating_add t (samples.from (ops.times (sample_of es i) volume)))
  unfolding mix_effects
  mix_effects-get_elem? volume [] es i t h = cc
  mix_effects-get_elem? volume (d ∷ ds) [] zero t h = cc
  mix_effects-get_elem? volume (d ∷ ds) [] (suc i) t h = mix_effects-get_elem? volume ds [] i t h
  mix_effects-get_elem? volume (d ∷ ds) (e ∷ es) zero t h = cc
  mix_effects-get_elem? volume (d ∷ ds) (e ∷ es) (suc i) t h =
      mix_effects-get_elem? volume ds es i t h

  silence-get_elem? :
      (n i : ℕ) → i < n → get_elem? (silence crates ops samples n) i ≡ some (samples.from 0)
  silence-get_elem? zero i h = absurd (omega (arith, h))
  silence-get_elem? (suc n) zero h = refl
  silence-get_elem? (suc n) (suc i) h = silence-get_elem? n i (omega (arith, h))

  -- If the queues give their samples up in order, each place of the output is the sum, in the order
  -- of the clients, of the sample at that place in the queue of each client who is not muted, at the
  -- volume of the user, and of the sound effects, all at the volume of the output; a queue that is
  -- too short counts as silence.
  pub callback-mixed :
      IsQueue crates contents
      → (volume : F32) (user_volumes : Dict (F32 × Bool)) (s : ClientStream D R) (n i : ℕ) → i < n
      → get_elem? (callback crates ops samples volume user_volumes s n).0 i
        ≡ some (
            samples.saturating_add
              (mixed volume user_volumes s.buffer_clients i (samples.from 0))
              (samples.from (ops.times (sample_of s.buffer_effects i) volume)))
  unfolding callback
  callback-mixed q volume user_volumes s n i h =
      mix_effects-get_elem? volume _ s.buffer_effects i _ (
        mix_clients-get_elem? q volume user_volumes s.buffer_clients _ i _
          (silence-get_elem? n i h))
