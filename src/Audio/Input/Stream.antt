-- ===== src/Audio/Input/Stream.antt =====
-- What the microphone hears as one stream, however it is handed to the callback.
use mathlib.Core.List.{append_assoc, append-nil, map-append}
use mum.Common.{
  suc, ◌+◌, ◌<◌, ◌≤◌, ◌≡◌, refl, sym, ap, ◌∙◌, inl, inr, Bool-cases, List, [], ◌∷◌, ◌++◌, All, map,
  length, length-append, length-map, push, Outcome, done, ◌>>=◌, >>=-WhenDone, >>=-assoc, WhenDone,
  WhenDone->>=, ltb, ltb_iff, arith,
}
use mum.Mumlib.Command.{F32}
use mum.State.Core.{StatePhase, VoiceStreamType}
use mum.Audio.Input.{Device, Microphone, emit, callback}
use mum.Audio.Input.Frames.{hear, IsEmpty, emit-IsEmpty, hear-room, hear-full, fill-hear}

abbrev pub concat : List (List F32) → List F32
concat [] = []
concat (f ∷ fs) = f ++ concat fs

module _ {T E S : Type 0} (device : Device T E S) where
  -- The buffer holds at most a frame.
  abbrev pub Fits : Microphone T E → Type 0
  Fits m = length m.buffer ≤ device.buffer_size

  hear-append :
      (xs ys : List F32) (m : Microphone T E)
      → hear device m (xs ++ ys) ≡ (hear device m xs >>= λ n. hear device n ys)
  unfolding hear
  hear-append [] ys m = refl
  hear-append (x ∷ xs) ys m = elim (Bool-cases (ltb (length m.buffer) device.buffer_size)) [
    | inl room ↦ rw room (hear-append xs ys _)
    | inr full ↦ rw full (
        (>>=-WhenDone (IsEmpty device) (emit device m) _ _ (emit-IsEmpty device m)
          (λ n empty. hear-append xs ys (record n { buffer = push n.buffer x })))
        ∙ sym (>>=-assoc (emit device m) _ _))
  ]

  hear-Fits :
      (xs : List F32) (m : Microphone T E)
      → 0 < device.buffer_size
      → Fits m
      → WhenDone Fits (hear device m xs)
  unfolding hear
  hear-Fits [] m pos low = low
  hear-Fits (x ∷ xs) m pos low = elim (Bool-cases (ltb (length m.buffer) device.buffer_size)) [
    | inl room ↦ rw room (
        hear-Fits xs (record m { buffer = push m.buffer x }) pos
          (omega (arith, (ltb_iff _ _).0 room, length-append m.buffer (x ∷ []))))
    | inr full ↦ rw full (
        WhenDone->>= (IsEmpty device) Fits (emit device m) _ (emit-IsEmpty device m) λ n empty.
          hear-Fits xs (record n { buffer = push n.buffer x }) pos
            (omega (arith, ap length empty, length-append n.buffer (x ∷ []))))
  ]

  -- The samples as they are put in the buffer.
  abbrev pub heard : F32 → List S → List F32
  heard volume samples = map (λ e. device.ops.times (device.to_f32 e) volume) samples

  callback-hear :
      (volume : F32) (stream : VoiceStreamType) (m : Microphone T E) (samples : List S)
      → 0 < device.buffer_size
      → Fits m
      → callback device volume (StatePhase.connected stream) m samples
        ≡ hear device m (heard volume samples)
  unfolding callback
  callback-hear volume stream m samples pos low =
      fill-hear device (suc (length m.buffer + length samples)) m (heard volume samples) pos low
        (omega (arith, length-map samples (λ e. device.ops.times (device.to_f32 e) volume)))

  -- While connected, and if frames are not empty and the buffer holds at most one, samples that
  -- come in two calls do to the frames, the transformers, the encoder, the packets and the buffer
  -- just what they do in one call.
  pub callback-append :
      (volume : F32) (stream other : VoiceStreamType) (m : Microphone T E) (xs ys : List S)
      → 0 < device.buffer_size
      → Fits m
      → callback device volume (StatePhase.connected stream) m (xs ++ ys) ≡ (
          callback device volume (StatePhase.connected stream) m xs >>= λ n.
          callback device volume (StatePhase.connected other) n ys)
  callback-append volume stream other m xs ys pos low =
      rw
        (callback-hear volume stream m (xs ++ ys) pos low, callback-hear volume stream m xs pos low)
        (ap (hear device m) (map-append (λ e. device.ops.times (device.to_f32 e) volume) xs ys)
          ∙ hear-append (heard volume xs) (heard volume ys) m
          ∙ sym (
              >>=-WhenDone Fits (hear device m (heard volume xs)) _ _
                (hear-Fits (heard volume xs) m pos low)
                (λ n fits. callback-hear volume other n ys pos fits)))

  -- What is done with frames, one after the other.
  unfoldable pub emit_all : Microphone T E → List (List F32) → Outcome (Microphone T E)
  emit_all m [] = done m
  emit_all m (f ∷ fs) = do n ← emit device (record m { buffer = f }); emit_all n fs

  abbrev pub IsFrame : List F32 → Type 0
  IsFrame f = length f ≡ device.buffer_size

  hear-frames :
      (fs : List (List F32)) (rest : List F32) (m : Microphone T E)
      → 0 < device.buffer_size
      → All IsFrame fs
      → 0 < length rest
      → length rest ≤ device.buffer_size
      → hear device (record m { buffer = [] }) (concat fs ++ rest)
        ≡ (emit_all m fs >>= λ n. done (record n { buffer = rest }))
  unfolding hear emit_all
  hear-frames [] rest m pos h any low =
      ap (hear device (record m { buffer = [] })) (sym (append-nil rest))
      ∙ hear-room device rest [] (record m { buffer = [] }) (omega arith)
  hear-frames (f ∷ fs) rest m pos (size, h) any low =
      let later = concat fs ++ rest in
      let full : Microphone T E = record m { buffer = f } in
      ap (hear device (record m { buffer = [] })) (append_assoc f (concat fs) rest)
      ∙ hear-room device f later (record m { buffer = [] }) (omega (arith, size))
      ∙ hear-full device later full (omega (arith, length-append (concat fs) rest)) size pos
      ∙ >>=-WhenDone (IsEmpty device) (emit device full) _ _ (emit-IsEmpty device full) (λ n empty.
        ap (λ b. hear device (record n { buffer = b }) later) empty
        ∙ hear-frames fs rest n pos h any low)
      ∙ sym (>>=-assoc (emit device full) _ _)

  -- While connected, and if frames are not empty and the buffer holds at most one, the callback
  -- does to the frames in which the samples, after those in the buffer, are cut, each as long as a
  -- frame is, what it does to a full buffer, and keeps what is left in the buffer, which is one
  -- sample at least and at most a frame.
  pub callback-emit_all :
      (volume : F32) (stream : VoiceStreamType) (m : Microphone T E) (samples : List S)
      (fs : List (List F32)) (rest : List F32)
      → 0 < device.buffer_size
      → Fits m
      → m.buffer ++ heard volume samples ≡ concat fs ++ rest
      → All IsFrame fs
      → 0 < length rest
      → length rest ≤ device.buffer_size
      → callback device volume (StatePhase.connected stream) m samples
        ≡ (emit_all m fs >>= λ n. done (record n { buffer = rest }))
  callback-emit_all volume stream m samples fs rest pos low cut h any within =
      callback-hear volume stream m samples pos low
      ∙ sym (
          hear-room device m.buffer (heard volume samples) (record m { buffer = [] }) (omega arith))
      ∙ ap (hear device (record m { buffer = [] })) cut
      ∙ hear-frames fs rest m pos h any within
