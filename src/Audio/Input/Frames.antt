-- ===== src/Audio/Input/Frames.antt =====
-- The frames that the callback cuts, against a reference that takes sample after sample.
use mathlib.Core.List.{append_assoc, append-nil}
use mum.Common.{
  ℕ, zero, suc, ◌+◌, ◌-◌, ◌<◌, ◌≤◌, ◌≡◌, refl, sym, ap, ◌∙◌, true, inl, inr, Bool-cases, Option,
  some, none, List, [], ◌∷◌, ◌++◌, length, length-append, take, drop, length-take, length-drop,
  take-drop, push, Outcome, done, unwrap, ◌>>=◌, >>=-WhenDone, WhenDone, WhenDone-any, ltb, ltb_iff,
  le_of_not_ltb, ltb-true, ltb-false, if◌then◌else◌, arith,
}
use mum.Mumlib.Command.{F32}
use mum.Audio.Transformers.{Frame}
use mum.Audio.Input.{Device, Microphone, deliver, emit, fill, try_fold}

module _ {T E S : Type 0} (device : Device T E S) where
  -- The reference: a sample that finds the buffer full has it sent first.
  unfoldable pub hear : Microphone T E → List F32 → Outcome (Microphone T E)
  hear m [] = done m
  hear m (x ∷ xs) =
      if ltb (length m.buffer) device.buffer_size
      then hear (record m { buffer = push m.buffer x }) xs
      else do n ← emit device m; hear (record n { buffer = push n.buffer x }) xs

  abbrev pub IsEmpty : Microphone T E → Type 0
  IsEmpty m = m.buffer ≡ []

  deliver-IsEmpty :
      (m : Microphone T E) (r : List T × Option Frame) → WhenDone IsEmpty (deliver device m r)
  unfolding deliver
  deliver-IsEmpty m (ts, none) = refl
  deliver-IsEmpty m (ts, some f) =
      WhenDone-any IsEmpty (unwrap (device.encode m.encoder f.1)) _ λ e. refl

  pub emit-IsEmpty : (m : Microphone T E) → WhenDone IsEmpty (emit device m)
  unfolding emit
  emit-IsEmpty m = WhenDone-any IsEmpty (try_fold device m.transformers _) _ (deliver-IsEmpty m)

  pub hear-room :
      (xs ys : List F32) (m : Microphone T E)
      → length m.buffer + length xs ≤ device.buffer_size
      → hear m (xs ++ ys) ≡ hear (record m { buffer = m.buffer ++ xs }) ys
  unfolding hear
  hear-room [] ys m h = rw append-nil
  hear-room (x ∷ xs) ys m h = rw (
    ltb-true (length m.buffer) device.buffer_size (omega arith),
    hear-room xs ys (record m { buffer = push m.buffer x })
        (omega (arith, length-append m.buffer (x ∷ []))),
    append_assoc,
  )

  pub starts :
      (m : Microphone T E)
      → IsEmpty m
      → 0 < device.buffer_size
      → ltb (length m.buffer) device.buffer_size ≡ true
  starts m empty pos = ltb-true _ _ (omega (arith, ap length empty))

  -- A buffer that is full is sent when one more sample comes.
  pub hear-full :
      (ys : List F32) (m : Microphone T E)
      → 0 < length ys
      → length m.buffer ≡ device.buffer_size
      → 0 < device.buffer_size
      → hear m ys ≡ (emit device m >>= λ n. hear n ys)
  unfolding hear
  hear-full [] m any h pos = absurd (omega (arith, any))
  hear-full (y ∷ ys) m any h pos =
      rw (ltb-false (length m.buffer) device.buffer_size (omega arith)) (
        >>=-WhenDone IsEmpty (emit device m) _ _ (emit-IsEmpty m)
          λ n empty. rw (starts n empty pos))

  abbrev filled : Microphone T E → List F32 → Microphone T E
  filled m xs = record m { buffer = m.buffer ++ take (device.buffer_size - length m.buffer) xs }

  -- The first frame of samples that are too many for the buffer.
  hear-over :
      (xs : List F32) (m : Microphone T E)
      → 0 < device.buffer_size
      → length m.buffer ≤ device.buffer_size
      → device.buffer_size < length m.buffer + length xs
      → hear m xs ≡ (
          emit device (filled m xs) >>= λ n.
          hear n (drop (device.buffer_size - length m.buffer) xs))
  hear-over xs m pos low over =
      let room = device.buffer_size - length m.buffer in
      let size = length-take room xs (omega arith) in
      ap (hear m) (sym (take-drop room xs))
      ∙ hear-room (take room xs) (drop room xs) m (omega arith)
      ∙ hear-full (drop room xs) (filled m xs) (omega (arith, length-drop room xs))
          (omega (arith, length-append m.buffer (take room xs))) pos

  pub fill-hear :
      (fuel : ℕ) (m : Microphone T E) (xs : List F32)
      → 0 < device.buffer_size
      → length m.buffer ≤ device.buffer_size
      → length m.buffer + length xs < fuel
      → fill device fuel m xs ≡ hear m xs
  unfolding fill hear
  fill-hear zero m xs pos low h = absurd (omega (arith, h))
  fill-hear (suc fuel) m xs pos low h =
      let room = device.buffer_size - length m.buffer in
      elim (Bool-cases (ltb device.buffer_size (length m.buffer + length xs))) [
        | inr fits ↦
            rw fits
              (sym (ap (hear m) (sym (append-nil xs)) ∙ hear-room xs [] m (le_of_not_ltb _ _ fits)))
        | inl over ↦
            let more = (ltb_iff _ _).0 over in
            rw (over, ltb-false device.buffer_size (length m.buffer) low)
              (>>=-WhenDone IsEmpty (emit device (filled m xs)) _ _ (emit-IsEmpty (filled m xs))
                  (λ n empty.
                    fill-hear fuel n (drop room xs) pos (omega (arith, ap length empty))
                      (omega (arith, ap length empty, length-drop room xs)))
                ∙ sym (hear-over xs m pos low more))
      ]
