-- ===== src/Audio/Transformers/Gate.antt =====
-- What a noise gate lets through.
use mum.Common.{
  ℕ, zero, suc, ◌≡◌, refl, true, false, Option, some, none, List, [], ◌∷◌, All, take, Outcome, done,
  ◌>>=◌,
}
use mum.Mumlib.Command.{F32}
use mum.Audio.Transformers.{
  FloatOps, Frame, OpusChannels, NoiseGate, peak, high, is_loud, transform_gate, less_open,
}

abbrev collected : Option Frame → List Frame → List Frame
collected none fs = fs
collected (some f) fs = f ∷ fs

module _ (ops : FloatOps) where
  -- The gate after some frames, and the frames that it has let through.
  unfoldable pub run : NoiseGate → List Frame → Outcome (NoiseGate × List Frame)
  run g [] = done (g, [])
  run g (f ∷ fs) = do
    (h, out) ← transform_gate ops g f
    (i, outs) ← run h fs
    done (i, collected out outs)

  -- A frame that is measured, and is neither a new peak nor above a tenth of the highest so far.
  abbrev pub IsQuiet : F32 → Frame → Type 0
  IsQuiet top (channels, buf) =
      (m : F32) × (peak ops buf ≡ done m) × (ops.gt m top ≡ false) × (is_loud ops top m ≡ false)

  abbrev gate : F32 → ℕ → ℕ → NoiseGate
  gate top opened delay = record { alltime_high = top; opened = opened; deactivation_delay = delay }

  run-quiet :
      (fs : List Frame) (top : F32) (opened delay : ℕ)
      → All (IsQuiet top) fs
      → (h : NoiseGate) × (run (gate top opened delay) fs ≡ done (h, take (less_open opened) fs))
  unfolding run transform_gate
  run-quiet [] top zero delay h = (gate top zero delay, refl)
  run-quiet [] top (suc zero) delay h = (gate top 1 delay, refl)
  run-quiet [] top (suc (suc n)) delay h = (gate top (suc (suc n)) delay, refl)
  run-quiet ((c, buf) ∷ fs) top zero delay ((m, e, low, quiet), h) =
      let next = run-quiet fs top zero delay h in (next.0, rw (e, quiet, low, next.1))
  run-quiet ((c, buf) ∷ fs) top (suc zero) delay ((m, e, low, quiet), h) =
      let next = run-quiet fs top zero delay h in (next.0, rw (e, quiet, low, next.1))
  run-quiet ((c, buf) ∷ fs) top (suc (suc n)) delay ((m, e, low, quiet), h) =
      let next = run-quiet fs top (suc n) delay h in (next.0, rw (e, quiet, low, next.1))

  run-loud_gate :
      (c : OpusChannels) (buf : List F32) (fs : List Frame) (top : F32) (opened delay : ℕ)
      (max : F32)
      → peak ops buf ≡ done max
      → is_loud ops top max ≡ true
      → All (IsQuiet (high ops top max)) fs
      → (h : NoiseGate) × (run (gate top opened delay) ((c, buf) ∷ fs)
          ≡ done (h, take delay ((c, buf) ∷ fs)))
  unfolding run transform_gate
  run-loud_gate c buf fs top opened zero max e loud quiet =
      let next = run-quiet fs (high ops top max) zero zero quiet in (next.0, rw (e, loud, next.1))
  run-loud_gate c buf fs top opened (suc n) max e loud quiet =
      let next = run-quiet fs (high ops top max) (suc n) (suc n) quiet in
      (next.0, rw (e, loud, next.1))

  -- After a frame that is loud, of which the frames that follow are not, the gate lets through
  -- the first frames and drops the rest: as many as `deactivation_delay` pass.
  pub run-loud :
      (c : OpusChannels) (buf : List F32) (fs : List Frame) (g : NoiseGate) (max : F32)
      → peak ops buf ≡ done max
      → is_loud ops g.alltime_high max ≡ true
      → All (IsQuiet (high ops g.alltime_high max)) fs
      → (h : NoiseGate) × (run g ((c, buf) ∷ fs)
          ≡ done (h, take g.deactivation_delay ((c, buf) ∷ fs)))
  run-loud c buf fs g max e loud quiet =
      run-loud_gate c buf fs g.alltime_high g.opened g.deactivation_delay max e loud quiet
