-- ===== src/Audio/Transformers.antt =====
-- mum/src/audio/transformers.rs: the noise gate.
pub mod Gate
use mum.Common.{
  ℕ, zero, suc, Bool, Option, some, none, List, [], ◌∷◌, map, Outcome, done, panic, unwrap, ◌>>=◌,
  if◌then◌else◌,
}
use Prim.Native.Nat.{Ordering}
use mum.Mumlib.Command.{F32}

-- The operations on `f32` that the code uses.
pub record FloatOps : Type 0 where
  pub abs : F32 → F32
  pub plus : F32 → F32 → F32
  pub times : F32 → F32 → F32
  pub lt : F32 → F32 → Bool
  pub gt : F32 → F32 → Bool
  pub partial_cmp : F32 → F32 → Option Ordering

-- `opus::Channels`.
pub data OpusChannels : Type 0 where
  mono : OpusChannels
  stereo : OpusChannels

-- What a transformer is given and gives back.
abbrev pub Frame : Type 0
Frame = OpusChannels × List F32

-- The trait: the transformer after the call, and the buffer if it is wanted.
pub record Transformer (T : Type 0) : Type 0 where
  pub transform : T → Frame → Outcome (T × Option Frame)

pub record NoiseGate : Type 0 where
  pub alltime_high : F32
  pub opened : ℕ
  pub deactivation_delay : ℕ

unfoldable pub new : ℕ → NoiseGate
new deactivation_delay = record {
  alltime_high = 0;
  opened = 0;
  deactivation_delay = deactivation_delay;
}

-- 0.1 as an `f32`.
abbrev pub mute_percentage : F32
mute_percentage = 0x3dcccccd

-- `Iterator::max_by`, which keeps the later of two that are equal.
abbrev larger : F32 → F32 → Ordering → F32
larger a b Ordering.lt = b
larger a b Ordering.eq = b
larger a b Ordering.gt = a

-- `open -= 1`, if it is not zero.
abbrev pub less_open : ℕ → ℕ
less_open zero = zero
less_open (suc n) = n

module _ (ops : FloatOps) where
  -- The comparison is unwrapped: a NaN panics.
  max_from : F32 → List F32 → Outcome F32
  max_from a [] = done a
  max_from a (b ∷ bs) = do o ← unwrap (ops.partial_cmp a b); max_from (larger a b o) bs

  max_by : List F32 → Outcome F32
  unfolding max_from
  max_by [] = panic
  max_by (a ∷ bs) = max_from a bs

  -- The largest absolute value of a buffer; an empty one panics.
  unfoldable pub peak : List F32 → Outcome F32
  unfolding max_by
  peak buf = max_by (map ops.abs buf)

  -- `alltime_high` after the buffer.
  abbrev pub high : F32 → F32 → F32
  high alltime_high max = if ops.gt max alltime_high then max else alltime_high

  abbrev pub is_loud : F32 → F32 → Bool
  is_loud alltime_high max = ops.gt max (ops.times (high alltime_high max) mute_percentage)

  unfoldable pub transform_gate : NoiseGate → Frame → Outcome (NoiseGate × Option Frame)
  transform_gate g (channels, buf) = do
    max ← peak buf
    let opened : ℕ = if is_loud g.alltime_high max then g.deactivation_delay else less_open g.opened
    done (
      record g { alltime_high = high g.alltime_high max; opened = opened },
      elim opened [ zero ↦ none | suc n ↦ some (channels, buf) ],
    )

  unfoldable pub noise_gate : Transformer NoiseGate
  unfolding transform_gate
  noise_gate = record { transform = transform_gate }
