-- ===== src/Audio/Input.antt =====
-- mum/src/audio/input.rs: the callback that cuts what the microphone hears into frames.
pub mod Frames
pub mod Stream
pub mod Sent
use mum.Common.{
  ℕ, zero, suc, ◌+◌, ◌-◌, Bool, true, false, Option, some, none, List, [], ◌∷◌, ◌++◌, map, length,
  take, drop, push, Outcome, done, panic, overrun, unwrap, ◌>>=◌, ltb, if◌then◌else◌,
}
use mum.Mumlib.Command.{F32}
use mum.State.Core.{StatePhase}
use mum.Audio.Transformers.{Frame, OpusChannels, mono, Transformer, FloatOps}

-- An encoded packet, as the Opus library writes it.
abbrev pub Packet : Type 0
Packet = List ℕ

-- What the callback is built with: the transformer's trait, the encoder of the Opus library, which
-- may fail, whether the channel has room for one more packet, and the size of a frame.
pub record Device (T : Type 0) (E : Type 0) (S : Type 0) : Type 0 where
  pub ops : FloatOps
  pub to_f32 : S → F32
  pub trait : Transformer T
  pub encode : E → List F32 → Option (E × Packet)
  pub has_room : List Packet → Bool
  pub buffer_size : ℕ

-- What the callback keeps from call to call. `sent` is the channel to the network.
pub record Microphone (T : Type 0) (E : Type 0) : Type 0 where
  pub buffer : List F32
  pub transformers : List T
  pub encoder : E
  pub sent : List Packet

module _ {T E S : Type 0} (device : Device T E S) where
  -- `try_fold`: each transformer in turn, until one does not want the buffer.
  unfoldable pub try_fold : List T → Frame → Outcome (List T × Option Frame)
  try_fold [] f = done ([], some f)
  try_fold (t ∷ ts) f = do
    (u, out) ← device.trait.transform t f
    elim out [
      | none ↦ done (u ∷ ts, none)
      | some g ↦ do (us, last) ← try_fold ts g; done (u ∷ us, last)
    ]

  -- `try_send`: a packet for which there is no room is lost.
  abbrev try_send : List Packet → Packet → List Packet
  try_send sent packet = if device.has_room sent then push sent packet else sent

  -- A buffer that a transformer does not want is lost; one that cannot be encoded panics.
  unfoldable pub deliver : Microphone T E → List T × Option Frame → Outcome (Microphone T E)
  deliver m (ts, none) = done (record m { buffer = []; transformers = ts })
  deliver m (ts, some f) = do
    (encoder, packet) ← unwrap (device.encode m.encoder f.1)
    done (record {
      buffer = [];
      transformers = ts;
      encoder = encoder;
      sent = try_send m.sent packet;
    })

  -- What is done with a full buffer, which is then cleared.
  unfoldable pub emit : Microphone T E → Outcome (Microphone T E)
  unfolding try_fold deliver
  emit m = do folded ← try_fold m.transformers (mono, m.buffer); deliver m folded

  -- The `while` loop and the `extend` after it. A buffer that is longer than a frame panics; the fuel
  -- bounds the frames.
  unfoldable pub fill : ℕ → Microphone T E → List F32 → Outcome (Microphone T E)
  unfolding emit
  fill zero m samples = overrun
  fill (suc fuel) m samples =
      if ltb device.buffer_size (length m.buffer + length samples)
      then (if ltb device.buffer_size (length m.buffer) then panic else do
        let room : ℕ = device.buffer_size - length m.buffer
        n ← emit (record m { buffer = m.buffer ++ take room samples })
        fill fuel n (drop room samples))
      else done (record m { buffer = m.buffer ++ samples })

  -- The callback; `volume` and `phase` are the values of the watched channels.
  unfoldable pub callback : F32 → StatePhase → Microphone T E → List S → Outcome (Microphone T E)
  unfolding fill
  callback volume (StatePhase.connected stream) m samples =
      fill (suc (length m.buffer + length samples)) m
        (map (λ e. device.ops.times (device.to_f32 e) volume) samples)
  callback volume _ m samples = done m
