-- ===== src/Audio/Input/Sent.antt =====
-- Which packets the microphone sends.
use mum.Common.{
  ◌<◌, ◌≤◌, ◌≡◌, refl, ◌∙◌, true, false, Option, some, none, List, [], ◌∷◌, ◌++◌, All, length, done,
  ◌>>=◌,
}
use mum.Mumlib.Command.{F32}
use mum.State.Core.{StatePhase, VoiceStreamType}
use mum.Audio.Transformers.{Frame, mono}
use mum.Audio.Input.{Packet, Device, Microphone, try_fold, deliver, emit, callback}
use mum.Audio.Input.Stream.{concat, Fits, heard, IsFrame, emit_all, callback-emit_all}

-- A frame that goes through the transformers in turn, up to one that does not want it: what they
-- become, and what comes out.
pub data Folds {T E S : Type 0} (device : Device T E S)
    : List T → Frame → List T → Option Frame → Type 0 where
  through : {f : Frame} → Folds device [] f [] (some f)
  unwanted :
      {t u : T} {ts : List T} {f : Frame}
      → device.trait.transform t f ≡ done (u, none)
      → Folds device (t ∷ ts) f (u ∷ ts) none
  passed :
      {t u : T} {ts us : List T} {f g : Frame} {last : Option Frame}
      → device.trait.transform t f ≡ done (u, some g)
      → Folds device ts g us last
      → Folds device (t ∷ ts) f (u ∷ us) last

-- What becomes of the transformers, the encoder and the packets in the channel with frames one after
-- the other. A frame that a transformer does not want is lost; of one that comes through, the packet
-- is the last in the channel, if there is room for it.
pub data Sends {T E S : Type 0} (device : Device T E S)
    : List T → E → List Packet → List (List F32) → List T → E → List Packet → Type 0 where
  all_sent : {ts : List T} {e : E} {ps : List Packet} → Sends device ts e ps [] ts e ps
  held_back :
      {ts us vs : List T} {e e' : E} {ps qs : List Packet} {f : List F32} {fs : List (List F32)}
      → Folds device ts (mono, f) us none
      → Sends device us e ps fs vs e' qs
      → Sends device ts e ps (f ∷ fs) vs e' qs
  sent_on :
      {ts us vs : List T} {e d e' : E} {ps qs : List Packet} {f : List F32} {fs : List (List F32)}
      {g : Frame} {p : Packet}
      → Folds device ts (mono, f) us (some g)
      → device.encode e g.1 ≡ some (d, p)
      → device.has_room ps ≡ true
      → Sends device us d (ps ++ p ∷ []) fs vs e' qs
      → Sends device ts e ps (f ∷ fs) vs e' qs
  no_room :
      {ts us vs : List T} {e d e' : E} {ps qs : List Packet} {f : List F32} {fs : List (List F32)}
      {g : Frame} {p : Packet}
      → Folds device ts (mono, f) us (some g)
      → device.encode e g.1 ≡ some (d, p)
      → device.has_room ps ≡ false
      → Sends device us d ps fs vs e' qs
      → Sends device ts e ps (f ∷ fs) vs e' qs

module _ {T E S : Type 0} (device : Device T E S) where
  try_fold-Folds :
      {ts us : List T} {f : Frame} {last : Option Frame}
      → Folds device ts f us last
      → try_fold device ts f ≡ done (us, last)
  unfolding try_fold
  try_fold-Folds through = refl
  try_fold-Folds (unwanted step) = rw step refl
  try_fold-Folds (passed step rest) = rw (step, try_fold-Folds rest) refl

  abbrev holding : List F32 → List T → E → List Packet → Microphone T E
  holding buffer ts e ps = record { buffer = buffer; transformers = ts; encoder = e; sent = ps }

  -- Whatever the buffer is before the first frame, it is replaced.
  emit_all-Sends :
      {ts vs : List T} {e e' : E} {ps qs : List Packet} {fs : List (List F32)}
      (before rest : List F32)
      → Sends device ts e ps fs vs e' qs
      → (emit_all device (holding before ts e ps) fs >>= λ n. done (record n { buffer = rest }))
        ≡ done (holding rest vs e' qs)
  unfolding emit_all emit deliver
  emit_all-Sends before rest all_sent = refl
  emit_all-Sends before rest (held_back folds more) =
      rw (try_fold-Folds folds) (emit_all-Sends [] rest more)
  emit_all-Sends before rest (sent_on folds encodes room more) =
      rw (try_fold-Folds folds) (rw (encodes, room) (emit_all-Sends [] rest more))
  emit_all-Sends before rest (no_room folds encodes full more) =
      rw (try_fold-Folds folds) (rw (encodes, full) (emit_all-Sends [] rest more))

  -- While connected, and if frames are not empty and the buffer holds at most one, the samples, after
  -- those in the buffer, are cut into frames, each as long as a frame is, and a rest of one sample at
  -- least and at most a frame. If every frame goes through the transformers, up to one that does not
  -- want it, and those that come through are encoded, then the callback returns: their packets are in
  -- the channel in order, each that found room there, and the rest is in the buffer.
  pub callback-frames :
      (volume : F32) (stream : VoiceStreamType) (m : Microphone T E) (samples : List S)
      (fs : List (List F32)) (rest : List F32)
      → 0 < device.buffer_size
      → Fits device m
      → m.buffer ++ heard device volume samples ≡ concat fs ++ rest
      → All (IsFrame device) fs
      → 0 < length rest
      → length rest ≤ device.buffer_size
      → {vs : List T} {e : E} {qs : List Packet}
      → Sends device m.transformers m.encoder m.sent fs vs e qs
      → callback device volume (StatePhase.connected stream) m samples
        ≡ done (record { buffer = rest; transformers = vs; encoder = e; sent = qs })
  callback-frames volume stream m samples fs rest pos low cut h any within sends =
      callback-emit_all device volume stream m samples fs rest pos low cut h any within
      ∙ emit_all-Sends m.buffer rest sends
