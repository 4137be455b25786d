-- ===== src/Tests/Sound.antt =====
-- Frames of a few samples, and the pings that choose how the voice is sent.
use Prim.Native.Nat.{compare}
use mum.Common.{
  ℕ, suc, ◌+◌, ◌*◌, ◌/◌, ◌==◌, ◌≡◌, refl, true, Option, some, none, List, [], ◌∷◌, ◌++◌, take, drop,
  push, done, ◌>>=◌, Ends, length, ltb, if◌then◌else◌, arith,
}
use mum.Mumlib.Command.{F32}
use mum.State.Core.{StatePhase, VoiceStreamType}
use mum.Audio.Transformers.{
  FloatOps, Frame, OpusChannels, mono, stereo, NoiseGate, Transformer, noise_gate, mute_percentage,
  peak,
}
use mum.Audio.Transformers as Transformers
use mum.Audio.Transformers.Gate.{run, run-loud}
use mum.Audio.Input.{Device, Microphone, callback}
use mum.Audio.Input.Stream.{callback-append}
use mum.Audio.Input.Sent.{Sends, sent_on, all_sent, through, callback-frames}
use mum.Audio.Playback.{Crates, ClientAudioData, ClientStream, Samples}
use mum.Audio.Playback as Playback
use mum.Audio.Playback.Mixed.{callback-mixed, IsQueue, mixed, sample_of, get_elem?}
use mum.Network.Voice.{UdpLink, start, send_ping, UdpEvent, received, ticked, next_timestamp}
use mum.Network.Voice as Voice
use mum.Network.Voice.Choice.{run-answered, run-unanswered, answered_round, IsOn}
use mum.Tests.Data.{online}

-- Samples are whole numbers, and 0.1 of one is a tenth.
abbrev ops : FloatOps
ops = record {
  abs = λ a. a;
  plus = λ a b. a + b;
  times = λ a b. if b == mute_percentage then a / 10 else a * b;
  lt = ltb;
  gt = λ a b. ltb b a;
  partial_cmp = λ a b. some (compare a b);
}

abbrev gate : NoiseGate
gate = Transformers.new 2

abbrev quiet : Frame
quiet = (mono, 3 ∷ 2 ∷ [])

run-loud_example :
    (h : NoiseGate) × (run ops gate ((mono, 100 ∷ 7 ∷ []) ∷ quiet ∷ quiet ∷ [])
      ≡ done (h, take 2 ((mono, 100 ∷ 7 ∷ []) ∷ quiet ∷ quiet ∷ [])))
unfolding peak Transformers.new
run-loud_example =
    run-loud ops mono (100 ∷ 7 ∷ []) (quiet ∷ quiet ∷ []) gate 100 refl refl
      ((3, refl, refl, refl), ((3, refl, refl, refl), tt))

-- The encoder counts its packets; the frames are of two samples.
abbrev device : Device NoiseGate ℕ ℕ
device = record {
  ops = ops;
  to_f32 = λ s. s;
  trait = noise_gate ops;
  encode = λ n samples. some (suc n, samples);
  has_room = λ sent. true;
  buffer_size = 2;
}

abbrev microphone : Microphone NoiseGate ℕ
microphone = record { buffer = 5 ∷ []; transformers = []; encoder = 0; sent = [] }

abbrev on_air : StatePhase
on_air = StatePhase.connected VoiceStreamType.udp

callback-append_example : callback device 1 on_air microphone ((1 ∷ 2 ∷ []) ++ 3 ∷ []) ≡ (
    callback device 1 on_air microphone (1 ∷ 2 ∷ []) >>= λ n. callback device 1 on_air n (3 ∷ []))
callback-append_example =
    callback-append device 1 VoiceStreamType.udp VoiceStreamType.udp microphone (1 ∷ 2 ∷ [])
      (3 ∷ []) (omega arith) (omega arith)

heard_5_1 :
    Sends device microphone.transformers microphone.encoder microphone.sent
      ((5 ∷ 1 ∷ []) ∷ [])
      []
      1
      ((5 ∷ 1 ∷ []) ∷ [])
heard_5_1 = sent_on through refl refl all_sent

callback-frames_example :
    callback device 1 on_air microphone (1 ∷ 2 ∷ [])
    ≡ done (record microphone { buffer = 2 ∷ []; encoder = 1; sent = (5 ∷ 1 ∷ []) ∷ [] })
callback-frames_example =
    callback-frames device 1 VoiceStreamType.udp microphone (1 ∷ 2 ∷ []) ((5 ∷ 1 ∷ []) ∷ [])
      (2 ∷ []) (omega arith) (omega arith) refl (refl, tt) (omega arith) (omega arith) heard_5_1

-- The queue is a list of at most four samples that drops its head for a fifth.
abbrev popped : List F32 → Option (F32 × List F32)
popped [] = none
popped (x ∷ xs) = some (x, xs)

abbrev crates : Crates ℕ (List F32)
crates = record {
  get_nb_channels = λ bytes. some stereo;
  decoder = λ rate channels. some 0;
  decode_float = λ d bytes room. some (d, 1 ∷ 2 ∷ 3 ∷ 4 ∷ [], 2);
  from_full = λ xs. xs;
  push_ring = λ r x. if ltb (length r) 4 then push r x else drop 1 (push r x);
  pop_ring = popped;
}

abbrev samples : Samples ℕ
samples = record { from = λ x. x; saturating_add = λ a b. a + b }

crates-IsQueue : IsQueue crates (λ r. r)
crates-IsQueue = record { pop_nil = λ r h. rw h refl; pop_cons = λ r x xs h. (xs, rw h refl, refl) }

abbrev voice : ClientAudioData ℕ (List F32)
voice = record {
  buf = 8 ∷ 9 ∷ 10 ∷ [];
  output_channels = stereo;
  mono_decoder = 0;
  stereo_decoder = 0;
}

abbrev streams : ClientStream ℕ (List F32)
streams = record {
  buffer_clients = ((VoiceStreamType.udp, 7), voice) ∷ [];
  buffer_effects = 6 ∷ [];
  sample_rate = 48000;
  output_channels = stereo;
}

callback-mixed_example :
    get_elem? (Playback.callback crates ops samples 1 [] streams 4).0 1
    ≡ some (
        samples.saturating_add
          (mixed crates ops samples (λ r. r) 1 [] streams.buffer_clients 1 (samples.from 0))
          (samples.from (ops.times (sample_of streams.buffer_effects 1) 1)))
callback-mixed_example =
    callback-mixed crates ops samples (λ r. r) crates-IsQueue 1 [] streams 4 1 (omega arith)

abbrev link : UdpLink
link = start online.state

run-answered_example :
    Ends
      (λ m. IsOn VoiceStreamType.udp m × Ends (IsOn VoiceStreamType.udp) (send_ping true m true))
      (Voice.run true link (answered_round 1 (received none ∷ []) []))
unfolding next_timestamp start
run-answered_example = run-answered true link (received none ∷ []) [] true 1 2 refl refl (tt, tt) tt

run-unanswered_example :
    Ends
      (λ m. Ends (IsOn VoiceStreamType.tcp) (send_ping true m true))
      (Voice.run true link (ticked true ∷ received none ∷ []))
unfolding next_timestamp start
run-unanswered_example =
    run-unanswered true link (received none ∷ []) true 1 (omega arith) refl (tt, tt)
