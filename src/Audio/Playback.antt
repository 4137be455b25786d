-- ===== src/Audio/Playback.antt =====
-- mum/src/audio/output.rs: decoding the voices of the users and mixing what is played.
pub mod Mixed
pub mod Stored
use mum.Common.{
  ℕ, zero, suc, ◌+◌, ◌*◌, leb, Bool, true, false, not, ◌&&◌, Option, some, none, get_or, List, [],
  ◌∷◌, ◌++◌, map, length, take, push, Outcome, done, panic, unwrap, ◌>>=◌, ◌==◌, if◌then◌else◌,
}
use mum.Common.Dict.{Dict, get}
use mum.Mumlib.Command.{F32}
use mum.State.Core.{VoiceStreamType, tcp, udp}
use mum.Audio.Output.{one}
use mum.Audio.Transformers.{OpusChannels, mono, stereo, FloatOps}

-- The crates that are called: the number of channels of an Opus packet, and a decoder `D`, which
-- writes into a buffer and returns how many samples it has found for each channel; the queue `R` of
-- bounded length, which can be full from the start, drops its oldest sample to push one more, and
-- gives its samples up one by one.
pub record Crates (D : Type 0) (R : Type 0) : Type 0 where
  pub get_nb_channels : List ℕ → Option OpusChannels
  pub decoder : ℕ → OpusChannels → Option D
  pub decode_float : D → List ℕ → List F32 → Option (D × List F32 × ℕ)
  pub from_full : List F32 → R
  pub push_ring : R → F32 → R
  pub pop_ring : R → Option (F32 × R)

-- `VoicePacketPayload`: Opus with its bytes and the mark of the last packet, or one of the codecs that
-- are not decoded.
pub data VoicePayload : Type 0 where
  opus : List ℕ → Bool → VoicePayload
  other_codec : VoicePayload

pub record ClientAudioData (D : Type 0) (R : Type 0) : Type 0 where
  pub buf : R
  pub output_channels : OpusChannels
  pub mono_decoder : D
  pub stereo_decoder : D

abbrev pub ClientStreamKey : Type 0
ClientStreamKey = VoiceStreamType × ℕ

abbrev pub same_stream : VoiceStreamType → VoiceStreamType → Bool
same_stream tcp tcp = true
same_stream udp udp = true
same_stream _ _ = false

abbrev pub same_key : ClientStreamKey → ClientStreamKey → Bool
same_key (s, i) (t, j) = same_stream s t && (i == j)

pub record ClientStream (D : Type 0) (R : Type 0) : Type 0 where
  pub buffer_clients : List (ClientStreamKey × ClientAudioData D R)
  pub buffer_effects : List F32
  pub sample_rate : ℕ
  pub output_channels : OpusChannels

-- `output_channels as usize`, and the decoder's `channels`.
abbrev pub count : OpusChannels → ℕ
count mono = 1
count stereo = 2

abbrev pub zeros : ℕ → List F32
zeros zero = []
zeros (suc n) = 0 ∷ zeros n

-- `step_by(2)`.
abbrev pub every_other {ℓ} : {A : Type ℓ} → List A → List A
every_other [] = []
every_other (x ∷ []) = x ∷ []
every_other (x ∷ y ∷ xs) = x ∷ every_other xs

-- Each sample twice.
abbrev pub twice {ℓ} : {A : Type ℓ} → List A → List A
twice [] = []
twice (x ∷ xs) = x ∷ x ∷ twice xs

-- The samples that are pushed for a packet.
abbrev pub adapted : OpusChannels → OpusChannels → List F32 → List F32
adapted mono mono out = out
adapted stereo stereo out = out
adapted mono stereo out = twice out
adapted stereo mono out = every_other out

module _ {D R : Type 0} (crates : Crates D R) where
  -- `ClientAudioData::new`.
  unfoldable pub new_client : ℕ → OpusChannels → Outcome (ClientAudioData D R)
  new_client sample_rate output_channels = do
    m ← unwrap (crates.decoder sample_rate mono)
    s ← unwrap (crates.decoder sample_rate stereo)
    done (record {
      buf = crates.from_full (zeros (sample_rate * count output_channels));
      output_channels = output_channels;
      mono_decoder = m;
      stereo_decoder = s;
    })

  unfoldable pub push_all : R → List F32 → R
  push_all r [] = r
  push_all r (x ∷ xs) = push_all (crates.push_ring r x) xs

  abbrev pub decoder_for : ClientAudioData D R → OpusChannels → D
  decoder_for c mono = c.mono_decoder
  decoder_for c stereo = c.stereo_decoder

  abbrev pub set_decoder : ClientAudioData D R → OpusChannels → D → ClientAudioData D R
  set_decoder c mono d = record c { mono_decoder = d }
  set_decoder c stereo d = record c { stereo_decoder = d }

  unfoldable pub store_packet : ClientAudioData D R → List ℕ → Outcome (ClientAudioData D R)
  unfolding push_all
  store_packet c bytes = do
    channels ← unwrap (crates.get_nb_channels bytes)
    (d, out, parsed) ←
        unwrap
          (crates.decode_float (decoder_for c channels) bytes (zeros (720 * count channels * 4)))
    done (record (set_decoder c channels d) {
      buf = push_all c.buf (adapted channels c.output_channels (take parsed out));
    })

  -- The match of `ClientStream::new`; other numbers are unimplemented.
  abbrev channels_from : ℕ → Outcome OpusChannels
  channels_from n = if n == 1 then done mono else (if n == 2 then done stereo else panic)

  -- `ClientStream::new`.
  unfoldable pub new : ℕ → ℕ → Outcome (ClientStream D R)
  new sample_rate channels = do
    output_channels ← channels_from channels
    done (record {
      buffer_clients = [];
      buffer_effects = [];
      sample_rate = sample_rate;
      output_channels = output_channels;
    })

  unfoldable pub find_client :
      List (ClientStreamKey × ClientAudioData D R) → ClientStreamKey → Option (ClientAudioData D R)
  find_client [] k = none
  find_client ((j, c) ∷ cs) k = if same_key j k then some c else find_client cs k

  unfoldable pub put_client :
      List (ClientStreamKey × ClientAudioData D R)
      → ClientStreamKey
      → ClientAudioData D R
      → List (ClientStreamKey × ClientAudioData D R)
  put_client [] k c = (k, c) ∷ []
  put_client ((j, d) ∷ cs) k c = if same_key j k then (j, c) ∷ cs else (j, d) ∷ put_client cs k c

  -- `entry(client).or_insert(…)`: the value to insert is made whether it is needed or not.
  unfoldable pub get_client : ClientStream D R → ClientStreamKey → Outcome (ClientAudioData D R)
  unfolding find_client new_client
  get_client s k = do
    fresh ← new_client s.sample_rate s.output_channels
    done (get_or (find_client s.buffer_clients k) fresh)

  -- What the client's entry becomes is stored in the map.
  unfoldable pub decode_packet :
      ClientStream D R → ClientStreamKey → VoicePayload → Outcome (ClientStream D R)
  unfolding get_client store_packet put_client
  decode_packet s k (opus bytes last) = do
    c ← get_client s k
    e ← store_packet c bytes
    done (record s { buffer_clients = put_client s.buffer_clients k e })
  decode_packet s k other_codec = panic

  unfoldable pub add_sound_effect : ClientStream D R → List F32 → ClientStream D R
  add_sound_effect s values = record s { buffer_effects = s.buffer_effects ++ values }

-- `SaturatingAdd` for `f32` and for `u16`; 0x3f800000 is 1.0 and 0xbf800000 is -1.0.
unfoldable pub saturating_add_f32 : FloatOps → F32 → F32 → F32
saturating_add_f32 ops a b =
    let s : F32 = ops.plus a b in
    if ops.lt s 0xbf800000 then 0xbf800000 else (if ops.gt s one then one else s)

unfoldable pub saturating_add_u16 : ℕ → ℕ → ℕ
saturating_add_u16 a b = if leb (a + b) 65535 then a + b else 65535

-- A sample of the output: how an `f32` becomes one, and `SaturatingAdd`.
pub record Samples (T : Type 0) : Type 0 where
  pub from : F32 → T
  pub saturating_add : T → T → T

module _ {D R T : Type 0} (crates : Crates D R) (ops : FloatOps) (samples : Samples T) where
  -- Adding one client to the output: the queue is emptied as far as the output is long, and is
  -- followed by silence.
  unfoldable pub mix_client : F32 → F32 → List T → R → List T × R
  mix_client volume user_volume [] r = ([], r)
  mix_client volume user_volume (d ∷ ds) r =
      let next : F32 × R = get_or (crates.pop_ring r) (0, r) in
      let rest = mix_client volume user_volume ds next.1 in
      (
        samples.saturating_add d (samples.from (ops.times (ops.times next.0 volume) user_volume))
            ∷ rest.0,
        rest.1,
      )

  -- The clients in turn; one that is muted is passed over, and keeps its samples.
  unfoldable pub mix_clients :
      F32
      → Dict (F32 × Bool)
      → List (ClientStreamKey × ClientAudioData D R)
      → List T
      → List T × List (ClientStreamKey × ClientAudioData D R)
  unfolding mix_client
  mix_clients volume user_volumes [] out = (out, [])
  mix_clients volume user_volumes ((k, c) ∷ cs) out =
      let entry = get_or (get user_volumes k.1) (one, false) in
      let mixed = if entry.1 then (out, c.buf) else mix_client volume entry.0 out c.buf in
      let rest = mix_clients volume user_volumes cs mixed.0 in
      (rest.0, (k, record c { buf = mixed.1 }) ∷ rest.1)

  unfoldable pub mix_effects : F32 → List T → List F32 → List T × List F32
  mix_effects volume [] es = ([], es)
  mix_effects volume (d ∷ ds) [] =
      let rest = mix_effects volume ds [] in
      (samples.saturating_add d (samples.from (ops.times 0 volume)) ∷ rest.0, rest.1)
  mix_effects volume (d ∷ ds) (e ∷ es) =
      let rest = mix_effects volume ds es in
      (samples.saturating_add d (samples.from (ops.times e volume)) ∷ rest.0, rest.1)

  abbrev pub silence : ℕ → List T
  silence zero = []
  silence (suc n) = samples.from 0 ∷ silence n

  -- The callback, for an output of so many samples.
  unfoldable pub callback :
      F32 → Dict (F32 × Bool) → ClientStream D R → ℕ → List T × ClientStream D R
  unfolding mix_clients mix_effects
  callback volume user_volumes s n =
      let voices = mix_clients volume user_volumes s.buffer_clients (silence n) in
      let played = mix_effects volume voices.0 s.buffer_effects in
      (played.0, record s { buffer_clients = voices.1; buffer_effects = played.1 })
