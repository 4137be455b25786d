-- ===== src/Audio/Effects.antt =====
-- mum/src/audio/sound_effects.rs: which samples are played on which event.
pub mod Complete
use mum.Common.{
  ℕ, Text, text, text_eq, Bool, Option, some, none, List, [], ◌∷◌, ◌++◌, map, push, ◌==◌, Outcome,
  done, panic, unwrap, ◌>>=◌, if◌then◌else◌,
}
use mum.Common.Dict.{Dict, get, insert}
use mum.Mumlib.Command.{F32}
use mum.Mumlib.Config.{SoundEffect}

pub data AudioFileKind : Type 0 where
  ogg wav : AudioFileKind

unfoldable pub kind_try_from : Text → Option AudioFileKind
kind_try_from s =
    if text_eq s (text "ogg") then some ogg else if text_eq s (text "wav") then some wav else none

pub data NotificationEvents : Type 0 where
  server_connect server_disconnect user_connected user_disconnected user_joined_channel :
      NotificationEvents
  user_left_channel mute unmute deafen undeafen : NotificationEvents

-- The table of `TryFrom<&str>`.
abbrev event_names : List (Text × NotificationEvents)
event_names =
    (text "server_connect", server_connect)
    ∷ (text "server_disconnect", server_disconnect)
    ∷ (text "user_connected", user_connected)
    ∷ (text "user_disconnected", user_disconnected)
    ∷ (text "user_joined_channel", user_joined_channel)
    ∷ (text "user_left_channel", user_left_channel)
    ∷ (text "mute", mute)
    ∷ (text "unmute", unmute)
    ∷ (text "deafen", deafen)
    ∷ (text "undeafen", undeafen)
    ∷ []

abbrev find_name : Text → List (Text × NotificationEvents) → Option NotificationEvents
find_name s [] = none
find_name s ((name, event) ∷ rest) = if text_eq s name then some event else find_name s rest

unfoldable pub event_try_from : Text → Option NotificationEvents
event_try_from s = find_name s event_names

-- The discriminant, by which a `HashMap` tells the variants apart.
abbrev pub index : NotificationEvents → ℕ
index server_connect = 0
index server_disconnect = 1
index user_connected = 2
index user_disconnected = 3
index user_joined_channel = 4
index user_left_channel = 5
index mute = 6
index unmute = 7
index deafen = 8
index undeafen = 9

-- `NotificationEvents::iter()`.
abbrev pub variants : List NotificationEvents
variants =
    server_connect ∷ server_disconnect ∷ user_connected ∷ user_disconnected ∷ user_joined_channel
    ∷ user_left_channel ∷ mute ∷ unmute ∷ deafen ∷ undeafen ∷ []

-- What unpacking a file returns beside the interleaved samples.
pub record AudioSpec : Type 0 where
  pub channels : ℕ
  pub sample_rate : ℕ

pub data SampleFormat : Type 0 where
  float int : SampleFormat

-- `hound::WavSpec`.
pub record WavSpec : Type 0 where
  pub channels : ℕ
  pub sample_rate : ℕ
  pub sample_format : SampleFormat

-- The file system and the audio crates. A file that opens has its bytes, unless reading it fails. A
-- reader fails on bytes that do not begin as its format does, and each sample of a WAV file can fail.
-- `ogg_frames` are the frames up to the end of the file or the first that fails, and `ogg_feature` is
-- the feature `ogg`. The interleaved stereo samples are converted to frames at the rate of the
-- program. An `i16` is its bits.
pub record Codecs : Type 0 where
  pub open_file : Text → Option (Option (List ℕ))
  pub fallback_sfx : List ℕ
  pub wav_reader : List ℕ → Option WavSpec
  pub wav_floats : List ℕ → List (Option F32)
  pub wav_ints : List ℕ → List (Option ℕ)
  pub ogg_feature : Bool
  pub ogg_reader : List ℕ → Option AudioSpec
  pub ogg_frames : List ℕ → List (List ℕ)
  pub to_f32 : ℕ → F32
  pub resample : ℕ → List F32 → List (F32 × F32)

-- A file that opens and cannot be read panics.
unfoldable pub get_sfx : Codecs → Text → Outcome (List ℕ)
get_sfx codecs file = elim (codecs.open_file file) [
  | none ↦ done codecs.fallback_sfx
  | some content ↦ unwrap content
]

-- `map(|e| e.unwrap())` and `collect`.
unfoldable pub unwrap_all : List (Option ℕ) → Outcome (List ℕ)
unwrap_all [] = done []
unwrap_all (e ∷ es) = do x ← unwrap e; xs ← unwrap_all es; done (x ∷ xs)

unfoldable pub wav_samples : Codecs → List ℕ → SampleFormat → Outcome (List F32)
unfolding unwrap_all
wav_samples codecs bytes float = unwrap_all (codecs.wav_floats bytes)
wav_samples codecs bytes int = do
  xs ← unwrap_all (codecs.wav_ints bytes)
  done (map codecs.to_f32 xs)

unfoldable pub unpack_wav : Codecs → List ℕ → Outcome (List F32 × AudioSpec)
unfolding wav_samples
unpack_wav codecs bytes = do
  spec ← unwrap (codecs.wav_reader bytes)
  samples ← wav_samples codecs bytes spec.sample_format
  done (samples, record { channels = spec.channels; sample_rate = spec.sample_rate })

abbrev appended : List (List ℕ) → List ℕ
appended [] = []
appended (frame ∷ frames) = frame ++ appended frames

-- The two functions of that name: without the feature the built-in effect is unpacked.
unfoldable pub unpack_ogg : Codecs → List ℕ → Outcome (List F32 × AudioSpec)
unfolding unpack_wav
unpack_ogg codecs bytes =
    if codecs.ogg_feature
    then (do
      spec ← unwrap (codecs.ogg_reader bytes)
      done (map codecs.to_f32 (appended (codecs.ogg_frames bytes)), spec))
    else unpack_wav codecs codecs.fallback_sfx

unfoldable pub unpack_audio : Codecs → List ℕ → AudioFileKind → Outcome (List F32 × AudioSpec)
unfolding unpack_ogg unpack_wav
unpack_audio codecs bytes ogg = unpack_ogg codecs bytes
unpack_audio codecs bytes wav = unpack_wav codecs bytes

-- `file.split('.').last()`: what follows the last dot, or the whole name.
extension_from : Text → Text → Text
extension_from part [] = part
extension_from part (c ∷ s) = extension_from (if c == b'.' then [] else push part c) s

unfoldable pub extension : Text → Text
unfolding extension_from
extension file = extension_from [] file

-- `overrides` of `load_sound_effects`: unknown events are dropped, a later entry replaces an earlier.
collect : Dict Text → List SoundEffect → Dict Text
collect found [] = found
collect found (e ∷ rest) =
    collect
      (elim (event_try_from e.event) [
        | none ↦ found
        | some event ↦ insert found (index event) e.file
      ])
      rest

unfoldable pub chosen_source : Codecs → Option Text → Outcome (List ℕ × AudioFileKind)
unfolding get_sfx
chosen_source codecs none = done (codecs.fallback_sfx, wav)
chosen_source codecs (some file) = elim (kind_try_from (extension file)) [
  | none ↦ done (codecs.fallback_sfx, wav)
  | some kind ↦ do bytes ← get_sfx codecs file; done (bytes, kind)
]

pad_mono : List F32 → List F32
pad_mono [] = []
pad_mono (e ∷ samples) = e ∷ e ∷ pad_mono samples

flatten_frames : ℕ → List (F32 × F32) → List F32
flatten_frames num_channels [] = []
flatten_frames num_channels ((l, r) ∷ frames) =
    let rest = flatten_frames num_channels frames in
    if num_channels == 1 then l ∷ rest else l ∷ r ∷ rest

-- The samples in stereo. A file that is neither mono nor stereo panics.
unfoldable pub stereo_samples : List F32 → ℕ → Outcome (List F32)
unfolding pad_mono
stereo_samples samples channels =
    if channels == 1 then done (pad_mono samples) else if channels == 2 then done samples else panic

-- The samples of one event.
unfoldable pub load_one : Codecs → ℕ → Option Text → Outcome (List F32)
unfolding stereo_samples flatten_frames chosen_source unpack_audio
load_one codecs num_channels file = do
  source ← chosen_source codecs file
  unpacked ← unpack_audio codecs source.0 source.1
  stereo ← stereo_samples unpacked.0 unpacked.1.channels
  done (flatten_frames num_channels (codecs.resample unpacked.1.sample_rate stereo))

load_each :
    Codecs → ℕ → Dict Text → List NotificationEvents → Dict (List F32) → Outcome (Dict (List F32))
load_each codecs num_channels overrides [] sounds = done sounds
load_each codecs num_channels overrides (event ∷ events) sounds = do
  samples ← load_one codecs num_channels (get overrides (index event))
  load_each codecs num_channels overrides events (insert sounds (index event) samples)

unfoldable pub load_sound_effects : Codecs → List SoundEffect → ℕ → Outcome (Dict (List F32))
unfolding collect load_each
load_sound_effects codecs overrides num_channels =
    load_each codecs num_channels (collect [] overrides) variants []
