-- ===== src/Audio/Output.antt =====
-- mum/src/audio.rs: the output side of the audio, as far as it is state of the daemon.
use mum.Common.{ℕ, Bool, false, some, none, List, [], ◌++◌, Outcome, done, unwrap, ◌>>=◌}
use mum.Common.Dict.{Dict, get, insert}
use mum.Mumlib.Command.{F32}
use mum.Mumlib.Config.{SoundEffect}
use mum.Audio.Effects.{NotificationEvents, Codecs, index, load_sound_effects}

-- `volume` is the value of the device's channel, `buffer_effects` the queue of samples that the
-- device shares, `user_volumes` the volume of a user and whether the user is muted.
pub record AudioOutput : Type 0 where
  pub volume : F32
  pub num_channels : ℕ
  pub user_volumes : Dict (F32 × Bool)
  pub buffer_effects : List F32
  pub sounds : Dict (List F32)

-- 1.0 as an `f32`.
abbrev pub one : F32
one = 0x3f800000

unfoldable pub set_volume : AudioOutput → F32 → AudioOutput
set_volume a volume = record a { volume = volume }

unfoldable pub set_user_volume : AudioOutput → ℕ → F32 → AudioOutput
set_user_volume a id volume = elim (get a.user_volumes id) [
  | none ↦ record a { user_volumes = insert a.user_volumes id (volume, false) }
  | some entry ↦ record a { user_volumes = insert a.user_volumes id (volume, entry.1) }
]

unfoldable pub set_mute : AudioOutput → ℕ → Bool → AudioOutput
set_mute a id mute = elim (get a.user_volumes id) [
  | none ↦ record a { user_volumes = insert a.user_volumes id (one, mute) }
  | some entry ↦ record a { user_volumes = insert a.user_volumes id (entry.0, mute) }
]

-- Queues a sound effect; an event with no samples panics.
unfoldable pub play_effect : AudioOutput → NotificationEvents → Outcome AudioOutput
play_effect a effect = do
  samples ← unwrap (get a.sounds (index effect))
  done (record a { buffer_effects = a.buffer_effects ++ samples })

-- `AudioOutput::load_sound_effects`.
unfoldable pub reload_effects : Codecs → AudioOutput → List SoundEffect → Outcome AudioOutput
reload_effects codecs a overrides = do
  sounds ← load_sound_effects codecs overrides a.num_channels
  done (record a { sounds = sounds })

-- `AudioOutput::new`, once the device is there.
unfoldable pub new : Codecs → ℕ → F32 → Outcome AudioOutput
unfolding reload_effects
new codecs num_channels output_volume =
    reload_effects codecs
      (record {
        volume = output_volume;
        num_channels = num_channels;
        user_volumes = [];
        buffer_effects = [];
        sounds = [];
      })
      []
