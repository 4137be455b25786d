-- ===== src/State/Core/Loading.antt =====
-- The sounds are loaded from the start, and a new configuration keeps them so.
use mum.Common.{ℕ, Option, none, some, List, [], get_or, done, Ends, Ends->>=}
use mum.Mumlib.Config.{Config, SoundEffect}
use mum.Mumlib.Command.{F32}
use mum.Audio.Effects.{NotificationEvents}
use mum.Audio.Effects.Complete.{Decodes, Has, load_sound_effects-Has}
use mum.Audio.Output
use mum.Audio.Output.{AudioOutput, reload_effects}
use mum.State.Core.{State, Env, reload_config, new, audio_field}
use mum.State.Presence.Laws.{IsLoaded}

abbrev AllHave : AudioOutput → Type 0
AllHave a = (event : NotificationEvents) → Has a.sounds event

reload_effects-AllHave :
    (env : Env) (a : AudioOutput) (effects : List SoundEffect)
    → Decodes env.codecs
    → Ends AllHave (reload_effects env.codecs a effects)
unfolding reload_effects
reload_effects-AllHave env a effects ok_files =
    Ends->>= (λ t. (event : NotificationEvents) → Has t event) AllHave _ _
      (load_sound_effects-Has env.codecs effects a.num_channels ok_files) (λ t h. h)

chosen-AllHave :
    (env : Env) (a : AudioOutput) (effects : Option (List SoundEffect))
    → Decodes env.codecs
    → AllHave a
    → Ends AllHave (elim effects [ none ↦ done a | some e ↦ reload_effects env.codecs a e ])
chosen-AllHave env a none ok_files h = h
chosen-AllHave env a (some e) ok_files h = reload_effects-AllHave env a e ok_files

louder-AllHave :
    (a : AudioOutput) (volume : Option F32)
    → AllHave a
    → AllHave (elim volume [ none ↦ a | some v ↦ Output.set_volume a v ])
unfolding Output.set_volume
louder-AllHave a none h = h
louder-AllHave a (some v) h = h

-- Reloading the configuration returns and leaves every event its samples, if it had them and every
-- sound file can be read and unpacks to mono or stereo.
pub reload_config-IsLoaded :
    (env : Env) (s : State) → Decodes env.codecs → IsLoaded s → Ends IsLoaded (reload_config env s)
unfolding reload_config
reload_config-IsLoaded env s ok_files h =
    Ends->>= AllHave IsLoaded _ _
      (chosen-AllHave env _
        (audio_field (λ a. a.sound_effects) (get_or env.read_cfg s.config).audio) ok_files
        (louder-AllHave s.audio_output
          (audio_field (λ a. a.output_volume) (get_or env.read_cfg s.config).audio) h))
      (λ a k. k)

-- The daemon starts, with the samples of every event, if every sound file can be
-- read and unpacks to mono or stereo.
pub new-IsLoaded :
    (env : Env) (config : Config) (num_channels : ℕ)
    → Decodes env.codecs
    → Ends IsLoaded (new env config num_channels)
unfolding new Output.new
new-IsLoaded env config num_channels ok_files =
    Ends->>= AllHave IsLoaded _ _
      (reload_effects-AllHave env
        (record {
          volume = get_or (audio_field (λ a. a.output_volume) config.audio) Output.one;
          num_channels = num_channels;
          user_volumes = [];
          buffer_effects = [];
          sounds = [];
        })
        [] ok_files)
      (λ a h. reload_config-IsLoaded env _ ok_files h)
