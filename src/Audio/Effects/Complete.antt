-- ===== src/Audio/Effects/Complete.antt =====
-- Loading the sounds gives every event its samples.
use mum.Common.{
  ℕ, ◌≡◌, ◌⊎◌, inl, inr, refl, ◌==◌, ==_refl, Bool-cases, Text, Option, some, List, [], ◌∷◌, All,
  Ends, Ends->>=, Ends-imp, Ends-both,
}
use mum.Common.Dict.{Dict, get, insert, get-insert}
use mum.Mumlib.Command.{F32}
use mum.Mumlib.Config.{SoundEffect}
use mum.Audio.Effects.{
  NotificationEvents, Codecs, AudioFileKind, AudioSpec, index, variants, chosen_source,
  unpack_audio, stereo_samples, load_one, load_each, load_sound_effects,
}

abbrev IsPlayable : List F32 × AudioSpec → Type 0
IsPlayable (samples, spec) = (spec.channels ≡ 1) ⊎ (spec.channels ≡ 2)

-- The bytes can be unpacked to samples that are mono or stereo.
abbrev pub Unpacks : Codecs → List ℕ × AudioFileKind → Type 0
Unpacks codecs source = Ends IsPlayable (unpack_audio codecs source.0 source.1)

-- Every sound file, the built-in one included, can be read if it opens, and unpacks to samples that
-- are mono or stereo.
abbrev pub Decodes : Codecs → Type 0
Decodes codecs = (file : Option Text) → Ends (Unpacks codecs) (chosen_source codecs file)

abbrev pub Has : Dict (List F32) → NotificationEvents → Type 0
Has sounds event = (samples : List F32) × (get sounds (index event) ≡ some samples)

load_one-done :
    (codecs : Codecs) (num_channels : ℕ) (file : Option Text)
    → Decodes codecs
    → Ends (λ samples. Unit) (load_one codecs num_channels file)
unfolding load_one stereo_samples
load_one-done codecs num_channels file ok_file =
    Ends->>= (Unpacks codecs) (λ samples. Unit) (chosen_source codecs file) _ (ok_file file)
      (λ source unpacks.
        Ends->>= IsPlayable (λ samples. Unit) (unpack_audio codecs source.0 source.1) _ unpacks
          (λ unpacked playable. elim playable [
            | inl mono ↦ rw mono tt
            | inr stereo ↦ rw stereo tt
          ]))

insert-Has :
    (sounds : Dict (List F32)) (k : ℕ) (samples : List F32) (event : NotificationEvents)
    → Has sounds event
    → Has (insert sounds k samples) event
insert-Has sounds k samples event (old, h) = elim (Bool-cases (k == index event)) [
  | inl same ↦ (samples, rw (get-insert, same) refl)
  | inr other ↦ (old, rw (get-insert, other) h)
]

module _ (codecs : Codecs) (num_channels : ℕ) (overrides : Dict Text)
    (ok_files : Decodes codecs) where
  load_each-Has :
      (events : List NotificationEvents) (sounds : Dict (List F32)) (event : NotificationEvents)
      → Has sounds event
      → Ends (λ t. Has t event) (load_each codecs num_channels overrides events sounds)
  unfolding load_each
  load_each-Has [] sounds event h = h
  load_each-Has (e ∷ events) sounds event h =
      Ends->>= (λ samples. Unit) (λ t. Has t event) _ _
        (load_one-done codecs num_channels (get overrides (index e)) ok_files)
        (λ samples u.
          load_each-Has events (insert sounds (index e) samples) event
            (insert-Has sounds (index e) samples event h))

  load_each-All :
      (events : List NotificationEvents) (sounds : Dict (List F32))
      → Ends (λ t. All (Has t) events) (load_each codecs num_channels overrides events sounds)
  unfolding load_each
  load_each-All [] sounds = tt
  load_each-All (e ∷ events) sounds =
      Ends->>= (λ samples. Unit) (λ t. All (Has t) (e ∷ events)) _ _
        (load_one-done codecs num_channels (get overrides (index e)) ok_files)
        (λ samples u.
          let more = insert sounds (index e) samples in
          Ends-both (λ t. Has t e) (λ t. All (Has t) events) _
            (load_each-Has events more e (samples, rw (get-insert, ==_refl (index e)) refl))
            (load_each-All events more))

All-Has : (t : Dict (List F32)) → All (Has t) variants → (event : NotificationEvents) → Has t event
All-Has t (a, _) NotificationEvents.server_connect = a
All-Has t (_, (a, _)) NotificationEvents.server_disconnect = a
All-Has t (_, (_, (a, _))) NotificationEvents.user_connected = a
All-Has t (_, (_, (_, (a, _)))) NotificationEvents.user_disconnected = a
All-Has t (_, (_, (_, (_, (a, _))))) NotificationEvents.user_joined_channel = a
All-Has t (_, (_, (_, (_, (_, (a, _)))))) NotificationEvents.user_left_channel = a
All-Has t (_, (_, (_, (_, (_, (_, (a, _))))))) NotificationEvents.mute = a
All-Has t (_, (_, (_, (_, (_, (_, (_, (a, _)))))))) NotificationEvents.unmute = a
All-Has t (_, (_, (_, (_, (_, (_, (_, (_, (a, _))))))))) NotificationEvents.deafen = a
All-Has t (_, (_, (_, (_, (_, (_, (_, (_, (_, (a, _)))))))))) NotificationEvents.undeafen = a

-- If every sound file can be read and unpacks to mono or stereo, loading returns, and every event has its samples.
pub load_sound_effects-Has :
    (codecs : Codecs) (overrides : List SoundEffect) (num_channels : ℕ)
    → Decodes codecs
    → Ends
        (λ t. (event : NotificationEvents) → Has t event)
        (load_sound_effects codecs overrides num_channels)
unfolding load_sound_effects
load_sound_effects-Has codecs overrides num_channels ok_files =
    Ends-imp (λ t. All (Has t) variants) (λ t. (event : NotificationEvents) → Has t event) _
      (load_each-All codecs num_channels _ ok_files variants []) All-Has
