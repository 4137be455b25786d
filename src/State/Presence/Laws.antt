-- ===== src/State/Presence/Laws.antt =====
-- When `user_state` and `remove_user` return, and what they leave.
use mum.Common.{
  ℕ, Text, ◌≡◌, inl, inr, some, get_or, List, Ends, Ends->>=, arith, ◌==◌, Bool-cases, Option-cases,
}
use mum.Common.Dict.{get}
use mum.Protocol.{UserState}
use mum.Mumlib.Event.{MumbleEventKind}
use mum.Audio.Effects.{NotificationEvents, index}
use mum.Audio.Output.{play_effect}
use mum.State.User.{User}
use mum.State.Server.{ConnectedServer, users_channel}
use mum.State.Core.{State, Daemon, play}
use mum.State.Presence.{
  Notes, tell, sound, moved_away, moved_here, moved, muted, arrived, announce, message_session,
}

-- Every event has its samples.
abbrev pub IsLoaded : State → Type 0
IsLoaded s =
    (effect : NotificationEvents)
    → (samples : List ℕ) × (get s.audio_output.sounds (index effect) ≡ some samples)

-- All but the notifications and the queue of sound effects is as it was.
pub record Keeps (d e : Daemon) : Type 0 where
  pub config : e.state.config ≡ d.state.config
  pub server : e.state.server ≡ d.state.server
  pub audio_input : e.state.audio_input ≡ d.state.audio_input
  pub sounds : e.state.audio_output.sounds ≡ d.state.audio_output.sounds
  pub user_volumes : e.state.audio_output.user_volumes ≡ d.state.audio_output.user_volumes
  pub message_buffer : e.state.message_buffer ≡ d.state.message_buffer
  pub phase : e.state.phase ≡ d.state.phase
  pub events : e.state.events ≡ d.state.events
  pub packets : e.packets ≡ d.packets
  pub connection_info : e.connection_info ≡ d.connection_info

pub Keeps-refl : (d : Daemon) → Keeps d d
Keeps-refl d = ground arith

module _ (d : Daemon) (loaded : IsLoaded d.state) where
  abbrev Kept : Notes → Type 0
  Kept n = Keeps d n.daemon

  pub tell-Kept :
      (n : Notes) (message : Text) (kind : MumbleEventKind) → Kept n → Kept (tell n message kind)
  unfolding tell
  tell-Kept n message kind k = ground arith

  pub sound-Kept : (n : Notes) (effect : NotificationEvents) → Kept n → Ends Kept (sound n effect)
  unfolding sound play play_effect
  sound-Kept n effect k =
      let (samples, e) = loaded effect in
      let f : get n.daemon.state.audio_output.sounds (index effect) ≡ some samples =
        rw k.sounds e in
      rw f (ground arith)

  module _ (s : ConnectedServer) (user : User) where
    moved_away-Kept :
        (to_channel : ℕ) (n : Notes) → Kept n → Ends Kept (moved_away s to_channel user n)
    unfolding moved_away
    moved_away-Kept to_channel n k = elim (Option-cases (get s.channels to_channel)) [
      | inl unknown ↦ rw unknown (sound-Kept n NotificationEvents.user_left_channel k)
      | inr (c, known) ↦
          rw known (sound-Kept _ NotificationEvents.user_left_channel (tell-Kept n _ _ k))
    ]

    moved_here-Kept : (n : Notes) → Kept n → Ends Kept (moved_here s user n)
    unfolding moved_here
    moved_here-Kept n k = elim (Option-cases (get s.channels user.channel)) [
      | inl unknown ↦ rw unknown (sound-Kept n NotificationEvents.user_joined_channel k)
      | inr (c, known) ↦
          rw known (sound-Kept _ NotificationEvents.user_joined_channel (tell-Kept n _ _ k))
    ]

    moved-Kept :
        (this_channel to_channel : ℕ) (n : Notes)
        → Kept n
        → Ends Kept (moved s this_channel to_channel user n)
    unfolding moved
    moved-Kept this to n k = ground (arith, moved_away-Kept to n k, moved_here-Kept n k)

    muted-Kept : (msg : UserState) (n : Notes) → Kept n → Kept (muted msg user n)
    unfolding muted tell
    muted-Kept msg n k = ground arith

  arrived-Kept :
      (s : ConnectedServer) (this_channel to_channel : ℕ) (msg : UserState) (n : Notes)
      → Kept n
      → Ends Kept (arrived s this_channel to_channel msg n)
  unfolding arrived
  arrived-Kept s this to msg n k = elim (Bool-cases (this == to)) [
    | inl ours ↦ rw ours (sound-Kept _ NotificationEvents.user_connected (tell-Kept n _ _ k))
    | inr other ↦ rw other k
  ]

  pub announce-Kept :
      (s : ConnectedServer) (msg : UserState) (me : User) (n : Notes)
      → get s.users s.session_id ≡ some me
      → Kept n
      → Ends Kept (announce s msg n)
  unfolding announce users_channel
  announce-Kept s msg me n here k =
      rw here (elim (Bool-cases (message_session msg == s.session_id)) [
        | inl ours ↦ rw ours k
        | inr other ↦ rw other (elim (Option-cases (get s.users (message_session msg))) [
          | inl fresh ↦ rw fresh (arrived-Kept s _ _ msg n k)
          | inr (user, known) ↦ rw known (
              Ends->>= Kept Kept (moved s me.channel (get_or msg.channel_id 0) user n) _
                (moved-Kept s user me.channel (get_or msg.channel_id 0) n k)
                (λ m km. muted-Kept s user msg m km))
        ])
      ])
