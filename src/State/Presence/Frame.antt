-- ===== src/State/Presence/Frame.antt =====
-- What `user_state` and `remove_user` leave alone, whenever they return.
use mum.Common.{
  ℕ, ◌∙◌, ◌≡◌, refl, inl, inr, get_or, [], WhenDone, WhenDone->>=, WhenDone-any, arith, ◌==◌,
  Bool-cases, Option-cases,
}
use mathlib.Core.Path.{subst}
use mum.Common.Dict.{get}
use mum.Protocol.{UserState, UserRemove}
use mum.Audio.Effects.{NotificationEvents}
use mum.State.User.{User}
use mum.State.Server.{Server, ConnectedServer, users_channel}
use mum.State.Core.{State, Daemon, Env, play}
use mum.State.Core.Frame.{Same, play-Same, Fits, Agrees}
use mum.State.Presence.Safe.{push_events_lem}
use mum.State.Presence.{
  Notes, tell, sound, moved_away, moved_here, moved, muted, arrived, announce, farewell,
  message_session, commit, user_state, user_state_in, remove_user, remove_user_in,
}

module _ (s : State) where
  abbrev Stays : Notes → Type 0
  Stays n = Same s n.daemon.state

  sound-Stays :
      (n : Notes) (effect : NotificationEvents) → Stays n → WhenDone Stays (sound n effect)
  unfolding sound
  sound-Stays n effect (a, b) =
      WhenDone->>= (Same n.daemon.state) Stays (play n.daemon.state effect) _
        (play-Same n.daemon.state effect) (λ t k. (k.0 ∙ a, k.1 ∙ b))

  moved_away-Stays :
      (c : ConnectedServer) (user : User) (to_channel : ℕ) (n : Notes)
      → Stays n
      → WhenDone Stays (moved_away c to_channel user n)
  unfolding moved_away tell
  moved_away-Stays c user to_channel n k = elim (Option-cases (get c.channels to_channel)) [
    | inl e ↦ rw e (sound-Stays n NotificationEvents.user_left_channel k)
    | inr (x, e) ↦ rw e (sound-Stays _ NotificationEvents.user_left_channel k)
  ]

  moved_here-Stays :
      (c : ConnectedServer) (user : User) (n : Notes)
      → Stays n
      → WhenDone Stays (moved_here c user n)
  unfolding moved_here tell
  moved_here-Stays c user n k = elim (Option-cases (get c.channels user.channel)) [
    | inl e ↦ rw e (sound-Stays n NotificationEvents.user_joined_channel k)
    | inr (x, e) ↦ rw e (sound-Stays _ NotificationEvents.user_joined_channel k)
  ]

  moved-Stays :
      (c : ConnectedServer) (user : User) (this_channel to_channel : ℕ) (n : Notes)
      → Stays n
      → WhenDone Stays (moved c this_channel to_channel user n)
  unfolding moved
  moved-Stays c user this_channel to_channel n k =
      ground (arith, moved_away-Stays c user to_channel n k, moved_here-Stays c user n k)

  muted-Stays : (msg : UserState) (user : User) (n : Notes) → Stays n → Stays (muted msg user n)
  unfolding muted tell
  muted-Stays msg user n k = ground arith

  arrived-Stays :
      (c : ConnectedServer) (this_channel to_channel : ℕ) (msg : UserState) (n : Notes)
      → Stays n
      → WhenDone Stays (arrived c this_channel to_channel msg n)
  unfolding arrived tell
  arrived-Stays c this to msg n k = elim (Bool-cases (this == to)) [
    | inl e ↦ rw e (sound-Stays _ NotificationEvents.user_connected k)
    | inr e ↦ rw e k
  ]

  announce-Stays :
      (c : ConnectedServer) (msg : UserState) (n : Notes)
      → Stays n
      → WhenDone Stays (announce c msg n)
  unfolding announce
  announce-Stays c msg n k = WhenDone-any Stays (users_channel c c.session_id) _ (λ this_channel.
      elim (Bool-cases (message_session msg == c.session_id)) [
        | inl e ↦ rw e k
        | inr e ↦ rw e (elim (Option-cases (get c.users (message_session msg))) [
          | inl fresh ↦ rw fresh (arrived-Stays c this_channel (get_or msg.channel_id 0) msg n k)
          | inr (user, known) ↦ rw known (
              WhenDone->>= Stays Stays (moved c this_channel (get_or msg.channel_id 0) user n) _
                (moved-Stays c user this_channel (get_or msg.channel_id 0) n k)
                (λ m km. muted-Stays msg user m km))
        ])
      ])

  farewell-Stays :
      (c : ConnectedServer) (msg : UserRemove) (n : Notes)
      → Stays n
      → WhenDone Stays (farewell c msg n)
  unfolding farewell tell
  farewell-Stays c msg n k = WhenDone-any Stays (users_channel c c.session_id) _ (λ this_channel.
      WhenDone-any Stays (users_channel c (get_or msg.session 0)) _ (λ other_channel.
        elim (Bool-cases (this_channel == other_channel)) [
          | inl e ↦ rw e (sound-Stays _ NotificationEvents.user_disconnected k)
          | inr e ↦ rw e k
        ]))

-- The server keeps its kind, whatever its roster becomes, and the phase is the one before.
commit-Fits :
    (env : Env) (d : Daemon) (s t : ConnectedServer) (n : Notes)
    → d.state.server ≡ Server.connected s
    → Same d.state n.daemon.state
    → Fits d
    → Fits (commit env (Server.connected t) n)
unfolding commit
commit-Fits env d s t n on (a, b) f =
    rw (push_events_lem, b) (subst (λ x. Agrees x d.state.phase) on f)

pub user_state-Fits :
    (env : Env) (d : Daemon) (msg : UserState) → Fits d → WhenDone Fits (user_state env d msg)
unfolding user_state user_state_in
user_state-Fits env d msg f = go d.state.server refl
  where
    go :
        (server : Server) → d.state.server ≡ server → WhenDone Fits (user_state_in env server d msg)
    go Server.disconnected on = f
    go (Server.connecting sb) on = subst (λ x. Agrees x d.state.phase) on f
    go (Server.connected s) on =
        WhenDone->>= (Stays d.state) Fits (announce s msg (record { daemon = d; kinds = [] })) _
          (announce-Stays d.state s msg _ (refl, refl)) (λ n k. commit-Fits env d s _ n on k f)

pub remove_user-Fits :
    (env : Env) (d : Daemon) (msg : UserRemove) → Fits d → WhenDone Fits (remove_user env d msg)
unfolding remove_user remove_user_in
remove_user-Fits env d msg f = go d.state.server refl
  where
    go :
        (server : Server)
        → d.state.server ≡ server
        → WhenDone Fits (remove_user_in env server d msg)
    go Server.disconnected on = f
    go (Server.connecting sb) on = subst (λ x. Agrees x d.state.phase) on f
    go (Server.connected s) on =
        WhenDone->>= (Stays d.state) Fits (farewell s msg (record { daemon = d; kinds = [] })) _
          (farewell-Stays d.state s msg _ (refl, refl)) (λ n k. commit-Fits env d s _ n on k f)
