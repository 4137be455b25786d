-- ===== src/State/Presence/Safe.antt =====
-- `user_state` and `remove_user` while connected: when they return, when they panic, and what they
-- leave behind.
use mum.Common.{
  ◌≡◌, sym, inl, inr, refl, none, some, get_or, List, [], ◌∷◌, ◌++◌, map, Ends, Ends->>=,
  Ends-exists, done, panic, ◌==◌, ==_refl, Bool-cases,
}
use mathlib.Core.List.{append_assoc, append-nil}
use mathlib.Core.Path.{subst}
use mum.Audio.Effects.{NotificationEvents}
use mum.Common.Dict.{get, get-remove}
use mum.Protocol.{UserState, UserRemove}
use mum.Mumlib.Event.{MumbleEvent, MumbleEventKind}
use mum.State.User.{User}
use mum.State.Server
use mum.State.Server.{Server, ConnectedServer, users_channel}
use mum.State.Core.{State, Daemon, Env, push_event}
use mum.State.Presence.{
  Notes, announce, farewell, user_state, user_state_in, remove_user, remove_user_in, commit,
  push_events,
}
use mum.State.Presence.Laws.{IsLoaded, Keeps, Keeps-refl, sound-Kept, tell-Kept}

-- The state after the events are pushed.
pub push_events_lem :
    (env : Env) (s : State) (kinds : List MumbleEventKind)
    → push_events env s kinds
      ≡ record s { events = s.events ++ map (λ k. record { timestamp = env.now; kind = k }) kinds }
unfolding push_events push_event
push_events_lem env s [] = rw append-nil
push_events_lem env s (k ∷ kinds) =
    rw (push_events_lem env (push_event env s k) kinds) (rw append_assoc)

-- The daemon after a change of the roster: the server has the new users, events are only added, and
-- the phase, the messages, the volumes, the sounds and what was sent are as before.
pub record After (d : Daemon) (server : Server) (e : Daemon) : Type 0 where
  pub server_is : e.state.server ≡ server
  pub added : List MumbleEvent
  pub events : e.state.events ≡ d.state.events ++ added
  pub phase : e.state.phase ≡ d.state.phase
  pub message_buffer : e.state.message_buffer ≡ d.state.message_buffer
  pub user_volumes : e.state.audio_output.user_volumes ≡ d.state.audio_output.user_volumes
  pub sounds : e.state.audio_output.sounds ≡ d.state.audio_output.sounds
  pub packets : e.packets ≡ d.packets

commit-After :
    (env : Env) (d : Daemon) (server : Server) (n : Notes)
    → Keeps d n.daemon
    → After d server (commit env server n)
unfolding commit
commit-After env d server n k = rw push_events_lem (record {
  server_is = refl;
  added = map (λ kind. record { timestamp = env.now; kind = kind }) n.kinds;
  events = rw k.events;
  phase = k.phase;
  message_buffer = k.message_buffer;
  user_volumes = k.user_volumes;
  sounds = k.sounds;
  packets = k.packets;
})

module _ (env : Env) (d : Daemon) (s : ConnectedServer) (me : User) where
  pub farewell-Kept :
      (msg : UserRemove) (user : User)
      → IsLoaded d.state
      → get s.users s.session_id ≡ some me
      → get s.users (get_or msg.session 0) ≡ some user
      → Ends (λ n. Keeps d n.daemon) (farewell s msg (record { daemon = d; kinds = [] }))
  unfolding farewell users_channel
  farewell-Kept msg user loaded here there =
      rw (here, there)
        (elim (Bool-cases (me.channel == user.channel)) [
          | inl same ↦ rw same (
              sound-Kept d loaded _ NotificationEvents.user_disconnected
                (tell-Kept d loaded _ _ _ (Keeps-refl d)))
          | inr other ↦ rw other (Keeps-refl d)
        ])

  -- While connected, with our own user and the user that leaves on the roster and the sounds loaded,
  -- `remove_user` returns: the user is off the roster, events are only added, nothing else changes.
  remove_user-After :
      (msg : UserRemove) (user : User)
      → IsLoaded d.state
      → d.state.server ≡ Server.connected s
      → get s.users s.session_id ≡ some me
      → get s.users (get_or msg.session 0) ≡ some user
      → Ends
          (After d (Server.connected (record s { users = Server.user_remove msg s.users })))
          (remove_user env d msg)
  unfolding remove_user
  remove_user-After msg user loaded on here there =
      let after = Server.connected (record s { users = Server.user_remove msg s.users }) in
      subst (λ server. Ends (After d after) (remove_user_in env server d msg)) (sym on)
        (Ends->>= (λ n. Keeps d n.daemon) _ (farewell s msg (record { daemon = d; kinds = [] })) _
          (farewell-Kept msg user loaded here there) (λ n k. commit-After env d after n k))

-- Without our own user on the roster every user state panics.
user_state_absent :
    (env : Env) (d : Daemon) (s : ConnectedServer) (msg : UserState)
    → d.state.server ≡ Server.connected s
    → get s.users s.session_id ≡ none
    → user_state env d msg ≡ panic
unfolding user_state announce users_channel
user_state_absent env d s msg on absent =
    subst (λ server. user_state_in env server d msg ≡ panic) (sym on) (rw absent)

-- When the server removes our own session, which is on the roster, the daemon takes our user off the
-- roster, stays connected, and panics at every user state that follows.
pub remove_user_self :
    (env : Env) (d : Daemon) (s : ConnectedServer) (me : User) (msg : UserRemove)
    → IsLoaded d.state
    → d.state.server ≡ Server.connected s
    → get s.users s.session_id ≡ some me
    → msg.session ≡ some s.session_id
    → (e : Daemon) × (remove_user env d msg ≡ done e)
      × ((next : UserState) → user_state env e next ≡ panic)
unfolding Server.user_remove
remove_user_self env d s me msg loaded on here ours =
    let there : get s.users (get_or msg.session 0) ≡ some me = simp ours here in
    let (e, returns, after) =
      Ends-exists _ _ (remove_user-After env d s me msg me loaded on here there) in
    (
      e,
      returns,
      λ next. user_state_absent env e _ next after.server_is (simp (ours, get-remove, ==_refl)),
    )

-- A removal of a user that is not on the roster panics, though our own user is there.
pub remove_user_unknown :
    (env : Env) (d : Daemon) (s : ConnectedServer) (me : User) (msg : UserRemove)
    → d.state.server ≡ Server.connected s
    → get s.users s.session_id ≡ some me
    → get s.users (get_or msg.session 0) ≡ none
    → remove_user env d msg ≡ panic
unfolding remove_user farewell users_channel
remove_user_unknown env d s me msg on here there =
    subst (λ server. remove_user_in env server d msg ≡ panic) (sym on) (rw (here, there))
