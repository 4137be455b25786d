-- ===== src/State/Presence/Moves.antt =====
-- Which moves between channels are reported, and a report of a move that did not happen.
use mathlib.Core.Path.{subst}
use mum.Common.{
  ℕ, ◌≡◌, sym, ◌≢◌, inl, inr, refl, ap, Text, true, false, none, some, get_or, List, [], ◌∷◌, ◌++◌,
  map, Ends, Ends->>=, arith, ◌==◌, Bool-cases, Option-cases, push, is_some, ◌||◌,
}
use mum.Common.Dict.{get}
use mum.Protocol.{UserState}
use mum.Mumlib.Event.{MumbleEvent, MumbleEventKind, user_left_channel, user_joined_channel}
use mum.Audio.Effects.{NotificationEvents}
use mum.Audio.Output.{play_effect}
use mum.State.User.{User, parse_user_state}
use mum.State.Channel.{Channel}
use mum.State.Server
use mum.State.Server.{Server, ConnectedServer, users_channel}
use mum.State.Server.Roster.{get-user_state}
use mum.State.Core.{Daemon, Env, play}
use mum.State.Presence.{
  Notes, tell, sound, moved_away, moved_here, moved, muted, announce, user_state, user_state_in,
  commit, message_session, changed,
}
use mum.State.Presence.Laws.{IsLoaded}
use mum.State.Presence.Safe.{push_events_lem}

-- What a move tells: `left` and `joined` name the other channel.
pub data Told (s : ConnectedServer) (ours to : ℕ) (user : User)
    : List MumbleEventKind → Type 0 where
  nothing : Told s ours to user []
  left :
      (c : Channel) {kinds : List MumbleEventKind}
      → user.channel ≡ ours
      → to ≢ ours
      → get s.channels to ≡ some c
      → kinds ≡ user_left_channel user.name c.name ∷ []
      → Told s ours to user kinds
  joined :
      (c : Channel) {kinds : List MumbleEventKind}
      → to ≡ ours
      → user.channel ≢ ours
      → get s.channels user.channel ≡ some c
      → kinds ≡ user_joined_channel user.name c.name ∷ []
      → Told s ours to user kinds

module _ (s : ConnectedServer) (ours to : ℕ) (user : User) where
  sound-Told :
      (n : Notes) (effect : NotificationEvents)
      → IsLoaded n.daemon.state
      → Told s ours to user n.kinds
      → Ends (λ m. Told s ours to user m.kinds) (sound n effect)
  unfolding sound play play_effect
  sound-Told n effect loaded t = let (samples, e) = loaded effect in rw e t

  module _ (d : Daemon) (loaded : IsLoaded d.state) where
    abbrev start : Notes
    start = record { daemon = d; kinds = [] }

    moved_away-Told :
        user.channel ≡ ours
        → to ≢ ours
        → Ends (λ m. Told s ours to user m.kinds) (moved_away s to user start)
    unfolding moved_away tell
    moved_away-Told from other = elim (Option-cases (get s.channels to)) [
      | inl unknown ↦ rw unknown (sound-Told start _ loaded nothing)
      | inr (c, known) ↦ rw known (sound-Told _ _ loaded (left c from other known refl))
    ]

    moved_here-Told :
        to ≡ ours
        → user.channel ≢ ours
        → Ends (λ m. Told s ours to user m.kinds) (moved_here s user start)
    unfolding moved_here tell
    moved_here-Told here other = elim (Option-cases (get s.channels user.channel)) [
      | inl unknown ↦ rw unknown (sound-Told start _ loaded nothing)
      | inr (c, known) ↦ rw known (sound-Told _ _ loaded (joined c here other known refl))
    ]

    -- A move is told truthfully: nothing, or that the user left, if the user was in our channel and
    -- goes to another one that is known, or that the user joined, if it is the other way round.
    moved-Told : Ends (λ m. Told s ours to user m.kinds) (moved s ours to user start)
    unfolding moved
    moved-Told = elim (Bool-cases (user.channel == to)) [
      | inl stays ↦ rw stays nothing
      | inr goes ↦ rw goes (elim (Bool-cases (user.channel == ours)) [
        | inl from ↦ rw from (moved_away-Told (ground arith) (λ e. ground arith))
        | inr elsewhere ↦ rw elsewhere (elim (Bool-cases (to == ours)) [
          | inl here ↦ rw here (moved_here-Told (ground arith) (λ e. ground arith))
          | inr away ↦ rw away nothing
        ])
      ])
    ]

-- A note that tells one event first.
abbrev Begins : Daemon → MumbleEventKind → Notes → Type 0
Begins d kind n =
    (more : List MumbleEventKind) × (n.kinds ≡ kind ∷ more)
    × (n.daemon.state.events ≡ d.state.events)

module _ (d : Daemon) (kind : MumbleEventKind) where
  sound-Begins :
      (n : Notes) (effect : NotificationEvents)
      → IsLoaded n.daemon.state
      → Begins d kind n
      → Ends (Begins d kind) (sound n effect)
  unfolding sound play play_effect
  sound-Begins n effect loaded b = let (samples, e) = loaded effect in rw e b

  tell-Begins :
      (n : Notes) (message : Text) (k : MumbleEventKind)
      → Begins d kind n
      → Begins d kind (tell n message k)
  unfolding tell
  tell-Begins n message k (more, kinds, events) =
      (push more k, ap (λ (l : List MumbleEventKind). push l k) kinds, events)

  muted-Begins :
      (msg : UserState) (user : User) (n : Notes)
      → Begins d kind n
      → Begins d kind (muted msg user n)
  unfolding muted
  muted-Begins msg user n b =
      elim (Bool-cases (
        is_some (changed user.self_mute msg.self_mute)
        || is_some (changed user.self_deaf msg.self_deaf))) [
          | inl some_change ↦ rw some_change (tell-Begins n _ _ b)
          | inr no_change ↦ rw no_change b
        ]

  commit-Begins :
      (env : Env) (server : Server) (n : Notes)
      → Begins d kind n
      → (later : List MumbleEvent) × ((commit env server n).state.events
          ≡ d.state.events ++ record { timestamp = env.now; kind = kind } ∷ later)
        × ((commit env server n).state.server ≡ server)
  unfolding commit
  commit-Begins env server n (more, kinds, events) =
      rw push_events_lem
        (map (λ k. record { timestamp = env.now; kind = k }) more, rw (kinds, events), refl)

moved-root :
    (d : Daemon) (s : ConnectedServer) (user : User) (root : Channel) (ours : ℕ)
    → IsLoaded d.state
    → user.channel ≡ ours
    → user.channel ≢ 0
    → get s.channels 0 ≡ some root
    → Ends
        (Begins d (user_left_channel user.name root.name))
        (moved s ours 0 user (record { daemon = d; kinds = [] }))
unfolding moved moved_away tell
moved-root d s user root ours loaded same far known =
    let stays : (user.channel == 0) ≡ false = ground arith in
    let from : (user.channel == ours) ≡ true = ground arith in
    rw stays (
      rw from (
        rw known
          (sound-Begins d (user_left_channel user.name root.name) _ _ loaded ([], refl, refl))))

-- The first event stored is that the user left for the root, and the user's channel is as before.
abbrev pub Spurious :
    Env → Daemon → ConnectedServer → User → Channel → UserState → ℕ → Daemon → Type 0
Spurious env d s user root msg id e =
    (later : List MumbleEvent) × (e.state.events
      ≡ d.state.events
        ++ record { timestamp = env.now; kind = user_left_channel user.name root.name } ∷ later)
    × (e.state.server ≡ Server.connected (record s { users = Server.user_state msg s.users }))
    × (get (Server.user_state msg s.users) id ≡ some (parse_user_state user msg))
    × ((parse_user_state user msg).channel ≡ user.channel)

-- A user state that says nothing of the channel, about another user who is in our channel: if our
-- channel is not the root, which is on the map, the first event stored is that the user left for the
-- root, while the roster has the user in our channel as before.
pub user_state_without_channel :
    (env : Env) (d : Daemon) (s : ConnectedServer) (me user : User) (root : Channel)
    (msg : UserState) (id : ℕ)
    → IsLoaded d.state
    → d.state.server ≡ Server.connected s
    → get s.users s.session_id ≡ some me
    → msg.session ≡ some id
    → msg.channel_id ≡ none
    → id ≢ s.session_id
    → get s.users id ≡ some user
    → user.channel ≡ me.channel
    → user.channel ≢ 0
    → get s.channels 0 ≡ some root
    → Ends (Spurious env d s user root msg id) (user_state env d msg)
unfolding user_state announce users_channel parse_user_state
user_state_without_channel env d s me user root msg id loaded on here ms mc other there same far
      known =
    let ours : (message_session msg == s.session_id) ≡ false = ground arith in
    let at : get s.users (message_session msg) ≡ some user = simp ms there in
    let to : get_or msg.channel_id 0 ≡ 0 = simp mc in
    let kind = user_left_channel user.name root.name in
    let server = Server.connected (record s { users = Server.user_state msg s.users }) in
    let told : Ends (Begins d kind) (announce s msg (record { daemon = d; kinds = [] })) =
      rw (here, ours, at, to)
        (Ends->>= (Begins d kind) (Begins d kind)
          (moved s me.channel 0 user (record { daemon = d; kinds = [] })) _
          (moved-root d s user root me.channel loaded same far known)
          (λ n b. muted-Begins d kind msg user n b)) in
    subst (λ x. Ends (Spurious env d s user root msg id) (user_state_in env x d msg)) (sym on)
      (Ends->>= (Begins d kind) (Spurious env d s user root msg id)
        (announce s msg (record { daemon = d; kinds = [] })) _ told
        (λ n b.
          let (later, events, after) = commit-Begins d kind env server n b in
          (later, events, after, roster, stays)))
  where
    roster : get (Server.user_state msg s.users) id ≡ some (parse_user_state user msg)
    roster = ground (arith, get-user_state msg s.users id id ms)

    stays : (parse_user_state user msg).channel ≡ user.channel
    stays = ground arith
