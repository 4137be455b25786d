-- ===== src/State/Presence/News.antt =====
-- Which events somebody's coming, moving, muting and leaving come to.
use mathlib.Core.List.{append-nil}
use mathlib.Core.Path.{ap₂}
use mum.Common.{
  ℕ, ◌≡◌, refl, sym, ap, ◌∙◌, inl, inr, Text, text, Bool, true, false, not, ◌&&◌, ◌||◌, is_some,
  Bool-cases, Option, none, some, get_or, Option-cases, List, [], ◌∷◌, ◌++◌, push, ◌==◌,
  if◌then◌else◌, Ends, Ends->>=, arith,
}
use mum.Common.Dict.{get}
use mum.Protocol.{UserState, UserRemove}
use mum.Mumlib.Event.{
  MumbleEventKind, user_left_channel, user_joined_channel, user_connected, user_disconnected,
  user_mute_state_changed,
}
use mum.Audio.Effects.{NotificationEvents}
use mum.Audio.Output.{play_effect}
use mum.State.User.{User}
use mum.State.Channel.{Channel}
use mum.State.Server.{ConnectedServer, users_channel}
use mum.State.Core.{Daemon, play}
use mum.State.Presence.{
  Notes, tell, sound, moved_away, moved_here, moved, muted, arrived, announce, farewell,
  channel_name_or, user_name_or, message_session, changed, mute_message,
}
use mum.State.Presence.Laws.{IsLoaded}

-- The event, if the channel is known.
abbrev pub by_name : Option Channel → (Text → MumbleEventKind) → List MumbleEventKind
by_name none kind = []
by_name (some c) kind = kind c.name ∷ []

-- A user who leaves our channel for another that is known, or comes to it from one.
abbrev pub move_news : ConnectedServer → ℕ → ℕ → User → List MumbleEventKind
move_news s ours to user =
    (if user.channel == ours && not (to == ours)
      then by_name (get s.channels to) (user_left_channel user.name)
      else [])
    ++ (if to == ours && not (user.channel == ours)
        then by_name (get s.channels user.channel) (user_joined_channel user.name)
        else [])

-- What a flag becomes, if the message says so and it was not so before.
abbrev pub new_value : Bool → Option Bool → Option Bool
new_value true (some false) = some false
new_value false (some true) = some true
new_value old field = none

abbrev pub word : Option Bool → Text → Text → List Text
word none on off = []
word (some true) on off = on ∷ []
word (some false) on off = off ∷ []

-- One event for what somebody does to themselves, with the words joined.
abbrev pub themselves : Text → List Text → List MumbleEventKind
themselves name [] = []
themselves name (a ∷ []) = user_mute_state_changed (name ++ (a ++ text " themselves")) ∷ []
themselves name (a ∷ b ∷ rest) =
    user_mute_state_changed (name ++ (a ++ (text " and" ++ (b ++ text " themselves")))) ∷ []

abbrev pub mute_news : Text → Option Bool → Option Bool → List MumbleEventKind
mute_news name mute deaf = themselves name (
    word mute (text " muted") (text " unmuted")
    ++ word deaf (text " deafened") (text " undeafened"))

abbrev pub name_or : Option Channel → Text
name_or none = text "<unnamed channel>"
name_or (some c) = c.name

-- The events of a message about somebody else, by what is known of them; `ours` is our channel.
abbrev pub news_of : ConnectedServer → ℕ → UserState → Option User → List MumbleEventKind
news_of s ours msg none =
    if ours == get_or msg.channel_id 0
    then user_connected (get_or msg.name []) (name_or (get s.channels ours)) ∷ []
    else []
news_of s ours msg (some user) =
    move_news s ours (get_or msg.channel_id 0) user
    ++ mute_news user.name (new_value user.self_mute msg.self_mute)
        (new_value user.self_deaf msg.self_deaf)

abbrev pub news : ConnectedServer → ℕ → UserState → List MumbleEventKind
news s ours msg =
    if get_or msg.session 0 == s.session_id
    then []
    else news_of s ours msg (get s.users (get_or msg.session 0))

-- The events of a user who disconnects.
abbrev pub farewell_news : ConnectedServer → ℕ → User → List MumbleEventKind
farewell_news s ours user =
    if ours == user.channel
    then user_disconnected user.name (name_or (get s.channels ours)) ∷ []
    else []

abbrev pub Has : List MumbleEventKind → Notes → Type 0
Has kinds n = n.kinds ≡ kinds

sound-Has :
    (n : Notes) (effect : NotificationEvents)
    → IsLoaded n.daemon.state
    → Ends (Has n.kinds) (sound n effect)
unfolding sound play play_effect
sound-Has n effect loaded = let (samples, e) = loaded effect in rw e refl

changed-new_value : (old : Bool) (field : Option Bool) → changed old field ≡ new_value old field
changed-new_value true none = refl
changed-new_value false none = refl
changed-new_value true (some true) = refl
changed-new_value true (some false) = refl
changed-new_value false (some true) = refl
changed-new_value false (some false) = refl

mute_news_lem :
    (name : Text) (mute deaf : Option Bool) (before : List MumbleEventKind)
    → (if is_some mute || is_some deaf
        then push before (user_mute_state_changed (mute_message name mute deaf))
        else before)
      ≡ before ++ mute_news name mute deaf
unfolding mute_message
mute_news_lem name none none before = sym (append-nil before)
mute_news_lem name none (some true) before = refl
mute_news_lem name none (some false) before = refl
mute_news_lem name (some true) none before = refl
mute_news_lem name (some false) none before = refl
mute_news_lem name (some true) (some true) before = refl
mute_news_lem name (some true) (some false) before = refl
mute_news_lem name (some false) (some true) before = refl
mute_news_lem name (some false) (some false) before = refl

if-kinds :
    (told : Bool) (n : Notes) (message : Text) (kind : MumbleEventKind)
    → (if told then tell n message kind else n).kinds
      ≡ (if told then push n.kinds kind else n.kinds)
unfolding tell
if-kinds true n message kind = refl
if-kinds false n message kind = refl

muted-Has :
    (msg : UserState) (user : User) (n : Notes)
    → (muted msg user n).kinds
      ≡ n.kinds
        ++ mute_news user.name
            (new_value user.self_mute msg.self_mute)
            (new_value user.self_deaf msg.self_deaf)
unfolding muted
muted-Has msg user n =
    let mute = changed user.self_mute msg.self_mute in
    let deaf = changed user.self_deaf msg.self_deaf in
    let message = mute_message user.name mute deaf in
    if-kinds (is_some mute || is_some deaf) n message (user_mute_state_changed message)
    ∙ mute_news_lem user.name mute deaf n.kinds
    ∙ ap (λ l. n.kinds ++ l)
        (ap₂ (mute_news user.name) (changed-new_value user.self_mute msg.self_mute)
          (changed-new_value user.self_deaf msg.self_deaf))

user_name_or-name :
    (s : ConnectedServer) (id : ℕ) (user : User)
    → get s.users id ≡ some user
    → user_name_or s id ≡ user.name
unfolding user_name_or
user_name_or-name s id user there = rw (user_name_or, there) refl

module _ (s : ConnectedServer) (d : Daemon) (loaded : IsLoaded d.state) where
  abbrev start : Notes
  start = record { daemon = d; kinds = [] }

  moved_away-Has :
      (to : ℕ) (user : User)
      → Ends
          (Has (by_name (get s.channels to) (user_left_channel user.name)))
          (moved_away s to user start)
  unfolding moved_away tell
  moved_away-Has to user = elim (Option-cases (get s.channels to)) [
    | inl unknown ↦ rw unknown (sound-Has start _ loaded)
    | inr (c, known) ↦ rw known (sound-Has _ _ loaded)
  ]

  moved_here-Has :
      (user : User)
      → Ends
          (Has (by_name (get s.channels user.channel) (user_joined_channel user.name)))
          (moved_here s user start)
  unfolding moved_here tell
  moved_here-Has user = elim (Option-cases (get s.channels user.channel)) [
    | inl unknown ↦ rw unknown (sound-Has start _ loaded)
    | inr (c, known) ↦ rw known (sound-Has _ _ loaded)
  ]

  moved-Has :
      (ours to : ℕ) (user : User)
      → Ends (Has (move_news s ours to user)) (moved s ours to user start)
  unfolding moved
  moved-Has ours to user = elim (Bool-cases (user.channel == to)) [
    | inl stays ↦ elim (Bool-cases (to == ours)) [
      | inl here ↦
          let also : (user.channel == ours) ≡ true = ground arith in rw (stays, also, here) refl
      | inr away ↦
          let also : (user.channel == ours) ≡ false = ground arith in rw (stays, also, away) refl
    ]
    | inr goes ↦ elim (Bool-cases (user.channel == ours)) [
      | inl from ↦
          let away : (to == ours) ≡ false = ground arith in
          rw (goes, from, away, append-nil) (moved_away-Has to user)
      | inr elsewhere ↦ elim (Bool-cases (to == ours)) [
        | inl here ↦ rw (goes, elsewhere, here) (moved_here-Has user)
        | inr away ↦ rw (goes, elsewhere, away) refl
      ]
    ]
  ]

  arrived-Has :
      (ours : ℕ) (msg : UserState)
      → Ends (Has (news_of s ours msg none)) (arrived s ours (get_or msg.channel_id 0) msg start)
  unfolding arrived tell channel_name_or
  arrived-Has ours msg = elim (Bool-cases (ours == get_or msg.channel_id 0)) [
    | inl here ↦ rw here (sound-Has _ _ loaded)
    | inr away ↦ rw away refl
  ]

  pub announce-Has :
      (msg : UserState) (me : User)
      → get s.users s.session_id ≡ some me
      → Ends (Has (news s me.channel msg)) (announce s msg start)
  unfolding announce users_channel
  announce-Has msg me here = rw here (elim (Bool-cases (message_session msg == s.session_id)) [
    | inl ours ↦ rw ours refl
    | inr other ↦ rw other (elim (Option-cases (get s.users (message_session msg))) [
      | inl fresh ↦ rw fresh (arrived-Has me.channel msg)
      | inr (user, known) ↦ rw known (
          Ends->>= (Has (move_news s me.channel (get_or msg.channel_id 0) user))
            (Has (news_of s me.channel msg (some user)))
            (moved s me.channel (get_or msg.channel_id 0) user start) _
            (moved-Has me.channel (get_or msg.channel_id 0) user)
            (λ n told.
              muted-Has msg user n
              ∙ ap
                  (λ l.
                    l
                    ++ mute_news user.name (new_value user.self_mute msg.self_mute)
                        (new_value user.self_deaf msg.self_deaf))
                  told))
    ])
  ])

  pub farewell-Has :
      (msg : UserRemove) (me user : User)
      → get s.users s.session_id ≡ some me
      → get s.users (get_or msg.session 0) ≡ some user
      → Ends (Has (farewell_news s me.channel user)) (farewell s msg start)
  unfolding farewell users_channel tell channel_name_or
  farewell-Has msg me user here there =
      let named = user_name_or-name s (get_or msg.session 0) user there in
      rw (here, there)
        (elim (Bool-cases (me.channel == user.channel)) [
          | inl same ↦ rw (same, named) (sound-Has _ _ loaded)
          | inr other ↦ rw other refl
        ])
