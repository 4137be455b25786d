-- ===== src/State/Server/Histories.antt =====
-- What the map of users holds after any messages: of every field the last that was said.
use mum.Common.{
  ℕ, ◌≡◌, refl, ap, ◌∙◌, inl, inr, Bool, false, Bool-cases, ◌==◌, ==_iff, ==_refl, Option, none,
  some, get_or, Option-cases, List, [], ◌∷◌, keep_if,
}
use mum.Common.Dict.{Dict, get}
use mum.Protocol.{UserState}
use mum.State.User.{User, parse_user_state, update, update_some}
use mum.State.User.Updates.{blank, later}
use mum.State.Server.{user_state}
use mum.State.Server.Roster.{get-user_state}

-- The last of the messages that says something of a field.
abbrev pub last_set {ℓ} : {A : Type ℓ} → (UserState → Option A) → List UserState → Option A
last_set field [] = none
last_set field (m ∷ ms) = later (field m) (last_set field ms)

abbrev pub or_old {ℓ} : {A : Type ℓ} → Option A → Option A → Option A
or_old none old = old
or_old (some v) old = some v

-- Every field is the last that was said of it, or the old one.
abbrev pub recorded : User → List UserState → User
recorded u ms = record {
  channel = get_or (last_set (λ m. m.channel_id) ms) u.channel;
  comment = or_old (last_set (λ m. m.comment) ms) u.comment;
  hash = or_old (last_set (λ m. m.hash) ms) u.hash;
  name = get_or (last_set (λ m. m.name) ms) u.name;
  priority_speaker = get_or (last_set (λ m. m.priority_speaker) ms) u.priority_speaker;
  recording = get_or (last_set (λ m. m.recording) ms) u.recording;
  suppress = get_or (last_set (λ m. m.suppress) ms) u.suppress;
  self_mute = get_or (last_set (λ m. m.self_mute) ms) u.self_mute;
  self_deaf = get_or (last_set (λ m. m.self_deaf) ms) u.self_deaf;
  mute = get_or (last_set (λ m. m.mute) ms) u.mute;
  deaf = get_or (last_set (λ m. m.deaf) ms) u.deaf;
}

-- What messages make of a user that may be known before; `blank` has no comment, no hash, no name, no
-- flag, and is in the channel 0.
abbrev pub after_messages : Option User → List UserState → Option User
after_messages known [] = known
after_messages none (m ∷ ms) = some (recorded blank (m ∷ ms))
after_messages (some u) (m ∷ ms) = some (recorded u (m ∷ ms))

abbrev pub is_for : ℕ → Option ℕ → Bool
is_for id none = false
is_for id (some session) = session == id

-- The messages about a session.
abbrev pub messages_for : ℕ → List UserState → List UserState
messages_for id ms = keep_if (λ m. is_for id m.session) ms

-- The map after messages in turn.
abbrev pub user_states : List UserState → Dict User → Dict User
user_states [] users = users
user_states (m ∷ ms) users = user_states ms (user_state m users)

module _ {ℓ} {A : Type ℓ} where
  get_or-later : (a b : Option A) (old : A) → get_or (later a b) old ≡ get_or b (update old a)
  get_or-later none none old = refl
  get_or-later (some v) none old = refl
  get_or-later a (some w) old = refl

  or_old-later : (a b old : Option A) → or_old (later a b) old ≡ or_old b (update_some old a)
  or_old-later none none old = refl
  or_old-later (some v) none old = refl
  or_old-later a (some w) old = refl

recorded-parse_user_state :
    (u : User) (m : UserState) (ms : List UserState)
    → recorded (parse_user_state u m) ms ≡ recorded u (m ∷ ms)
unfolding parse_user_state
recorded-parse_user_state u m ms = simp (get_or-later, or_old-later)

after_messages-recorded :
    (known : Option User) (m : UserState) (ms : List UserState)
    → after_messages (some (parse_user_state (get_or known blank) m)) ms
      ≡ after_messages known (m ∷ ms)
after_messages-recorded none m [] = ap some (recorded-parse_user_state blank m [])
after_messages-recorded (some u) m [] = ap some (recorded-parse_user_state u m [])
after_messages-recorded none m (n ∷ ms) = ap some (recorded-parse_user_state blank m (n ∷ ms))
after_messages-recorded (some u) m (n ∷ ms) = ap some (recorded-parse_user_state u m (n ∷ ms))

user_state_without_session :
    (m : UserState) (users : Dict User) → m.session ≡ none → user_state m users ≡ users
unfolding user_state
user_state_without_session m users h = rw h refl

-- After user states in any number and order, every user is the one that was there before, if there
-- was one, with each field replaced by the last that a message about its session said of it; who was
-- not there is there from the first message about the session on, and the other messages, those
-- without a session included, do not matter.
pub get-user_states :
    (ms : List UserState) (users : Dict User) (id : ℕ)
    → get (user_states ms users) id ≡ after_messages (get users id) (messages_for id ms)
get-user_states [] users id = refl
get-user_states (m ∷ ms) users id =
    get-user_states ms (user_state m users) id ∙ elim (Option-cases m.session) [
      | inl nobody ↦ rw (user_state_without_session m users nobody, nobody) refl
      | inr (k, someone) ↦ elim (Bool-cases (k == id)) [
        | inl same ↦
            simp (get-user_state m users k id someone, someone, ==_refl, (==_iff k id).0 same)
              (after_messages-recorded (get users id) m (messages_for id ms))
        | inr other ↦ rw (get-user_state m users k id someone, someone, other) refl
      ]
    ]
