-- ===== src/State/Server.antt =====
-- mum/src/state/server.rs: the server as the daemon knows it, while connecting and when connected.
pub mod Names
pub mod Roster
pub mod Histories
use mum.Common.{
  ℕ, Text, Bool, true, false, Option, some, none, get_or, is_some, List, [], ◌∷◌, map, keep_if,
  ends_with, Outcome, done, unwrap, ◌>>=◌, Result, ok, err, if◌then◌else◌,
}
use mum.Common.Dict.{Dict, get, insert, remove}
use mum.Protocol.{UserState, ChannelState, UserRemove, ChannelRemove, ServerSync}
use mum.Mumlib.Error.{ChannelIdentifierError, invalid, ambiguous}
use mum.State.User
use mum.State.User.{User}
use mum.State.Channel
use mum.State.Channel.{Channel}

pub record ConnectingServer : Type 0 where
  pub channels : Dict Channel
  pub users : Dict User
  pub welcome_text : Option Text
  pub username : Text
  pub password : Option Text
  pub host : Text

pub record ConnectedServer : Type 0 where
  pub channels : Dict Channel
  pub users : Dict User
  pub welcome_text : Option Text
  pub username : Text
  pub session_id : ℕ
  pub muted : Bool
  pub deafened : Bool
  pub host : Text

pub data Server : Type 0 where
  disconnected : Server
  connecting : ConnectingServer → Server
  connected : ConnectedServer → Server

unfoldable pub new : Text → Text → Option Text → ConnectingServer
new host username password = record {
  channels = [];
  users = [];
  welcome_text = none;
  username = username;
  password = password;
  host = host;
}

-- The free functions at the end of the file: a message without its id is dropped.
unfoldable pub user_state : UserState → Dict User → Dict User
user_state msg users = elim msg.session [
  | none ↦ users
  | some id ↦ elim (get users id) [
    | none ↦ insert users id (User.new msg)
    | some u ↦ insert users id (User.parse_user_state u msg)
  ]
]

unfoldable pub channel_state : ChannelState → Dict Channel → Dict Channel
channel_state msg channels = elim msg.channel_id [
  | none ↦ channels
  | some id ↦ elim (get channels id) [
    | none ↦ insert channels id (Channel.new msg)
    | some c ↦ insert channels id (Channel.parse_channel_state c msg)
  ]
]

unfoldable pub channel_remove : ChannelRemove → Dict Channel → Dict Channel
channel_remove msg channels = elim msg.channel_id [
  | none ↦ channels
  | some id ↦ elim (get channels id) [ none ↦ channels | some c ↦ remove channels id ]
]

-- `users.remove(&msg.get_session())`.
unfoldable pub user_remove : UserRemove → Dict User → Dict User
user_remove msg users = remove users (get_or msg.session 0)

unfoldable pub server_sync : ConnectingServer → ServerSync → ConnectedServer
server_sync sb msg = record {
  channels = sb.channels;
  users = sb.users;
  welcome_text = msg.welcome_text;
  username = sb.username;
  session_id = get_or msg.session 0;
  muted = false;
  deafened = false;
  host = sb.host;
}

-- `users_channel`: a user that is not in the map panics.
unfoldable pub users_channel : ConnectedServer → ℕ → Outcome ℕ
users_channel s user = do u ← unwrap (get s.users user); done u.channel

unfoldable pub current_channel : ConnectedServer → Outcome (ℕ × Channel)
current_channel s = do
  u ← unwrap (get s.users s.session_id)
  c ← unwrap (get s.channels u.channel)
  done (u.channel, c)

-- Every channel beside its path.
unfoldable pub paths : Dict Channel → Dict Channel → Outcome (List ((ℕ × Channel) × Text))
paths channels [] = done []
paths channels ((id, c) ∷ rest) = do
  p ← Channel.path channels c
  ps ← paths channels rest
  done (((id, c), p) ∷ ps)

abbrev pub Named : Type 0
Named = Result (ℕ × Channel) ChannelIdentifierError

unfoldable pub soft_match : List ((ℕ × Channel) × Text) → Named
soft_match [] = err invalid
soft_match (m ∷ []) = ok m.0
soft_match (m ∷ n ∷ rest) = err ambiguous

unfoldable pub exact_match : List ((ℕ × Channel) × Text) → Named → Named
exact_match [] soft = soft
exact_match (m ∷ []) soft = ok m.0
exact_match (m ∷ n ∷ rest) soft = err ambiguous

-- `to_lowercase` goes by the tables of Unicode and is an argument.
unfoldable pub channel_name : (Text → Text) → Dict Channel → Text → Outcome Named
unfolding soft_match exact_match
channel_name to_lowercase channels name = do
  ps ← paths channels channels
  done (
      exact_match (keep_if (λ e. ends_with e.1 name) ps)
        (soft_match (keep_if (λ e. ends_with (to_lowercase e.1) (to_lowercase name)) ps)))
