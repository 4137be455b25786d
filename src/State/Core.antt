-- ===== src/State/Core.antt =====
-- mum/src/state.rs: the state of the daemon, its small operations, and the outside that it acts on.
pub mod Frame
pub mod Loading
use mum.Common.{
  ℕ, Text, text, show, Bool, Option, some, none, get_or, List, [], ◌++◌, push, Outcome, done, ◌>>=◌,
}
use mum.Common.Dict.{Dict, get}
use mum.Protocol.{UserState, TextMessage}
use mum.Mumlib.Command.{F32}
use mum.Mumlib.Config.{AudioConfig, Config}
use mum.Mumlib.Event.{MumbleEvent, MumbleEventKind}
use mum.Audio.Effects.{NotificationEvents, Codecs}
use mum.Audio.Output
use mum.Audio.Output.{AudioOutput}
use mum.State.User.{User}
use mum.State.Server.{Server, ConnectedServer}

pub data VoiceStreamType : Type 0 where
  tcp udp : VoiceStreamType

pub data StatePhase : Type 0 where
  disconnected connecting : StatePhase
  connected : VoiceStreamType → StatePhase

-- `audio_input` is the volume of the input device, `phase` the value of the phase channel.
pub record State : Type 0 where
  pub config : Config
  pub server : Server
  pub audio_input : F32
  pub audio_output : AudioOutput
  pub message_buffer : List (ℕ × Text × ℕ)
  pub phase : StatePhase
  pub events : List MumbleEvent

-- The address that name resolution gives is opaque.
abbrev pub SocketAddr : Type 0
SocketAddr = Text

-- mum/src/network.rs.
pub record ConnectionInfo : Type 0 where
  pub socket_addr : SocketAddr
  pub hostname : Text
  pub accept_invalid_cert : Bool

-- The packets that the program sends on the control channel.
pub data Packet : Type 0 where
  user_state : UserState → Packet
  text_message : TextMessage → Packet

-- The state, and what has been handed to the desktop, to the network and to the connection task.
pub record Daemon : Type 0 where
  pub state : State
  pub notifications : List Text
  pub packets : List Packet
  pub connection_info : Option ConnectionInfo

-- What the program reads from outside: the clock, name resolution (`none` for an error or no
-- address), the tables of Unicode, the configuration file (`none` for an error), the audio crates.
pub record Env : Type 0 where
  pub now : ℕ
  pub resolve : Text → ℕ → Option SocketAddr
  pub to_lowercase : Text → Text
  pub read_cfg : Option Config
  pub codecs : Codecs

abbrev pub set_server : Daemon → Server → Daemon
set_server d server = record d { state = record (d.state) { server = server } }

unfoldable pub push_event : Env → State → MumbleEventKind → State
push_event env s kind = record s {
  events = push s.events (record { timestamp = env.now; kind = kind });
}

unfoldable pub register_message : Env → State → Text → ℕ → State
register_message env s message actor = record s {
  message_buffer = push s.message_buffer (env.now, message, actor);
}

unfoldable pub broadcast_phase : State → StatePhase → State
broadcast_phase s phase = record s { phase = phase }

unfoldable pub play : State → NotificationEvents → Outcome State
play s effect = do
  output ← Output.play_effect s.audio_output effect
  done (record s { audio_output = output })

unfoldable pub initialized : State → Outcome State
unfolding broadcast_phase play
initialized s = play (broadcast_phase s (connected tcp)) NotificationEvents.server_connect

abbrev audio_field {ℓ} : {A : Type ℓ} → (AudioConfig → Option A) → Option AudioConfig → Option A
audio_field f none = none
audio_field f (some audio) = f audio

-- A configuration that cannot be read leaves the old one, which is applied again.
unfoldable pub reload_config : Env → State → Outcome State
reload_config env s =
    let config : Config = get_or env.read_cfg s.config in
    let input : F32 = get_or (audio_field (λ a. a.input_volume) config.audio) s.audio_input in
    let output : AudioOutput = elim (audio_field (λ a. a.output_volume) config.audio) [
      | none ↦ s.audio_output
      | some volume ↦ Output.set_volume s.audio_output volume
    ] in
    do
      loaded ← elim (audio_field (λ a. a.sound_effects) config.audio) [
        | none ↦ done output
        | some effects ↦ Output.reload_effects env.codecs output effects
      ]
      done (record s { config = config; audio_input = input; audio_output = loaded })

-- `State::new`, once the devices are there: the input device has the configured volume or 1.0.
unfoldable pub new : Env → Config → ℕ → Outcome State
unfolding reload_config
new env config num_channels = do
  output ←
      Output.new env.codecs num_channels
        (get_or (audio_field (λ a. a.output_volume) config.audio) Output.one)
  reload_config env (record {
    config = config;
    server = Server.disconnected;
    audio_input = get_or (audio_field (λ a. a.input_volume) config.audio) Output.one;
    audio_output = output;
    message_buffer = [];
    phase = disconnected;
    events = [];
  })

username_of : Server → Option Text
username_of Server.disconnected = none
username_of (Server.connecting sb) = some sb.username
username_of (Server.connected s) = some s.username

unfoldable pub username : State → Option Text
unfolding username_of
username s = username_of s.server

password_of : Server → Option Text
password_of Server.disconnected = none
password_of (Server.connecting sb) = sb.password
password_of (Server.connected s) = none

unfoldable pub password : State → Option Text
unfolding password_of
password s = password_of s.server

-- The name of a user on the server, or a text with the number for one that is not there.
unfoldable pub name_on : ConnectedServer → ℕ → Text
name_on s user = elim (get s.users user) [
  | none ↦ text "Unknown user " ++ show user
  | some u ↦ u.name
]

name_in : Server → ℕ → Option Text
unfolding name_on
name_in Server.disconnected user = none
name_in (Server.connecting sb) user = none
name_in (Server.connected s) user = some (name_on s user)

unfoldable pub get_user_name : State → ℕ → Option Text
unfolding name_in
get_user_name s user = name_in s.server user
