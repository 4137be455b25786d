-- ===== src/Tests/Data.antt =====
-- A server with a root and a lobby, where Ann, who is ours, and Bob are.
use mum.Audio.Effects.{
  AudioFileKind, ogg, wav, int, chosen_source, get_sfx, unpack_audio, unpack_ogg, unpack_wav,
  wav_samples, unwrap_all, kind_try_from, extension,
}
use mum.Audio.Effects.Complete.{Decodes, Unpacks}
use mum.Common.{
  inl, inr, Bool-cases, Option-cases, text_eq, if◌then◌else◌, ℕ, List, Ends, done, ◌>>=◌, refl,
  text, true, false, none, some, [], ◌∷◌, pos,
}
use mum.Common.Dict.{Dict, get}
use mum.Protocol.{UserState, ServerSync, TextMessage}
use mum.Mumlib.Command.{ConnectRequest}
use mum.Audio.Effects.{NotificationEvents}
use mum.Audio.Output.{AudioOutput, one}
use mum.State.User.{User}
use mum.State.User.Updates.{blank}
use mum.State.Channel.{Channel}
use mum.State.Channel.Rooted.{Rooted, root, below}
use mum.State.Server.{Server, ConnectedServer, ConnectingServer}
use mum.State.Server.Names.{IsForest}
use mum.State.Core.{State, StatePhase, VoiceStreamType, Daemon, Env}
use mum.State.Presence.Laws.{IsLoaded}

abbrev pub root_channel : Channel
root_channel = record {
  description = none;
  links = [];
  max_users = 0;
  name = text "Root";
  parent = none;
  position = pos 0;
}

abbrev pub lobby : Channel
lobby = record root_channel { name = text "Lobby"; parent = some 0 }

abbrev pub map_of_channels : Dict Channel
map_of_channels = (0, root_channel) ∷ (1, lobby) ∷ []

pub lobby-Rooted : Rooted map_of_channels 1 lobby
unfolding get
lobby-Rooted = below 0 root_channel refl refl (root refl)

pub map_of_channels-IsForest : IsForest map_of_channels
map_of_channels-IsForest = ((0, root refl), ((1, lobby-Rooted), tt))

abbrev pub ann : User
ann = record blank { name = text "ann"; channel = 1 }

abbrev pub bob : User
bob = record blank { name = text "bob"; channel = 1 }

abbrev pub roster : Dict User
roster = (7, ann) ∷ (8, bob) ∷ []

abbrev pub attempt : ConnectingServer
attempt = record {
  channels = map_of_channels;
  users = roster;
  welcome_text = none;
  username = text "ann";
  password = none;
  host = text "example.org:64738";
}

abbrev pub home : ConnectedServer
home = record {
  channels = map_of_channels;
  users = roster;
  welcome_text = none;
  username = text "ann";
  session_id = 7;
  muted = false;
  deafened = false;
  host = text "example.org:64738";
}

abbrev pub output : AudioOutput
output = record {
  volume = one;
  num_channels = 2;
  user_volumes = [];
  buffer_effects = [];
  sounds =
      (0, 0 ∷ [])
      ∷ (1, 1 ∷ [])
      ∷ (2, 2 ∷ [])
      ∷ (3, 3 ∷ [])
      ∷ (4, 4 ∷ [])
      ∷ (5, 5 ∷ [])
      ∷ (6, 6 ∷ [])
      ∷ (7, 7 ∷ [])
      ∷ (8, 8 ∷ [])
      ∷ (9, 9 ∷ [])
      ∷ [];
}

abbrev pub state_with : Server → StatePhase → State
state_with server phase = record {
  config = record { allow_invalid_server_cert = none; audio = none; servers = none };
  server = server;
  audio_input = one;
  audio_output = output;
  message_buffer = (3, text "hi", 8) ∷ [];
  phase = phase;
  events = [];
}

abbrev pub daemon_with : Server → StatePhase → Daemon
daemon_with server phase = record {
  state = state_with server phase;
  notifications = [];
  packets = [];
  connection_info = none;
}

abbrev pub online : Daemon
online = daemon_with (Server.connected home) (StatePhase.connected VoiceStreamType.tcp)

abbrev pub trying : Daemon
trying = daemon_with (Server.connecting attempt) StatePhase.connecting

abbrev pub offline : Daemon
offline = daemon_with Server.disconnected StatePhase.disconnected

pub output-IsLoaded : (server : Server) (phase : StatePhase) → IsLoaded (state_with server phase)
unfolding get
output-IsLoaded server phase NotificationEvents.server_connect = (0 ∷ [], refl)
output-IsLoaded server phase NotificationEvents.server_disconnect = (1 ∷ [], refl)
output-IsLoaded server phase NotificationEvents.user_connected = (2 ∷ [], refl)
output-IsLoaded server phase NotificationEvents.user_disconnected = (3 ∷ [], refl)
output-IsLoaded server phase NotificationEvents.user_joined_channel = (4 ∷ [], refl)
output-IsLoaded server phase NotificationEvents.user_left_channel = (5 ∷ [], refl)
output-IsLoaded server phase NotificationEvents.mute = (6 ∷ [], refl)
output-IsLoaded server phase NotificationEvents.unmute = (7 ∷ [], refl)
output-IsLoaded server phase NotificationEvents.deafen = (8 ∷ [], refl)
output-IsLoaded server phase NotificationEvents.undeafen = (9 ∷ [], refl)

abbrev pub online-IsLoaded : IsLoaded online.state
online-IsLoaded = output-IsLoaded (Server.connected home) (StatePhase.connected VoiceStreamType.tcp)

-- The outside: every host resolves to the address `[1]`, and lower case is the text itself.
abbrev pub outside : Env
outside = record {
  now = 9;
  resolve = λ host port. some (1 ∷ []);
  to_lowercase = λ t. t;
  read_cfg = none;
  codecs = record {
    open_file = λ file. if text_eq file (text "beep.wav") then some (some (3 ∷ [])) else none;
    fallback_sfx = [];
    wav_reader = λ bytes. some (record { channels = 1; sample_rate = 48000; sample_format = int });
    wav_floats = λ bytes. [];
    wav_ints = λ bytes. some 5 ∷ [];
    ogg_feature = true;
    ogg_reader = λ bytes. some (record { channels = 2; sample_rate = 48000 });
    ogg_frames = λ bytes. [];
    to_f32 = λ i. i;
    resample = λ rate samples. [];
  };
}

abbrev pub about : ℕ → UserState
about session = record {
  session = some session;
  name = none;
  channel_id = none;
  mute = none;
  deaf = none;
  suppress = none;
  self_mute = none;
  self_deaf = none;
  comment = none;
  hash = none;
  priority_speaker = none;
  recording = none;
}

abbrev pub request : ConnectRequest
request = record {
  host = text "example.org";
  port = 64738;
  username = text "ann";
  password = none;
  accept_invalid_cert = false;
}

abbrev pub login : ServerSync
login = record { session = some 7; welcome_text = some (text "welcome") }

abbrev pub greeting : TextMessage
greeting = record {
  actor = some 8;
  session = [];
  channel_id = [];
  tree_id = [];
  message = text "hello";
}

pub outside-Decodes : Decodes outside.codecs
unfolding chosen_source get_sfx unpack_audio unpack_ogg unpack_wav wav_samples unwrap_all
outside-Decodes none = inl refl
outside-Decodes (some file) = elim (Option-cases (kind_try_from (extension file))) [
  | inl plain ↦ rw (chosen_source, plain) (inl refl)
  | inr (kind, known) ↦ rw (chosen_source, known) (opened kind)
]
  where
    unpacks : (kind : AudioFileKind) (bytes : List ℕ) → Unpacks outside.codecs (bytes, kind)
    unpacks ogg bytes = inr refl
    unpacks wav bytes = inl refl

    opened :
        (kind : AudioFileKind)
        → Ends
            (Unpacks outside.codecs)
            (get_sfx outside.codecs file >>= λ bytes. done (bytes, kind))
    opened kind = elim (Bool-cases (text_eq file (text "beep.wav"))) [
      | inl beep ↦ rw (Ends, get_sfx, beep) (unpacks kind (3 ∷ []))
      | inr other ↦ rw (Ends, get_sfx, other) (unpacks kind [])
    ]
