-- ===== src/Mumlib/Command.antt =====
-- mumlib/src/command.rs: the commands and the responses. A volume is an `f32`, kept as its bits.
use mum.Common.{ℕ, Text, Bool, Option, List, Result}
use mum.Mumlib.Error.{Error}
use mum.Mumlib.Event.{MumbleEvent}
use mum.Mumlib.Tree

abbrev pub F32 : Type 0
F32 = ℕ

pub data ChannelTarget : Type 0 where
  current : ChannelTarget
  named : Text → ChannelTarget

pub data MessageTarget : Type 0 where
  channel : List (ChannelTarget × Bool) → MessageTarget
  user : List Text → MessageTarget

pub record ConnectRequest : Type 0 where
  pub host : Text
  pub port : ℕ
  pub username : Text
  pub password : Option Text
  pub accept_invalid_cert : Bool

pub data Command : Type 0 where
  channel_join : Text → Command
  channel_list : Command
  config_reload : Command
  deafen_self : Option Bool → Command
  events : Bool → Command
  input_volume_set : F32 → Command
  mute_other : Text → Option Bool → Command
  mute_self : Option Bool → Command
  output_volume_set : F32 → Command
  past_messages : Bool → Command
  ping : Command
  send_message : Text → MessageTarget → Command
  server_connect : ConnectRequest → Command
  server_disconnect : Command
  server_status : Text → ℕ → Command
  status : Command
  user_volume_set : Text → F32 → Command

pub data CommandResponse : Type 0 where
  channel_list : Tree.Channel → CommandResponse
  deafen_status : Bool → CommandResponse
  event : MumbleEvent → CommandResponse
  mute_status : Bool → CommandResponse
  past_message : ℕ → Text → Text → CommandResponse
  pong : CommandResponse
  server_connect : Option Text → Tree.Server → CommandResponse
  server_status : ℕ → ℕ → ℕ → ℕ → CommandResponse
  status : Tree.Server → CommandResponse

-- `mumlib::error::Result<Option<CommandResponse>>`.
abbrev pub Response : Type 0
Response = Result (Option CommandResponse) Error
