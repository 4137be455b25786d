-- ===== src/State/Handle/All.antt =====
-- `handle_command` itself.
pub mod Steps
pub mod Phases
pub mod Returns
use mum.Common.{some, ok, done, ◌>>=◌, []}
use mum.Mumlib.Command.{Command, CommandResponse}
use mum.Audio.Output
use mum.State.Core.{State, Daemon, Env, reload_config}
use mum.State.Handle.{ping, Reply, now_one, now_ok}
use mum.State.Handle.Mute.{deafen_self, mute_self}
use mum.State.Handle.Others.{
  set_output, mute_other, user_volume_set, channel_join, channel_list, status,
}
use mum.State.Handle.Messages.{send_message, past_messages, events}
use mum.State.Handle.Connect.{server_connect, server_disconnect}

unfoldable pub handle_command : Env → Daemon → Command → Reply
handle_command env d (Command.channel_join identifier) = channel_join env d identifier
handle_command env d Command.channel_list = channel_list d
handle_command env d Command.config_reload = do
  s ← reload_config env d.state
  now_ok (record d { state = s })
handle_command env d (Command.deafen_self toggle) = deafen_self d toggle
handle_command env d (Command.events block) = events d block
handle_command env d (Command.input_volume_set volume) =
    now_ok (record d { state = record (d.state) { audio_input = volume } })
handle_command env d (Command.mute_other username toggle) = mute_other d username toggle
handle_command env d (Command.mute_self toggle) = mute_self d toggle
handle_command env d (Command.output_volume_set volume) =
    now_ok (set_output d (λ a. Output.set_volume a volume))
handle_command env d (Command.past_messages block) = past_messages d block
handle_command env d Command.ping = now_one d (ok (some CommandResponse.pong))
handle_command env d (Command.send_message message targets) = send_message env d message targets
handle_command env d (Command.server_connect r) = server_connect env d r
handle_command env d Command.server_disconnect = server_disconnect d
handle_command env d (Command.server_status host port) = done (d, ping host port)
handle_command env d Command.status = status d
handle_command env d (Command.user_volume_set username volume) = user_volume_set d username volume
