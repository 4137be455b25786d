-- ===== src/Tests/Commands.antt =====
-- Commands.
use mum.Common.{
  ◌≡◌, refl, text, true, false, Option, none, some, ok, [], ◌∷◌, map, done, Ends, WhenDone,
}
use mum.Common.Dict.{get}
use mum.Mumlib.Command.{Command, CommandResponse, Response}
use mum.Mumlib.Error.{Error}
use mum.State.Server.{Server}
use mum.State.Core.{Daemon}
use mum.State.Handle.{ExecutionContext, now}
use mum.State.Handle.Mute.{deafen_self, mute_self}
use mum.State.Handle.Mute.Laws.{Deafens, Mutes, deafen_self-Deafens, mute_self-Mutes}
use mum.State.Handle.Others.{find_user, mute_other}
use mum.State.Handle.Others.Laws.{MutedOther, mute_other-MutedOther}
use mum.State.Handle.Messages.{past_messages}
use mum.State.Handle.Messages.Laws.{past_response, past_messages-drain}
use mum.State.Handle.Connect.Laws.{handle_command_while_connecting}
use mum.State.Handle.All.{handle_command}
use mum.State.Handle.All.Steps.{Follows}
use mum.State.Handle.All.Phases.{handle_command-Follows}
use mum.Network.Queue
use mum.Network.Queue.{World}
use mum.Commands.{Loop, handle}
use mum.Commands.Waiting.{Pending, handle-Pending}
use mum.Mumlib.Tree
use mum.Mumd.{Bincode, Bytes, Connection, answers_to, serve, launch, stream, already_running}
use mum.Mumd.Instances.{pong, serve-launch}
use mum.State.Channel.Tree.{into_channel}
use mum.State.Channel.Tree.Total.{into_channel-Returns}
use mum.State.Handle.All.Returns.{IsReady, handle_command_while_connected}
use mum.State.Core.{StatePhase}
use mum.Tests.Data.{
  root_channel, map_of_channels, roster, lobby, ann, output-IsLoaded, map_of_channels-IsForest,
  home, bob, attempt, online, trying, offline, online-IsLoaded, outside, outside-Decodes, request,
}

deafen_self-Deafens_example : Ends (Deafens online home none) (deafen_self online none)
deafen_self-Deafens_example = deafen_self-Deafens online home none online-IsLoaded refl

mute_self-Mutes_example : Ends (Mutes online home (some true)) (mute_self online (some true))
mute_self-Mutes_example = mute_self-Mutes online home (some true) online-IsLoaded refl

mute_other-MutedOther_example :
    Ends (λ r. MutedOther online home 8 bob none r.0) (mute_other online (text "bob") none)
unfolding find_user get
mute_other-MutedOther_example =
    mute_other-MutedOther online home (text "bob") none 8 bob refl refl refl

past_messages-drain_example :
    (e : Daemon) × (past_messages online false
      ≡ done (e, now (map (past_response home) online.state.message_buffer)))
    × (e.state.message_buffer ≡ [])
    × (e.state.server ≡ online.state.server)
    × (past_messages e false ≡ done (e, now []))
past_messages-drain_example = past_messages-drain online home refl

handle_command-Follows_example :
    WhenDone (Follows online) (handle_command outside online (Command.mute_self none))
handle_command-Follows_example = handle_command-Follows outside online (Command.mute_self none)

handle_command_while_connecting_example :
    Ends
      (λ reply. reply.0.state.server ≡ Server.connecting attempt)
      (handle_command outside trying Command.config_reload)
handle_command_while_connecting_example =
    handle_command_while_connecting outside trying attempt Command.config_reload
      (λ e. outside-Decodes) (output-IsLoaded (Server.connecting attempt) StatePhase.connecting)
      refl

abbrev resting : Daemon → Loop
resting d = record {
  world = record { daemon = d; flags = []; sent = []; listening = λ client. true };
  queue = Queue.new;
  group = 0;
  ping_count = 0;
  pings = [];
}

handle-Pending_example :
    (m : Loop) × Pending (resting offline) 4 request m
    × (handle outside (resting offline) 4 (Command.server_connect request) ≡ done m)
handle-Pending_example = handle-Pending outside (resting offline) 4 request (1 ∷ []) refl refl

home-IsReady : IsReady home
unfolding get
home-IsReady = record {
  forest = map_of_channels-IsForest;
  top = root_channel;
  top_there = refl;
  me = ann;
  me_there = refl;
  here = lobby;
  here_there = refl;
}

handle_command_while_connected_example :
    (reply : Daemon × ExecutionContext) × (handle_command outside online Command.channel_list
      ≡ done reply)
handle_command_while_connected_example =
    handle_command_while_connected outside online home Command.channel_list home-IsReady
      (λ e. outside-Decodes) online-IsLoaded refl

into_channel-Returns_example : (c : Tree.Channel) × (into_channel map_of_channels roster ≡ done c)
unfolding get
into_channel-Returns_example =
    into_channel-Returns map_of_channels roster root_channel map_of_channels-IsForest refl

unfoldable write_command : Command → Bytes
write_command Command.ping = 0 ∷ []
write_command c = []

unfoldable read_command : Bytes → Option Command
read_command [] = none
read_command (b ∷ bs) = some Command.ping

unfoldable write_response : Response → Bytes
write_response (ok (some CommandResponse.pong)) = 1 ∷ []
write_response r = []

unfoldable read_response : Bytes → Option Response
read_response [] = none
read_response (b ∷ bs) = some pong

abbrev short_codec : Bincode
short_codec = record {
  serialize_command = write_command;
  deserialize_command = read_command;
  serialize_response = write_response;
  deserialize_response = read_response;
}

abbrev accepted : Connection
accepted = record { written = []; attempts = 0; accepts = λ n. true }

serve-launch_example :
    (m : Loop) × (d : Connection) × (buf : Bytes) × (serve outside short_codec
        (λ client l. done l)
        (resting online)
        4
        (some (write_command Command.ping) ∷ [])
        accepted
      ≡ done (m, d))
    × (m.world.daemon ≡ online)
    × (d.written ≡ buf ∷ [])
    × (launch short_codec true (stream true (some (some buf))) ≡ done already_running)
unfolding write_command read_command write_response read_response answers_to
serve-launch_example =
    serve-launch outside short_codec (λ client l. done l) (resting online) 4 accepted true refl refl
      refl refl (λ m same_queue same_pings. refl) refl
