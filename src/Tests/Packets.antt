-- ===== src/Tests/Packets.antt =====
-- Packets and events.
use mum.Common.{
  ◌≤◌, ℕ, ◌≡◌, refl, Text, text, true, false, none, some, get_or, List, [], ◌∷◌, ◌++◌, map, keep_if,
  push, done, Ends, Result, WhenDone, arith,
}
use mum.Common.Dict.{get, insert}
use mum.Mumlib.Error.{Error}
use mum.Mumlib.Tree
use mum.State.Channel
use mum.State.User
use mum.State.Channel.Tree.{into_channel, climb, walk_and_add, get_branch, set_branch, to_channel}
use mum.State.Server
use mum.State.Server.{Server}
use mum.State.Core.{Daemon, StatePhase, VoiceStreamType, get_user_name}
use mum.State.Handle.{
  now, TcpEvent, TcpEventCallback, TcpEventSubscriberCallback, DisconnectedReason,
}
use mum.State.Handle.Connect.{TcpEventData, run_callback}
use mum.State.Handle.Others.{server_from}
use mum.State.Handle.Messages.{past_messages}
use mum.State.Handle.Messages.Laws.{past_response}
use mum.Network.Queue.{
  World, Registered, Subscribed, run_registered, each_callback, each_subscriber, send_all,
}
use mum.Network.Queue.Laws.{answers_once, forwarded, each_subscriber-keep_if}
use mum.Network.Queue
use mum.Network.Queue.{TcpEventQueue, register_callback, event_eq, reason_eq}
use mum.Mumlib.Command.{Command}
use mum.Network.Connecting.{tls_refused}
use mum.Network.Connecting.Refused.{TurnedDown, Stuck, tls_refused-Stuck}
use mum.Network.Listen.{Cipher, ControlPacket, Link, listen, hear}
use mum.Network.Listen.Laws.{LinkFits, listen-LinkFits}
use mum.Network.Listen.Answers.{LoggedIn, login_callback, listen-LoggedIn, past_messages-hear}
use mum.Mumlib.Iter.{iter, collect}
use mum.Mumlib.Iter.Preorder.{preorder, preorder_each, collect-preorder}
use mum.State.Handle.Connect.{PongPacket}
use mum.Network.Pings.{
  Exchange, PingEvent, requested, received, timed_out, start, receive, time_out, run,
}
use mum.Network.Pings.Counting.{asked_in, open_or_answered, run-start-asked}
use mum.Network.Pings.Race.{answered_by_first}
use mum.Tests.Data.{
  home, attempt, online, trying, output-IsLoaded, outside, outside-Decodes, request, greeting,
  login, about,
}

abbrev world_of : Daemon → World
world_of d = record { daemon = d; flags = (0, true) ∷ []; sent = []; listening = λ client. true }

abbrev rejected : Registered
rejected = record { group = 0; generator = TcpEventCallback.answer_cert_reject; client = 4 }

abbrev tls : TcpEventData
tls = TcpEventData.disconnected DisconnectedReason.invalid_tls

abbrev after_reject : World
after_reject = record (world_of trying) {
  flags = (0, false) ∷ [];
  sent = (4, Result.err Error.server_cert_reject) ∷ [];
}

answers_once_example :
    run_registered (login_callback 0 4) tls after_reject
    ≡ done (record after_reject { flags = insert after_reject.flags 0 false })
unfolding run_registered each_callback run_callback send_all get insert
answers_once_example =
    answers_once rejected (login_callback 0 4) [] tls tls tls (world_of trying) after_reject
      after_reject refl refl refl

abbrev listeners : List Subscribed
listeners =
    record { handler = TcpEventSubscriberCallback.forward_message; client = 4 }
    ∷ record { handler = TcpEventSubscriberCallback.forward_message; client = 5 }
    ∷ []

each_subscriber-keep_if_example :
    each_subscriber outside listeners (TcpEventData.text_message greeting) (world_of online)
    ≡ done (
      keep_if (λ s. true) listeners,
      record (world_of online) {
        sent = [] ++ map (forwarded outside greeting (text "bob")) (keep_if (λ s. true) listeners);
      },
    )
unfolding get_user_name get
each_subscriber-keep_if_example =
    each_subscriber-keep_if outside listeners greeting (text "bob") (world_of online) refl

abbrev no_cipher : Cipher ℕ
no_cipher = record { key_size = 0; block_size = 0; new_from = λ a b c. 0 }

abbrev link_of : Daemon → Link no_cipher
link_of d = record {
  world = world_of d;
  queue = record { callbacks = λ event. login_callback 0 4 ∷ []; subscribers = λ event. [] };
  crypt_state = some 0;
  crypt_sender = true;
  crypt_sent = [];
  pings = record { last_late = 5; last_lost = 0; last_resync = 0 };
  voice = [];
}

listen-LinkFits_example :
    WhenDone
      (LinkFits no_cipher)
      (listen no_cipher outside true (link_of online) (ControlPacket.user_state (about 8)))
listen-LinkFits_example =
    listen-LinkFits no_cipher outside true (link_of online) (ControlPacket.user_state (about 8))
      (VoiceStreamType.tcp, refl)

abbrev waiting_queue : TcpEventQueue
waiting_queue =
    register_callback Queue.new (TcpEvent.disconnected DisconnectedReason.invalid_tls) rejected

tls_refused-Stuck_example :
    Ends
      (λ after.
        TurnedDown (world_of trying) rejected after
        × Stuck outside attempt (Command.server_connect request) after)
      (tls_refused outside waiting_queue (world_of trying))
unfolding Queue.new register_callback event_eq reason_eq get
tls_refused-Stuck_example =
    tls_refused-Stuck outside waiting_queue (world_of trying) rejected attempt
      (Command.server_connect request) refl refl refl refl refl (λ e. outside-Decodes)
      (output-IsLoaded (Server.connecting attempt) StatePhase.connecting) refl

past_messages-hear_example :
    (e : Daemon) × (past_messages (hear outside online greeting) false
      ≡ done (
        e,
        now (
            map (past_response home) (
              push online.state.message_buffer
                (outside.now, greeting.message, get_or greeting.actor 0))),
      ))
    × (e.state.message_buffer ≡ [])
past_messages-hear_example = past_messages-hear outside online home greeting refl

-- Ann and Bob are in the lobby, below the root.
abbrev shown_user : Text → Tree.User
shown_user name = record {
  comment = none;
  hash = none;
  name = name;
  priority_speaker = false;
  recording = false;
  suppress = false;
  self_mute = false;
  self_deaf = false;
  mute = false;
  deaf = false;
}

abbrev shown : Tree.Server
shown = record {
  channels =
      Tree.channel none 0 (text "Root")
        (Tree.cons
          (Tree.channel none 0 (text "Lobby") Tree.nil
            (shown_user (text "ann") ∷ shown_user (text "bob") ∷ []) [])
          Tree.nil)
        [] [];
  welcome_text = some (text "welcome");
  username = text "ann";
  host = text "example.org:64738";
}

shown_lem : server_from (Server.server_sync attempt login) ≡ done shown
unfolding server_from into_channel get insert climb walk_and_add get_branch set_branch to_channel
    Server.server_sync User.to_mumlib Channel.to_mumlib Tree.new
shown_lem = refl

listen-LoggedIn_example :
    Ends
      (LoggedIn no_cipher 0 4 (link_of trying) (Server.server_sync attempt login) 0 login shown)
      (listen no_cipher outside false (link_of trying) (ControlPacket.server_sync login))
unfolding get
listen-LoggedIn_example =
    listen-LoggedIn no_cipher 0 4 outside false (link_of trying) attempt 0 login shown refl refl
      refl (output-IsLoaded (Server.connecting attempt) StatePhase.connecting)
      (record { callbacks = refl; subscribers = refl; flag = refl; listening = refl }) shown_lem

collect-preorder_example : collect 3 (iter shown.channels) ≡ done (preorder shown.channels)
unfolding preorder preorder_each
collect-preorder_example = collect-preorder shown.channels 3 (omega arith)

abbrev pong : PongPacket
pong = record { id = 0; version = 1; users = 2; max_users = 9; bandwidth = 3 }

abbrev requests : List PingEvent
requests = requested 0 [] 4 true ∷ requested 0 [] 4 true ∷ timed_out 0 ∷ received pong ∷ []

run-start-asked_example :
    Ends (λ x. open_or_answered 4 x ≤ asked_in 4 requests) (run start requests)
run-start-asked_example = run-start-asked 4 requests (refl, (refl, (tt, (tt, tt))))

abbrev asking : Exchange
asking = record { pending = (0, (4, true)) ∷ []; sent = (0, []) ∷ []; answers = [] }

answered_by_first_example :
    ((time_out (receive asking pong) 0).answers ≡ push [] (4, some pong))
    × ((receive (time_out asking 0) pong).answers ≡ push [] (4, none))
    × (get (time_out (receive asking pong) 0).pending 0 ≡ none)
    × (get (receive (time_out asking 0) pong).pending 0 ≡ none)
unfolding get
answered_by_first_example = answered_by_first asking pong 4 refl
