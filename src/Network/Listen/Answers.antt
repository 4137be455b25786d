-- ===== src/Network/Listen/Answers.antt =====
-- What packets bring to the clients: stored messages, and the answer to `ServerConnect`.
use mathlib.Core.Path.{subst}
use mum.Common.{
  ℕ, ◌∙◌, ◌≡◌, sym, refl, ap, inl, inr, Bool, true, false, none, some, get_or, [], ◌∷◌, map, push,
  Option-cases, done, ok, Ends, Ends->>=, Ends-imp,
}
use mum.Common.Dict.{get}
use mum.Protocol.{ServerSync, TextMessage}
use mum.Mumlib.Tree
use mum.Mumlib.Command.{CommandResponse, Response}
use mum.State.Server
use mum.State.Server.{Server, ConnectingServer, ConnectedServer}
use mum.State.Core.{
  State, StatePhase, VoiceStreamType, Daemon, Env, play, broadcast_phase, initialized, push_event,
  register_message,
}
use mum.State.Presence.Laws.{IsLoaded}
use mum.Audio.Effects.{NotificationEvents}
use mum.Audio.Output.{play_effect}
use mum.State.Handle.{now, TcpEvent, TcpEventCallback}
use mum.State.Handle.Others.{server_from}
use mum.State.Handle.Messages.{past_messages}
use mum.State.Handle.Messages.Laws.{past_response, past_messages-drain}
use mum.State.Handle.Connect.{TcpEventData, run_callback, connected_answer}
use mum.Network.Queue.{Registered, resolve, each_callback, each_subscriber, event_of}
use mum.Network.Queue.Laws.{first_answers}
use mum.Network.Listen.{
  Cipher, ControlPacket, Link, fire, send_crypt_state, listen, hear, writer, sync_in,
}

hear-message_buffer :
    (env : Env) (d : Daemon) (msg : TextMessage)
    → ((hear env d msg).state.message_buffer
        ≡ push d.state.message_buffer (env.now, msg.message, get_or msg.actor 0))
      × ((hear env d msg).state.server ≡ d.state.server)
unfolding hear push_event register_message
hear-message_buffer env d msg = elim (Option-cases (writer d.state.server (get_or msg.actor 0))) [
  | inl e ↦ rw e (refl, refl)
  | inr (name, e) ↦ rw e (refl, refl)
]

-- A text message that comes in while connected is the last that `PastMessages` then answers, after
-- those stored before, with its text, the time it came in and the name of its writer.
pub past_messages-hear :
    (env : Env) (d : Daemon) (s : ConnectedServer) (msg : TextMessage)
    → d.state.server ≡ Server.connected s
    → (e : Daemon) × (past_messages (hear env d msg) false
        ≡ done (
          e,
          now (
              map
                (past_response s)
                (push d.state.message_buffer (env.now, msg.message, get_or msg.actor 0))),
        ))
      × (e.state.message_buffer ≡ [])
past_messages-hear env d s msg on =
    let (buffer, server) = hear-message_buffer env d msg in
    let (e, answers, empty, kept, again) = past_messages-drain (hear env d msg) s (server ∙ on) in
    (e, answers ∙ ap (λ b. done (e, now (map (past_response s) b))) buffer, empty)

-- The server and the phase of a daemon whose login is complete.
record Synced (s : ConnectedServer) (d : Daemon) : Type 0 where
  pub server : d.state.server ≡ Server.connected s
  pub phase : d.state.phase ≡ StatePhase.connected VoiceStreamType.tcp

sync_in-Synced :
    (sb : ConnectingServer) (d : Daemon) (msg : ServerSync)
    → IsLoaded d.state
    → Ends (Synced (Server.server_sync sb msg)) (sync_in (Server.connecting sb) d msg)
unfolding sync_in initialized broadcast_phase play play_effect
sync_in-Synced sb d msg loaded =
    let (samples, e) = loaded NotificationEvents.server_connect in
    rw e (record { server = refl; phase = refl })

-- The closure that `ServerConnect` left for the login, and its answer.
abbrev pub login_callback : ℕ → ℕ → Registered
login_callback group client = record {
  group = group;
  generator = TcpEventCallback.answer_connected;
  client = client;
}

abbrev pub login_answer : ServerSync → Tree.Server → Response
login_answer msg server_state =
    ok (some (CommandResponse.server_connect msg.welcome_text server_state))

login-run_callback :
    (state : State) (s : ConnectedServer) (msg : ServerSync) (server_state : Tree.Server)
    → state.server ≡ Server.connected s
    → server_from s ≡ done server_state
    → run_callback state TcpEventCallback.answer_connected (TcpEventData.connected (ok msg))
      ≡ done (login_answer msg server_state ∷ [])
unfolding run_callback
login-run_callback state s msg server_state on shown =
    subst (λ x. connected_answer x (ok msg) ≡ done (login_answer msg server_state ∷ [])) (sym on)
      (rw (shown, connected_answer) refl)

module _ {C : Type 0} (cipher : Cipher C) (group client : ℕ) where
  -- The command waits: its closure is the only one for the event, and its client listens.
  pub record Waits (l : Link cipher) : Type 0 where
    pub callbacks : l.queue.callbacks TcpEvent.connected ≡ login_callback group client ∷ []
    pub subscribers : l.queue.subscribers TcpEvent.connected ≡ []
    pub flag : get l.world.flags group ≡ some true
    pub listening : l.world.listening client ≡ true

  abbrev Answered : Link cipher → ServerSync → Tree.Server → Link cipher → Type 0
  Answered l msg server_state m =
      (m.world.sent ≡ push l.world.sent (client, login_answer msg server_state))
      × (m.world.daemon ≡ l.world.daemon)
      × (m.crypt_sent ≡ l.crypt_sent)

  fire-login :
      (env : Env) (l : Link cipher) (s : ConnectedServer) (msg : ServerSync)
      (server_state : Tree.Server)
      → Waits l
      → l.world.daemon.state.server ≡ Server.connected s
      → server_from s ≡ done server_state
      → Ends (Answered l msg server_state) (fire cipher env l (TcpEventData.connected (ok msg)))
  unfolding fire resolve each_callback each_subscriber event_of
  fire-login env l s msg server_state waits on shown =
      rw
        (
          waits.callbacks,
          waits.subscribers,
          first_answers (login_callback group client) (TcpEventData.connected (ok msg)) l.world
              (login_answer msg server_state ∷ []) waits.flag waits.listening
              (login-run_callback l.world.daemon.state s msg server_state on shown),
        )
        (refl, refl, refl)

  -- The login is complete: the server is connected, the phase says so, the cipher's state is sent to
  -- the voice task, and the client has its answer.
  pub record LoggedIn (l : Link cipher) (s : ConnectedServer) (c : C) (msg : ServerSync)
      (server_state : Tree.Server) (m : Link cipher) : Type 0 where
    pub server : m.world.daemon.state.server ≡ Server.connected s
    pub phase : m.world.daemon.state.phase ≡ StatePhase.connected VoiceStreamType.tcp
    pub crypt_sent : m.crypt_sent ≡ push l.crypt_sent c
    pub sent : m.world.sent ≡ push l.world.sent (client, login_answer msg server_state)

  send_crypt_state_lem :
      (l : Link cipher) (c : C)
      → l.crypt_sender ≡ true
      → l.crypt_state ≡ some c
      → send_crypt_state cipher l
        ≡ done (record l {
          crypt_state = none;
          crypt_sender = false;
          crypt_sent = push l.crypt_sent c;
        })
  unfolding send_crypt_state
  send_crypt_state_lem l c sender crypt = simp (sender, crypt)

  -- `ServerSync` while connecting completes the login and answers the `ServerConnect` that waits, once
  -- the state of the cipher has come, if the sounds are loaded and the channels that came form a tree
  -- that can be shown.
  pub listen-LoggedIn :
      (env : Env) (checked : Bool) (l : Link cipher) (sb : ConnectingServer) (c : C)
      (msg : ServerSync) (server_state : Tree.Server)
      → l.world.daemon.state.server ≡ Server.connecting sb
      → l.crypt_sender ≡ true
      → l.crypt_state ≡ some c
      → IsLoaded l.world.daemon.state
      → Waits l
      → server_from (Server.server_sync sb msg) ≡ done server_state
      → Ends
          (LoggedIn l (Server.server_sync sb msg) c msg server_state)
          (listen cipher env checked l (ControlPacket.server_sync msg))
  unfolding listen
  listen-LoggedIn env checked l sb c msg server_state on sender crypt loaded waits shown =
      let s = Server.server_sync sb msg in
      let sent_crypt : Link cipher = record l {
        crypt_state = none;
        crypt_sender = false;
        crypt_sent = push l.crypt_sent c;
      } in
      rw (send_crypt_state_lem l c sender crypt) (
        Ends->>= (Synced s) (LoggedIn l s c msg server_state)
          (sync_in l.world.daemon.state.server l.world.daemon msg)
          (λ d.
            fire cipher env (record sent_crypt { world = record (l.world) { daemon = d } })
              (TcpEventData.connected (ok msg)))
          (subst (λ x. Ends (Synced s) (sync_in x l.world.daemon msg)) (sym on)
            (sync_in-Synced sb l.world.daemon msg loaded))
          (λ d k.
            let now_synced : Link cipher = record sent_crypt {
              world = record (l.world) { daemon = d };
            } in
            Ends-imp (Answered now_synced msg server_state) (LoggedIn l s c msg server_state) _
              (fire-login env now_synced s msg server_state
                (record {
                  callbacks = waits.callbacks;
                  subscribers = waits.subscribers;
                  flag = waits.flag;
                  listening = waits.listening;
                })
                k.server shown)
              (λ m (a, b, e). record {
                server = ap (λ x. x.state.server) b ∙ k.server;
                phase = ap (λ x. x.state.phase) b ∙ k.phase;
                crypt_sent = e;
                sent = a;
              })))
