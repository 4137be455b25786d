-- ===== src/Network/Listen.antt =====
-- mum/src/network/tcp.rs, `listen`: what the daemon does with each packet of the control channel.
pub mod Laws
pub mod Counters
pub mod Answers
use mum.Common.{
  ℕ, Text, text, Bool, true, false, Option, some, none, get_or, List, [], ◌∷◌, ◌++◌, push, length,
  ◌==◌, ◌&&◌, ltb, leb, if◌then◌else◌, ◌+◌, ◌-◌, ◌%◌, ◌^◌, Outcome, done, panic, ◌>>=◌, Result, ok,
  err,
}
use mum.Common.Dict.{Dict, get}
use mum.Protocol.{UserState, UserRemove, ChannelState, ChannelRemove, ServerSync, TextMessage}
use mum.Mumlib.Error.{Error}
use mum.Mumlib.Event.{MumbleEventKind}
use mum.State.User.{User}
use mum.State.Server
use mum.State.Server.{Server}
use mum.State.Core.{
  State, StatePhase, VoiceStreamType, Daemon, Env, set_server, push_event, register_message,
  broadcast_phase, initialized,
}
use mum.State.Presence
use mum.State.Handle.Connect.{TcpEventData}
use mum.Network.Queue.{TcpEventQueue, World, resolve}

-- What the cipher's crate gives: its type, the sizes of its arrays and its constructor.
pub record Cipher (C : Type 0) : Type 0 where
  pub key_size : ℕ
  pub block_size : ℕ
  pub new_from : List ℕ → List ℕ → List ℕ → C

-- The voice packets of the protocol; the payload is opaque.
pub data VoicePacket : Type 0 where
  ping : VoicePacket
  audio : ℕ → List ℕ → VoicePacket

pub data RejectType : Type 0 where
  wrong_server_pw other_reason : RejectType

-- The packets that `listen` tells apart.
pub data ControlPacket : Type 0 where
  text_message : TextMessage → ControlPacket
  crypt_setup : List ℕ → List ℕ → List ℕ → ControlPacket
  server_sync : ServerSync → ControlPacket
  reject : RejectType → ControlPacket
  user_state : UserState → ControlPacket
  user_remove : UserRemove → ControlPacket
  channel_state : ChannelState → ControlPacket
  channel_remove : ChannelRemove → ControlPacket
  udp_tunnel : VoicePacket → ControlPacket
  ping : ℕ → ℕ → ℕ → ControlPacket
  unhandled : ControlPacket

-- The counters of the last `Ping`.
pub record Pings : Type 0 where
  pub last_late : ℕ
  pub last_lost : ℕ
  pub last_resync : ℕ

-- `-` and `+=` on `u32`; `checked` says whether the build checks overflow, as a debug build does.
unfoldable pub sub_u32 : Bool → ℕ → ℕ → Outcome ℕ
sub_u32 checked a b =
    if leb b a then done (a - b) else if checked then panic else done (a + 2 ^ 32 - b)

unfoldable pub add_u32 : Bool → ℕ → ℕ → Outcome ℕ
add_u32 checked a b =
    if ltb (a + b) (2 ^ 32)
    then done (a + b)
    else if checked
    then panic
    else done ((a + b) % 2 ^ 32)

unfoldable pub count_ping : Bool → Pings → ℕ → ℕ → ℕ → Outcome Pings
unfolding sub_u32 add_u32
count_ping checked p late_now lost_now resync_now = do
  late ← sub_u32 checked late_now p.last_late
  lost ← sub_u32 checked lost_now p.last_lost
  resync ← sub_u32 checked resync_now p.last_resync
  last_late ← add_u32 checked p.last_late late
  last_lost ← add_u32 checked p.last_lost lost
  last_resync ← add_u32 checked p.last_resync resync
  done (record { last_late = last_late; last_lost = last_lost; last_resync = last_resync })

-- The part of a text message under the lock: it is shown and stored as an event if its writer is on
-- the roster, and kept in any case.
unfoldable writer : Server → ℕ → Option Text
writer (Server.connected s) actor = elim (get s.users actor) [
  | none ↦ none
  | some user ↦ some user.name
]
writer _ actor = none

unfoldable pub hear : Env → Daemon → TextMessage → Daemon
unfolding writer
hear env d msg =
    let actor = get_or msg.actor 0 in
    let told : Daemon = elim (writer d.state.server actor) [
      | none ↦ d
      | some user ↦ record d {
        notifications = push d.notifications (user ++ (text ": " ++ msg.message));
        state = push_event env d.state (MumbleEventKind.text_message_received user);
      }
    ] in
    record told { state = register_message env told.state msg.message actor }

-- `ServerSync` under the lock.
unfoldable sync_in : Server → Daemon → ServerSync → Outcome Daemon
sync_in (Server.connecting sb) d msg = do
  s ← initialized (set_server d (Server.connected (Server.server_sync sb msg))).state
  done (record d { state = s })
sync_in _ d msg = done d

unfoldable channel_state_in : Server → Daemon → ChannelState → Daemon
channel_state_in (Server.connecting sb) d msg =
    set_server d (Server.connecting (record sb { channels = Server.channel_state msg sb.channels }))
channel_state_in _ d msg = d

unfoldable channel_remove_in : Server → Daemon → ChannelRemove → Daemon
channel_remove_in (Server.connecting sb) d msg =
    set_server d
      (Server.connecting (record sb { channels = Server.channel_remove msg sb.channels }))
channel_remove_in (Server.connected s) d msg =
    set_server d (Server.connected (record s { channels = Server.channel_remove msg s.channels }))
channel_remove_in Server.disconnected d msg = d

module _ {C : Type 0} (cipher : Cipher C) where
  -- What `listen` acts on. `crypt_state` and `crypt_sender` are its own: the state of the cipher, kept
  -- until the server is ready, and whether its sender is still there. `crypt_sent` is what the sender
  -- has sent, `voice` what the audio output was given to decode.
  pub record Link : Type 0 where
    pub world : World
    pub queue : TcpEventQueue
    pub crypt_state : Option C
    pub crypt_sender : Bool
    pub crypt_sent : List C
    pub pings : Pings
    pub voice : List (VoiceStreamType × ℕ × List ℕ)

  abbrev pub with_daemon : Link → Daemon → Link
  with_daemon l d = record l { world = record (l.world) { daemon = d } }

  unfoldable pub fire : Env → Link → TcpEventData → Outcome Link
  fire env l fired = do
    (q, w) ← resolve env l.queue fired l.world
    done (record l { queue = q; world = w })

  unfoldable pub set_up_crypt : Link → List ℕ → List ℕ → List ℕ → Outcome Link
  set_up_crypt l key client_nonce server_nonce =
      if length key == cipher.key_size
        && length client_nonce == cipher.block_size
        && length server_nonce == cipher.block_size
      then done (record l { crypt_state = some (cipher.new_from key client_nonce server_nonce) })
      else panic

  -- The sender is used once, and then the state of the cipher must be there.
  unfoldable pub send_crypt_state : Link → Outcome Link
  send_crypt_state l =
      if l.crypt_sender
      then elim l.crypt_state [
        | none ↦ panic
        | some c ↦ done (record l {
          crypt_state = none;
          crypt_sender = false;
          crypt_sent = push l.crypt_sent c;
        })
      ]
      else done l

  unfoldable pub tunnelled : Link → VoicePacket → Link
  tunnelled l VoicePacket.ping = l
  tunnelled l (VoicePacket.audio session_id payload) = record l {
    voice = push l.voice (VoiceStreamType.tcp, session_id, payload);
  }

  -- One turn of the loop with a packet.
  unfoldable pub listen : Env → Bool → Link → ControlPacket → Outcome Link
  unfolding sync_in channel_state_in channel_remove_in
  listen env checked l (ControlPacket.text_message msg) =
      fire env (with_daemon l (hear env l.world.daemon msg)) (TcpEventData.text_message msg)
  listen env checked l (ControlPacket.crypt_setup key client_nonce server_nonce) =
      set_up_crypt l key client_nonce server_nonce
  listen env checked l (ControlPacket.server_sync msg) = do
    m ← send_crypt_state l
    d ← sync_in m.world.daemon.state.server m.world.daemon msg
    fire env (with_daemon m d) (TcpEventData.connected (ok msg))
  listen env checked l (ControlPacket.reject wrong_server_pw) =
      fire env l (TcpEventData.connected (err Error.invalid_server_password))
  listen env checked l (ControlPacket.reject other_reason) = done l
  listen env checked l (ControlPacket.user_state msg) = do
    d ← Presence.user_state env l.world.daemon msg
    done (with_daemon l d)
  listen env checked l (ControlPacket.user_remove msg) = do
    d ← Presence.remove_user env l.world.daemon msg
    done (with_daemon l d)
  listen env checked l (ControlPacket.channel_state msg) =
      done (with_daemon l (channel_state_in l.world.daemon.state.server l.world.daemon msg))
  listen env checked l (ControlPacket.channel_remove msg) =
      done (with_daemon l (channel_remove_in l.world.daemon.state.server l.world.daemon msg))
  listen env checked l (ControlPacket.udp_tunnel packet) = done (tunnelled l packet)
  listen env checked l (ControlPacket.ping late lost resync) = do
    pings ← count_ping checked l.pings late lost resync
    done (record l { pings = pings })
  listen env checked l ControlPacket.unhandled = done l

  -- The turn in which the stream is gone: the phase is broadcast and the loop ends.
  unfoldable pub stream_gone : Link → Link
  stream_gone l = with_daemon l (record (l.world.daemon) {
    state = broadcast_phase l.world.daemon.state StatePhase.disconnected;
  })
