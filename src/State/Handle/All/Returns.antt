-- ===== src/State/Handle/All/Returns.antt =====
-- Every command returns while the daemon is connected.
use mathlib.Core.Path.{subst}
use mum.Common.{
  ℕ, ◌≡◌, refl, sym, inl, inr, Text, Bool, true, false, Option, some, Option-cases, List, [], ◌∷◌,
  done, Result, ok, err, Ends, Ends->>=, Ends-imp, Ends-exists,
}
use mum.Common.Dict.{get}
use mum.Mumlib.Error.{Error}
use mum.Mumlib.Command.{Command, MessageTarget, ChannelTarget}
use mum.Protocol.{TextMessage}
use mum.Audio.Effects.{NotificationEvents}
use mum.Audio.Output.{play_effect}
use mum.Audio.Effects.Complete.{Decodes}
use mum.State.User.{User}
use mum.State.Channel.{Channel}
use mum.State.Channel.Tree.Total.{into_channel-Returns}
use mum.State.Server.{Server, ConnectedServer, current_channel}
use mum.State.Server.Names.{IsForest, channel_name-invalid}
use mum.State.Core.{Daemon, Env, reload_config, broadcast_phase, play}
use mum.State.Core.Loading.{reload_config-IsLoaded}
use mum.State.Presence.Laws.{IsLoaded}
use mum.State.Handle.{Reply, ExecutionContext}
use mum.State.Handle.Mute.{deafen_self, mute_self}
use mum.State.Handle.Mute.Laws.{Deafens, Mutes, deafen_self-Deafens, mute_self-Mutes}
use mum.State.Handle.Others.{
  find_user, channel_join, channel_list, channel_list_in, mute_other, mute_other_in, mute_connected,
  suppress_action, status, status_in, server_from, user_volume_set, volume_set_in,
}
use mum.State.Handle.Others.Joins.{channel_join-Asks}
use mum.State.Handle.Messages.{
  events, past_messages, past_messages_in, send_message, send_message_in, addressed, add_channels,
  add_channel, target_id, send_made, text_to_send, add_users,
}
use mum.State.Handle.Messages.Laws.{past_messages-drain}
use mum.State.Handle.Connect.{
  server_connect, server_connect_in, server_disconnect, server_disconnect_in,
}
use mum.State.Handle.All.{handle_command}

abbrev pub Returns : Reply → Type 0
Returns reply = Ends (λ r. Unit) reply

-- A connected server whose channels form a forest with a channel 0, and in which our user is in a
-- channel that is known.
pub record IsReady (s : ConnectedServer) : Type 0 where
  pub forest : IsForest s.channels
  pub top : Channel
  pub top_there : get s.channels 0 ≡ some top
  pub me : User
  pub me_there : get s.users s.session_id ≡ some me
  pub here : Channel
  pub here_there : get s.channels me.channel ≡ some here

module _ (env : Env) (d : Daemon) (s : ConnectedServer) where
  join-Returns :
      (name : Text)
      → IsReady s
      → d.state.server ≡ Server.connected s
      → Returns (channel_join env d name)
  join-Returns name ready on = elim (channel_join-Asks env d s name on ready.forest) [
    | inl (e, names, sent) ↦ rw sent tt
    | inr (kind, refused, told) ↦ rw told tt
  ]

  list-Returns : IsReady s → d.state.server ≡ Server.connected s → Returns (channel_list d)
  unfolding channel_list channel_list_in
  list-Returns ready on =
      let (c, shown) =
        into_channel-Returns s.channels s.users ready.top ready.forest ready.top_there in
      subst (λ x. Returns (channel_list_in x d)) (sym on) (rw shown tt)

  status-Returns : IsReady s → d.state.server ≡ Server.connected s → Returns (status d)
  unfolding status status_in server_from
  status-Returns ready on =
      let (c, shown) =
        into_channel-Returns s.channels s.users ready.top ready.forest ready.top_there in
      subst (λ x. Returns (status_in x d)) (sym on) (rw shown tt)

  mute_other-Returns :
      (name : Text) (t : Option Bool)
      → d.state.server ≡ Server.connected s
      → Returns (mute_other d name t)
  unfolding mute_other mute_other_in mute_connected
  mute_other-Returns name t on =
      subst (λ x. Returns (mute_other_in x d name t)) (sym on)
        (elim (Option-cases (find_user s.users name)) [
          | inl unknown ↦ rw (mute_connected, unknown) tt
          | inr (found, e) ↦ elim (Option-cases (suppress_action t found.1.suppress)) [
            | inl idle ↦ rw (mute_connected, e, idle) tt
            | inr (action, acts) ↦ rw (mute_connected, e, acts) tt
          ]
        ])

  volume-Returns :
      (name : Text) (v : ℕ)
      → d.state.server ≡ Server.connected s
      → Returns (user_volume_set d name v)
  unfolding user_volume_set volume_set_in
  volume-Returns name v on =
      subst (λ x. Returns (volume_set_in x d name v)) (sym on)
        (elim (Option-cases (find_user s.users name)) [
          | inl unknown ↦ rw (volume_set_in, unknown) tt
          | inr (found, e) ↦ rw (volume_set_in, e) tt
        ])

  target-Returns : (t : ChannelTarget) → IsReady s → Ends (λ r. Unit) (target_id env s t)
  unfolding target_id current_channel
  target-Returns ChannelTarget.current ready = rw (ready.me_there, ready.here_there) tt
  target-Returns (ChannelTarget.named name) ready =
      let ((answer, found), unknown) =
        channel_name-invalid env.to_lowercase s.channels name ready.forest in
      rw found tt

  found-Returns :
      (r : Result ℕ Error) (recursive : Bool) (msg : TextMessage)
      (targets : List (ChannelTarget × Bool))
      → ((m : TextMessage) → Ends (λ r. Unit) (add_channels env s m targets))
      → Ends
          (λ r. Unit)
          (elim r [
            | ok id ↦ add_channels env s (add_channel msg recursive id) targets
            | err e ↦ done (err e)
          ])
  found-Returns (ok id) recursive msg targets h = h (add_channel msg recursive id)
  found-Returns (err e) recursive msg targets h = tt

  channels-Returns :
      (targets : List (ChannelTarget × Bool)) (msg : TextMessage)
      → IsReady s
      → Ends (λ r. Unit) (add_channels env s msg targets)
  unfolding add_channels
  channels-Returns [] msg ready = tt
  channels-Returns ((t, recursive) ∷ targets) msg ready =
      Ends->>= (λ r. Unit) (λ r. Unit) (target_id env s t) _ (target-Returns t ready)
        λ r u. found-Returns r recursive msg targets λ m. channels-Returns targets m ready

  sent-Returns : (r : Result TextMessage Error) → Returns (send_made d r)
  unfolding send_made
  sent-Returns (ok m) = tt
  sent-Returns (err e) = tt

  message-Returns :
      (message : Text) (targets : MessageTarget)
      → IsReady s
      → d.state.server ≡ Server.connected s
      → Returns (send_message env d message targets)
  unfolding send_message send_message_in addressed
  message-Returns message (MessageTarget.channel targets) ready on =
      subst (λ x. Returns (send_message_in env x d message (MessageTarget.channel targets)))
        (sym on)
        (Ends->>= (λ r. Unit) (λ r. Unit) (add_channels env s (text_to_send message) targets) _
          (channels-Returns targets (text_to_send message) ready) λ r u. sent-Returns r)
  message-Returns message (MessageTarget.user names) ready on =
      subst (λ x. Returns (send_message_in env x d message (MessageTarget.user names))) (sym on)
        (sent-Returns (add_users s (text_to_send message) names))

  past-Returns :
      (block : Bool) → d.state.server ≡ Server.connected s → Returns (past_messages d block)
  unfolding past_messages past_messages_in
  past-Returns true on = subst (λ x. Returns (past_messages_in x d true)) (sym on) tt
  past-Returns false on =
      let (e, drained, empty, kept, again) = past_messages-drain d s on in rw drained tt

  disconnect-Returns :
      IsLoaded d.state → d.state.server ≡ Server.connected s → Returns (server_disconnect d)
  unfolding server_disconnect server_disconnect_in play play_effect broadcast_phase
  disconnect-Returns loaded on =
      let (samples, there) = loaded NotificationEvents.server_disconnect in
      subst (λ x. Returns (server_disconnect_in x d)) (sym on) (rw there tt)

  connected-Returns :
      (c : Command)
      → IsReady s
      → (c ≡ Command.config_reload → Decodes env.codecs)
      → IsLoaded d.state
      → d.state.server ≡ Server.connected s
      → Returns (handle_command env d c)
  unfolding handle_command events server_connect server_connect_in
  connected-Returns (Command.channel_join name) ready ok_files loaded on =
      join-Returns name ready on
  connected-Returns Command.channel_list ready ok_files loaded on = list-Returns ready on
  connected-Returns Command.config_reload ready ok_files loaded on =
      Ends->>= IsLoaded (λ r. Unit) (reload_config env d.state) _
        (reload_config-IsLoaded env d.state (ok_files refl) loaded) λ t h. tt
  connected-Returns (Command.deafen_self t) ready ok_files loaded on =
      Ends-imp (Deafens d s t) (λ r. Unit) (deafen_self d t) (deafen_self-Deafens d s t loaded on)
        λ r h. tt
  connected-Returns (Command.events true) ready ok_files loaded on = tt
  connected-Returns (Command.events false) ready ok_files loaded on = tt
  connected-Returns (Command.input_volume_set v) ready ok_files loaded on = tt
  connected-Returns (Command.mute_other u t) ready ok_files loaded on = mute_other-Returns u t on
  connected-Returns (Command.mute_self t) ready ok_files loaded on =
      Ends-imp (Mutes d s t) (λ r. Unit) (mute_self d t) (mute_self-Mutes d s t loaded on) λ r h. tt
  connected-Returns (Command.output_volume_set v) ready ok_files loaded on = tt
  connected-Returns (Command.past_messages b) ready ok_files loaded on = past-Returns b on
  connected-Returns Command.ping ready ok_files loaded on = tt
  connected-Returns (Command.send_message m t) ready ok_files loaded on =
      message-Returns m t ready on
  connected-Returns (Command.server_connect r) ready ok_files loaded on =
      subst (λ x. Returns (server_connect_in env x d r)) (sym on) tt
  connected-Returns Command.server_disconnect ready ok_files loaded on =
      disconnect-Returns loaded on
  connected-Returns (Command.server_status h p) ready ok_files loaded on = tt
  connected-Returns Command.status ready ok_files loaded on = status-Returns ready on
  connected-Returns (Command.user_volume_set u v) ready ok_files loaded on = volume-Returns u v on

  -- While connected, with a forest of channels that has a channel 0, our user in a known channel and
  -- the sounds loaded, every command returns; for ConfigReload, every sound file that opens is one
  -- that can be read and unpacks to mono or stereo.
  pub handle_command_while_connected :
      (c : Command)
      → IsReady s
      → (c ≡ Command.config_reload → Decodes env.codecs)
      → IsLoaded d.state
      → d.state.server ≡ Server.connected s
      → (reply : Daemon × ExecutionContext) × (handle_command env d c ≡ done reply)
  handle_command_while_connected c ready ok_files loaded on =
      let (reply, returns, any) =
        Ends-exists (λ r. Unit) (handle_command env d c)
          (connected-Returns c ready ok_files loaded on) in
      (reply, returns)
