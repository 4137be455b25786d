-- ===== src/State/Handle/Others/Joins.antt =====
-- Joining a channel by its name.
use mathlib.Core.Path.{subst}
use mum.Common.{ℕ, Text, ◌≡◌, ◌⊎◌, sym, inl, inr, refl, ok, err, done}
use mum.Mumlib.Error.{Error, ChannelIdentifierError}
use mum.State.Channel.{Channel}
use mum.State.Server.{Server, ConnectedServer, Named, channel_name}
use mum.State.Server.Names.{IsForest, Names, channel_name-Names, channel_name-invalid}
use mum.State.Core.{Daemon, Env, Packet}
use mum.State.Handle.{now_ok, now_err, send_packet}
use mum.State.Handle.Others.{join_message, join_named, channel_join, channel_join_in}

-- The name stands for a channel, and the packet asks for our session to be moved there.
abbrev pub Asks : Env → Daemon → ConnectedServer → Text → Type 0
Asks env d s name =
    (e : ℕ × Channel) × Names env.to_lowercase s.channels name e
    × (channel_join env d name
        ≡ now_ok (send_packet d (Packet.user_state (join_message s.session_id e.0))))

-- The name stands for no channel or for several, which is reported.
abbrev pub Refuses : Env → Daemon → ConnectedServer → Text → Type 0
Refuses env d s name =
    (kind : ChannelIdentifierError) × (channel_name env.to_lowercase s.channels name
      ≡ done (err kind))
    × (channel_join env d name ≡ now_err d (Error.channel_identifier_error name kind))

join_answer :
    (env : Env) (d : Daemon) (s : ConnectedServer) (name : Text) (answer : Named)
    → d.state.server ≡ Server.connected s
    → IsForest s.channels
    → channel_name env.to_lowercase s.channels name ≡ done answer
    → Asks env d s name ⊎ Refuses env d s name
unfolding channel_join channel_join_in join_named
join_answer env d s name (ok e) on forest found = inl (
  e,
  (channel_name-Names env.to_lowercase s.channels name e forest).0 found,
  subst
      (λ x.
        channel_join_in env x d name
        ≡ now_ok (send_packet d (Packet.user_state (join_message s.session_id e.0))))
      (sym on) (rw found refl),
)
join_answer env d s name (err kind) on forest found = inr (
  kind,
  found,
  subst (λ x. channel_join_in env x d name ≡ now_err d (Error.channel_identifier_error name kind))
      (sym on) (rw found refl),
)

pub channel_join-Asks :
    (env : Env) (d : Daemon) (s : ConnectedServer) (name : Text)
    → d.state.server ≡ Server.connected s
    → IsForest s.channels
    → Asks env d s name ⊎ Refuses env d s name
channel_join-Asks env d s name on forest =
    let ((answer, found), unknown) = channel_name-invalid env.to_lowercase s.channels name forest in
    join_answer env d s name answer on forest found
