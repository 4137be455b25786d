-- ===== src/State/Handle/Mute/Changes.antt =====
-- What a change of our own voice leaves, and what it sends.
use mum.Common.{◌≡◌, ◌⊎◌, inl, inr, refl, Bool, Option, push, Ends, Ends->>=, arith}
use mum.Audio.Effects.{NotificationEvents}
use mum.Audio.Output.{play_effect}
use mum.State.User.{update}
use mum.State.Server.{Server, ConnectedServer}
use mum.State.Core.{State, Daemon, Packet, play}
use mum.State.Presence.Laws.{IsLoaded}
use mum.State.Handle.Mute.{blank_message, play_change, mute_field, deaf_field, change_self}

-- The state of our own voice that a command leaves. A packet goes out exactly when the state
-- changes, and its fields, parsed into the old state, give the new one.
pub record Voice (d : Daemon) (s : ConnectedServer) (e : Daemon) (mute deaf : Bool) : Type 0 where
  pub server : e.state.server ≡ Server.connected (record s { muted = mute; deafened = deaf })
  pub packet :
      ((mute ≡ s.muted) × (deaf ≡ s.deafened) × (e.packets ≡ d.packets))
      ⊎ ((m : Option Bool) × (f : Option Bool) × (e.packets
            ≡ push d.packets
                (Packet.user_state (record blank_message { self_mute = m; self_deaf = f })))
          × (update s.muted m ≡ mute)
          × (update s.deafened f ≡ deaf)
          × ((mute ≡ s.muted) → (deaf ≡ s.deafened) → ⊥))
  pub events : e.state.events ≡ d.state.events
  pub phase : e.state.phase ≡ d.state.phase

module _ (d : Daemon) (loaded : IsLoaded d.state) (s : ConnectedServer) where
  -- The sound changes nothing but the queue of samples.
  abbrev SameBut : State → Type 0
  SameBut t = (t.events ≡ d.state.events) × (t.phase ≡ d.state.phase)

  play-SameBut : (effect : NotificationEvents) → Ends SameBut (play d.state effect)
  unfolding play play_effect
  play-SameBut effect = let (samples, e) = loaded effect in rw e (refl, refl)

  play_change-SameBut : (mute deafen : Bool) → Ends SameBut (play_change d.state s mute deafen)
  unfolding play_change
  play_change-SameBut mute deafen = ground (
    arith,
    play-SameBut NotificationEvents.deafen,
    play-SameBut NotificationEvents.undeafen,
    play-SameBut NotificationEvents.mute,
    play-SameBut NotificationEvents.unmute,
  )

  fields :
      (mute deafen : Bool)
      → (update s.muted (mute_field s mute deafen) ≡ mute)
        × (update s.deafened (deaf_field s deafen) ≡ deafen)
  unfolding mute_field deaf_field
  fields mute deafen = ground arith

  pub change_self-Voice :
      (mute deafen : Bool)
      → ((mute ≡ s.muted) → (deafen ≡ s.deafened) → ⊥)
      → Ends (λ e. Voice d s e mute deafen) (change_self d s mute deafen)
  unfolding change_self
  change_self-Voice mute deafen new =
      Ends->>= SameBut _ (play_change d.state s mute deafen) _ (play_change-SameBut mute deafen)
        λ t same. record {
          server = refl;
          packet = inr (
            mute_field s mute deafen,
            deaf_field s deafen,
            refl,
            (fields mute deafen).0,
            (fields mute deafen).1,
            new,
          );
          events = same.0;
          phase = same.1;
        }

-- If nothing is asked for, the daemon as it is.
pub unchanged :
    (d : Daemon) (s : ConnectedServer)
    → d.state.server ≡ Server.connected s
    → Voice d s d s.muted s.deafened
unchanged d s on = record {
  server = on;
  packet = inl (refl, refl, refl);
  events = refl;
  phase = refl;
}
