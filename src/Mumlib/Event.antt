-- ===== src/Mumlib/Event.antt =====
-- mumlib/src/command.rs: the events that the daemon stores, and how they are printed.
use mum.Common.{ℕ, Text, text, ◌++◌}

pub data MumbleEventKind : Type 0 where
  user_connected : Text → Text → MumbleEventKind
  user_disconnected : Text → Text → MumbleEventKind
  user_mute_state_changed : Text → MumbleEventKind
  text_message_received : Text → MumbleEventKind
  user_joined_channel : Text → Text → MumbleEventKind
  user_left_channel : Text → Text → MumbleEventKind

-- A timestamp is opaque: a number that the clock hands out.
pub record MumbleEvent : Type 0 where
  pub timestamp : ℕ
  pub kind : MumbleEventKind

unfoldable pub show_kind : MumbleEventKind → Text
show_kind (user_connected user channel) = user ++ (text " connected to " ++ channel)
show_kind (user_disconnected user channel) = user ++ (text " disconnected from " ++ channel)
show_kind (user_mute_state_changed message) = message
show_kind (text_message_received user) = user ++ text " sent a text message"
show_kind (user_joined_channel name from) = name ++ (text " moved to your channel from " ++ from)
show_kind (user_left_channel name to) = name ++ (text " moved to " ++ to)

-- The format of a timestamp is chrono's.
unfoldable pub show_event : (ℕ → Text) → MumbleEvent → Text
unfolding show_kind
show_event format e = text "[" ++ (format e.timestamp ++ (text "] " ++ show_kind e.kind))
