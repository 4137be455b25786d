-- ===== src/Mumlib/Error.antt =====
-- mumlib/src/error.rs: the errors that a command can answer with, and how they are printed.
use mum.Common.{ℕ, Text, text, show, ◌++◌}

pub data ChannelIdentifierError : Type 0 where
  invalid ambiguous : ChannelIdentifierError

pub data Error : Type 0 where
  disconnected : Error
  already_connected : Error
  channel_identifier_error : Text → ChannelIdentifierError → Error
  invalid_server_addr : Text → ℕ → Error
  invalid_username : Text → Error
  invalid_server_password : Error
  unimplemented : Error
  not_connected_to_channel : Error
  server_cert_reject : Error

-- The two `Display` implementations.
unfoldable pub show_channel_error : ChannelIdentifierError → Text
show_channel_error invalid = text "Invalid channel identifier"
show_channel_error ambiguous = text "Ambiguous channel identifier"

unfoldable pub show_error : Error → Text
unfolding show_channel_error
show_error disconnected = text "Not connected to a server"
show_error already_connected = text "Already connected to a server"
show_error (channel_identifier_error id kind) = show_channel_error kind ++ (text ": " ++ id)
show_error (invalid_server_addr addr port) =
    text "Invalid server address: " ++ (addr ++ (text ": " ++ show port))
show_error (invalid_username username) = text "Invalid username: " ++ username
show_error invalid_server_password = text "Invalid server password"
show_error unimplemented = text "Unimplemented"
show_error not_connected_to_channel = text "Not connected to a channel"
show_error server_cert_reject = text "Invalid server certificate"
