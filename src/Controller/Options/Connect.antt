-- ===== src/Controller/Options/Connect.antt =====
-- What `connect` asks the daemon for, when the name is that of a saved server.
use mum.Common.{ℕ, Text, Bool, some}
use mum.Mumlib.Command.{Command}
use mum.Mumlib.Config.{Config, ServerConfig}

-- A saved server of which every option is set.
abbrev pub full_server : Text → Text → ℕ → Text → Text → Bool → ServerConfig
full_server name host port username password accept = record {
  name = name;
  host = host;
  port = some port;
  username = some username;
  password = some password;
  accept_invalid_cert = some accept;
}
