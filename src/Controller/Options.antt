-- ===== src/Controller/Options.antt =====
-- mum/src/bin/mumctl.rs, `match_opt`: what the commands of the command line do.
pub mod Connect
pub mod Keeps
use mum.Common.{
  ℕ, Text, text, text_eq, Bool, true, false, ◌||◌, Option, some, none, get_or, is_some, List, [],
  ◌∷◌, ◌++◌, find, map, Result, ok, err, if◌then◌else◌, Outcome, done, panic, overrun,
}
use mum.Mumlib.Error.{Error, server_cert_reject, show_error}
use mum.Mumlib.Event.{MumbleEvent, show_event}
use mum.Mumlib.Tree.{Channel, Server}
use mum.Mumlib.Command.{
  Command, CommandResponse, Response, ConnectRequest, MessageTarget, ChannelTarget, F32,
}
use mum.Mumlib.Config.{Config, ServerConfig}
use mum.Controller.Cli.{
  Cli, CliError, no_username, config_key_not_found, cli, daemon, library, Toml, Outside, Value,
  boolean, float, Terminal, return, fail, or_fail, or_panic, print, eprint, log_error, log_warning,
  send, send_command, send_command_multi, maybe_write_config, show_failure, Run, ◌>>=◌, ◌>>◌,
}
use mum.Controller.Servers.{ServerCommand, saved, named, default_port, match_server_command}
use mum.Controller.Show.{parse_state, print_channel}

-- The arguments of `connect`.
pub record ConnectArgs : Type 0 where
  pub host : Text
  pub username : Option Text
  pub password : Option Text
  pub port : Option ℕ
  pub accept_invalid_cert : Bool

-- The commands of the command line; completions are the library's.
pub data Opt : Type 0 where
  connect : ConnectArgs → Opt
  disconnect status config_reload deafen undeafen completions : Opt
  server : ServerCommand → Opt
  channel_list : Bool → Opt
  channel_connect : Text → Opt
  config : Text → Text → Opt
  volume : Text → Option F32 → Opt
  mute unmute : Option Text → Opt
  messages events : Bool → Opt
  message_channel : Text → Bool → List Text → Opt
  message_user : Text → List Text → Opt

abbrev pub or_else {ℓ} : {A : Type ℓ} → Option A → Option A → Option A
or_else none b = b
or_else (some a) b = some a

-- What is sent for `connect`, and whether it has been said if an invalid certificate is accepted.
pub record Resolved : Type 0 where
  pub request : ConnectRequest
  pub specified : Bool

abbrev request_for : ConnectArgs → Text → Text → Option Text → ℕ → Option Bool → Resolved
request_for a host username password port accept = record {
  request = record {
    host = host;
    port = port;
    username = username;
    password = password;
    accept_invalid_cert = a.accept_invalid_cert || get_or accept false;
  };
  specified = a.accept_invalid_cert || is_some accept;
}

-- With the saved server of the name, if there is one.
unfoldable pub resolve_with : Config → ConnectArgs → Option ServerConfig → Result Resolved CliError
resolve_with c a (some s) = elim (or_else s.username a.username) [
  | none ↦ err no_username
  | some username ↦ ok (
      request_for a s.host username (or_else s.password a.password)
        (get_or s.port (get_or a.port default_port))
        (or_else s.accept_invalid_cert c.allow_invalid_server_cert))
]
resolve_with c a none = elim a.username [
  | none ↦ err no_username
  | some username ↦ ok (
      request_for a a.host username a.password (get_or a.port default_port)
        (or_else none c.allow_invalid_server_cert))
]

unfoldable pub resolve : Config → ConnectArgs → Result Resolved CliError
unfolding resolve_with
resolve c a = resolve_with c a (find (named a.host) (saved c))

-- The patterns that the answers are matched with.
abbrev pub as_connected : Option CommandResponse → Option (Option Text × Server)
as_connected (some (CommandResponse.server_connect message state)) = some (message, state)
as_connected _ = none

abbrev pub as_channels : Option CommandResponse → Option Channel
as_channels (some (CommandResponse.channel_list channels)) = some channels
as_channels _ = none

abbrev pub as_status : Option CommandResponse → Option Server
as_status (some (CommandResponse.status state)) = some state
as_status _ = none

abbrev pub as_past_message : Option CommandResponse → Option (ℕ × Text × Text)
as_past_message (some (CommandResponse.past_message time message sender)) =
    some (time, message, sender)
as_past_message _ = none

abbrev pub as_event : Option CommandResponse → Option MumbleEvent
as_event (some (CommandResponse.event e)) = some e
as_event _ = none

abbrev pub is_cert_reject : Error → Bool
is_cert_reject server_cert_reject = true
is_cert_reject _ = false

module _ (o : Outside) where
  help : Cli Unit
  help = do
    eprint
        (text "help: If you trust this server anyway, you can do any of the following to connect:")
    eprint (
        text "  1. Temporarily trust this server by passing --accept-invalid-cert when connecting.")
    eprint (
        text
          "  2. Permanently trust this server by setting accept_invalid_cert=true in the server's config.")
    eprint (
        text
          "  3. Permantently trust all invalid certificates by setting accept_all_invalid_certs=true globally")

  abbrev welcome : Option Text → Cli Unit
  welcome none = return tt
  welcome (some message) = print (text "\nWelcome: " ++ message)

  cert_rejected : Bool → Cli Unit
  unfolding help
  cert_rejected specified = do
    log_error o (text "Connection rejected since the server supplied an invalid certificate.")
    if specified then return tt else help

  -- What is done with the answer to `connect`.
  unfoldable pub connected : Bool → Response → Cli Unit
  unfolding cert_rejected
  connected specified (ok response) = do
    shown ← or_panic (as_connected response)
    parse_state shown.1
    welcome shown.0
  connected specified (err e) =
      if is_cert_reject e then cert_rejected specified else fail (daemon e)

  abbrev resolved_or_fail : Result Resolved CliError → Cli Resolved
  resolved_or_fail (ok r) = return r
  resolved_or_fail (err e) = fail (cli e)

  unfoldable pub connect_to : Config → ConnectArgs → Cli Unit
  unfolding resolve connected
  connect_to c a = do
    r ← resolved_or_fail (resolve c a)
    response ← send_command o (Command.server_connect r.request)
    connected r.specified response

  -- A command of which the answer is not shown.
  unfoldable pub tell : Command → Cli Unit
  tell c = do response ← send o c; return tt

  abbrev show_channels : Option CommandResponse → Cli Unit
  show_channels r = do channels ← or_panic (as_channels r); print_channel o channels 0

  abbrev show_status : Option CommandResponse → Cli Unit
  show_status r = or_panic (as_status r) >>= parse_state

  -- Each answer is printed, and an error does not end the loop.
  print_messages : List Response → Cli Unit
  print_messages [] = return tt
  print_messages (ok r ∷ rs) = do
    (time, message, sender) ← or_panic (as_past_message r)
    print (text "[" ++ (o.format_time time ++ (text "] " ++ (sender ++ (text ": " ++ message)))))
    print_messages rs
  print_messages (err e ∷ rs) = do log_error o (show_error e); print_messages rs

  print_events : List Response → Cli Unit
  print_events [] = return tt
  print_events (ok r ∷ rs) = do
    e ← or_panic (as_event r)
    print (show_event o.format_event_time e)
    print_events rs
  print_events (err e ∷ rs) = do log_error o (show_error e); print_events rs

  -- The target of a message to channels; without a name it is the current one.
  unfoldable pub channel_targets : Bool → List Text → MessageTarget
  channel_targets recursive [] = MessageTarget.channel ((ChannelTarget.current, recursive) ∷ [])
  channel_targets recursive (name ∷ names) =
      MessageTarget.channel (map (λ n. (ChannelTarget.named n, recursive)) (name ∷ names))

  module _ {Doc Table : Type 0} (toml : Toml Doc Table) where
    -- A volume that is no number is passed over without a word.
    unfoldable pub set_volume : Doc → Text → (F32 → Command) → Text → Cli Unit
    unfolding tell
    set_volume d key command value = elim (o.parse_f64 value) [
      | none ↦ return tt
      | some v ↦ do
        tell (command (o.as_f32 v))
        maybe_write_config o (toml.to_string (toml.set_audio d key (float v)))
    ]

    set_flag : Doc → Result Bool Text → Cli Unit
    set_flag d (ok b) =
        maybe_write_config o
          (toml.to_string (toml.set_key d (text "allow_invalid_server_cert") (boolean b)))
    set_flag d (err e) = return tt

    unfoldable pub set_config : Doc → Text → Text → Cli Unit
    unfolding set_volume set_flag
    set_config d key value =
        if text_eq key (text "audio.input_volume")
        then set_volume d (text "input_volume") Command.input_volume_set value
        else (if text_eq key (text "audio.output_volume")
            then set_volume d (text "output_volume") Command.output_volume_set value
            else (if text_eq key (text "accept_all_invalid_certs")
                then set_flag d (o.parse_bool value)
                else fail (cli (config_key_not_found key))))

    abbrev mute_command : Option Text → Bool → Command
    mute_command none b = Command.mute_self (some b)
    mute_command (some user) b = Command.mute_other user (some b)

    -- The `match` of `match_opt`.
    unfoldable pub run_command : Opt → Config → Doc → Cli Unit
    unfolding connect_to tell print_messages print_events channel_targets set_config
    run_command (connect a) c d = connect_to c a
    run_command disconnect c d = tell Command.server_disconnect
    run_command (server s) c d = match_server_command toml o s c d
    run_command (channel_list short) c d = send o Command.channel_list >>= show_channels
    run_command (channel_connect name) c d = tell (Command.channel_join name)
    run_command status c d = send o Command.status >>= show_status
    run_command (config key value) c d = set_config d key value
    run_command config_reload c d = tell Command.config_reload
    run_command completions c d = return tt
    run_command (volume user (some v)) c d = tell (Command.user_volume_set user v)
    run_command (volume user none) c d = log_warning o (text "Currently unimplemented")
    run_command (mute user) c d = tell (mute_command user true)
    run_command (unmute user) c d = tell (mute_command user false)
    run_command deafen c d = tell (Command.deafen_self (some true))
    run_command undeafen c d = tell (Command.deafen_self (some false))
    run_command (messages follow) c d =
        send_command_multi o (Command.past_messages follow) >>= print_messages
    run_command (message_channel message recursive names) c d =
        tell (Command.send_message message (channel_targets recursive names))
    run_command (message_user message names) c d =
        tell (Command.send_message message (MessageTarget.user names))
    run_command (events follow) c d = send_command_multi o (Command.events follow) >>= print_events

    abbrev library_result : {A : Type 0} → Result A Text → Cli A
    library_result (ok a) = return a
    library_result (err e) = fail (library e)

    -- `match_opt`: the configuration is read first; a file that is not there is an empty text.
    unfoldable pub match_opt : Opt → Cli Unit
    unfolding run_command
    match_opt opt t =
        (do
          d ← library_result (toml.parse (get_or t.file []))
          c ← library_result (toml.from_document d)
          run_command opt c d)
          t

    -- `main`, after the version: a failure is printed.
    unfoldable pub main : Opt → Cli Unit
    unfolding match_opt
    main opt t = elim (match_opt opt t) [
      | done (u, ok a) ↦ done (u, ok a)
      | done (u, err e) ↦ log_error o (show_failure e) u
      | panic ↦ panic
      | overrun ↦ overrun
    ]
