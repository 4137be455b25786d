-- ===== src/Controller/Options/Keeps.antt =====
-- The commands that leave the configuration file alone.
use mum.Common.{
  refl, Text, Bool, true, false, Option, some, none, get_or, List, [], ◌∷◌, done, panic, overrun,
  Result, ok, err, inl, inr, Bool-cases,
}
use mum.Mumlib.Command.{Command, Response}
use mum.Mumlib.Config.{Config}
use mum.Controller.Cli.{
  Cli, Terminal, Toml, Outside, send, send_command, send_command_multi, ◌>>=◌, ◌>>◌, or_panic,
  CliError, Run, log_error, show_failure,
}
use mum.Controller.Cli.Keeps.{
  KeepsIn, Keeps, >>=-Keeps, >>-Keeps, or_panic-Keeps, send-Keeps, send_command-Keeps,
  send_command_multi-Keeps,
}
use mum.Controller.Show.{parse_state}
use mum.Controller.Show.Keeps.{parse_state-Keeps, print_channel-Keeps}
use mum.Controller.Options.{
  Opt, connect, disconnect, server, channel_list, channel_connect, status, config, config_reload,
  completions, volume, mute, unmute, deafen, undeafen, messages, message_channel, message_user,
  events, Resolved, resolve, resolved_or_fail, connect_to, connected, tell, help, welcome,
  cert_rejected, is_cert_reject, as_connected, as_channels, as_status, as_past_message, as_event,
  show_channels, show_status, print_messages, print_events, run_command, library_result, match_opt,
  main, ConnectArgs,
}

module _ (o : Outside) where
  tell-Keeps : (c : Command) → Keeps (tell o c)
  unfolding tell
  tell-Keeps c = >>=-Keeps (send o c) _ (send-Keeps o c) λ r t. refl

  shown-Keeps :
      {A B : Type 0} (r : Option A) (f : A → Cli B)
      → ((a : A) → Keeps (f a))
      → Keeps (or_panic r >>= f)
  shown-Keeps r f = >>=-Keeps (or_panic r) f (or_panic-Keeps r)

  print_messages-Keeps : (rs : List Response) → Keeps (print_messages o rs)
  unfolding print_messages
  print_messages-Keeps [] t = refl
  print_messages-Keeps (ok r ∷ rs) t =
      shown-Keeps (as_past_message r) _ (λ m u. print_messages-Keeps rs _) t
  print_messages-Keeps (err e ∷ rs) t = print_messages-Keeps rs _

  print_events-Keeps : (rs : List Response) → Keeps (print_events o rs)
  unfolding print_events
  print_events-Keeps [] t = refl
  print_events-Keeps (ok r ∷ rs) t = shown-Keeps (as_event r) _ (λ e u. print_events-Keeps rs _) t
  print_events-Keeps (err e ∷ rs) t = print_events-Keeps rs _

  welcome-Keeps : (m : Option Text) → Keeps (welcome o m)
  welcome-Keeps none t = refl
  welcome-Keeps (some m) t = refl

  cert_rejected-Keeps : (specified : Bool) → Keeps (cert_rejected o specified)
  unfolding cert_rejected help
  cert_rejected-Keeps true t = refl
  cert_rejected-Keeps false t = refl

  connected-Keeps : (specified : Bool) (r : Response) → Keeps (connected o specified r)
  unfolding connected
  connected-Keeps specified (ok r) t =
      shown-Keeps (as_connected r) (λ shown. parse_state shown.1 >> welcome o shown.0)
        (λ shown.
          >>-Keeps (parse_state shown.1) (welcome o shown.0) (parse_state-Keeps shown.1)
            (welcome-Keeps shown.0))
        t
  connected-Keeps specified (err e) t = elim (Bool-cases (is_cert_reject e)) [
    | inl rejected ↦ rw rejected (cert_rejected-Keeps specified t)
    | inr other ↦ rw other refl
  ]

  resolved_or_fail-Keeps : (r : Result Resolved CliError) → Keeps (resolved_or_fail o r)
  resolved_or_fail-Keeps (ok r) t = refl
  resolved_or_fail-Keeps (err e) t = refl

  connect_to-Keeps : (c : Config) (a : ConnectArgs) → Keeps (connect_to o c a)
  unfolding connect_to
  connect_to-Keeps c a =
      >>=-Keeps (resolved_or_fail o (resolve c a)) _ (resolved_or_fail-Keeps (resolve c a)) λ r.
        >>=-Keeps (send_command o (Command.server_connect r.request)) (connected o r.specified)
          (send_command-Keeps o _) (connected-Keeps r.specified)

  -- The commands that may write the configuration file.
  abbrev pub Writes : Opt → Type 0
  Writes (server s) = Unit
  Writes (config key value) = Unit
  Writes _ = ⊥

  module _ {Doc Table : Type 0} (toml : Toml Doc Table) where
    run_command-Keeps :
        (opt : Opt) (c : Config) (d : Doc) → ¬ Writes opt → Keeps (run_command o toml opt c d)
    unfolding run_command
    run_command-Keeps (connect a) c d reads_only t = connect_to-Keeps c a t
    run_command-Keeps disconnect c d reads_only t = tell-Keeps _ t
    run_command-Keeps (server s) c d reads_only t = absurd (reads_only tt)
    run_command-Keeps (channel_list short) c d reads_only t =
        >>=-Keeps (send o Command.channel_list) (show_channels o) (send-Keeps o _)
          (λ r. shown-Keeps (as_channels r) _ (λ channels. print_channel-Keeps o channels 0)) t
    run_command-Keeps (channel_connect name) c d reads_only t = tell-Keeps _ t
    run_command-Keeps status c d reads_only t =
        >>=-Keeps (send o Command.status) (show_status o) (send-Keeps o _)
          (λ r. shown-Keeps (as_status r) parse_state parse_state-Keeps) t
    run_command-Keeps (config key value) c d reads_only t = absurd (reads_only tt)
    run_command-Keeps config_reload c d reads_only t = tell-Keeps _ t
    run_command-Keeps completions c d reads_only t = refl
    run_command-Keeps (volume user (some v)) c d reads_only t = tell-Keeps _ t
    run_command-Keeps (volume user none) c d reads_only t = refl
    run_command-Keeps (mute user) c d reads_only t = tell-Keeps _ t
    run_command-Keeps (unmute user) c d reads_only t = tell-Keeps _ t
    run_command-Keeps deafen c d reads_only t = tell-Keeps _ t
    run_command-Keeps undeafen c d reads_only t = tell-Keeps _ t
    run_command-Keeps (messages follow) c d reads_only t =
        >>=-Keeps (send_command_multi o (Command.past_messages follow)) (print_messages o)
          (send_command_multi-Keeps o _) print_messages-Keeps t
    run_command-Keeps (message_channel message recursive names) c d reads_only t = tell-Keeps _ t
    run_command-Keeps (message_user message names) c d reads_only t = tell-Keeps _ t
    run_command-Keeps (events follow) c d reads_only t =
        >>=-Keeps (send_command_multi o (Command.events follow)) (print_events o)
          (send_command_multi-Keeps o _) print_events-Keeps t

    library_result-Keeps : {A : Type 0} (r : Result A Text) → Keeps (library_result o toml r)
    library_result-Keeps (ok a) t = refl
    library_result-Keeps (err e) t = refl

    match_opt-Keeps : (opt : Opt) → ¬ Writes opt → Keeps (match_opt o toml opt)
    unfolding match_opt
    match_opt-Keeps opt reads_only t =
        >>=-Keeps (library_result o toml (toml.parse (get_or t.file []))) _ (library_result-Keeps _)
          (λ d.
            >>=-Keeps (library_result o toml (toml.from_document d)) _ (library_result-Keeps _)
              λ c. run_command-Keeps opt c d reads_only)
          t

    -- Every command but `server` and `config` leaves the configuration file as it is, however the
    -- run ends, if it returns.
    pub main-Keeps : (opt : Opt) (t : Terminal) → ¬ Writes opt → KeepsIn t (main o toml opt t)
    unfolding main
    main-Keeps opt t reads_only = ended (match_opt o toml opt t) (match_opt-Keeps opt reads_only t)
      where
        ended :
            (m : Run Unit)
            → KeepsIn t m
            → KeepsIn t (elim m [
              | done (u, ok a) ↦ done (u, ok a)
              | done (u, err e) ↦ log_error o (show_failure e) u
              | panic ↦ panic
              | overrun ↦ overrun
            ])
        ended (done (u, ok a)) h = h
        ended (done (u, err e)) h = h
        ended panic h = h
        ended overrun h = h
