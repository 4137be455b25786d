-- ===== src/Controller/Cli.antt =====
-- mum/src/bin/mumctl.rs: what the controller reads and writes, its errors, and its outside.
pub mod Keeps
use mum.Common.{
  ℕ, zero, suc, ◌/◌, ◌%◌, ◌^◌, ltb, length, drop, ℤ, Text, text, Bool, true, false, Option, some,
  none, List, [], ◌∷◌, ◌++◌, push, Outcome, done, panic, overrun, text_eq, if◌then◌else◌, Result,
  ok, err,
}
use mum.Mumlib.Error.{Error, show_error}
use mum.Mumlib.Command.{Command, CommandResponse, Response, F32}
use mum.Mumlib.Config.{Config, ServerConfig}

pub data CliError : Type 0 where
  no_username : CliError
  connection_error : CliError
  no_server_found : Text → CliError
  not_set : Text → CliError
  use_server_rename : CliError
  config_key_not_found : Text → CliError
  server_already_exists : Text → CliError
  no_servers : CliError

-- `Display for CliError`.
unfoldable pub show_cli_error : CliError → Text
show_cli_error no_username = text "No username specified"
show_cli_error connection_error = text "Unable to connect to mumd. Is mumd running?"
show_cli_error (no_server_found s) = text "Server '" ++ (s ++ text "' not found")
show_cli_error (not_set s) = text "Key '" ++ (s ++ text "' not set")
show_cli_error use_server_rename = text "Use 'server rename' instead"
show_cli_error (config_key_not_found s) = text "Key '" ++ (s ++ text "' not found")
show_cli_error (server_already_exists s) = text "A server named '" ++ (s ++ text "' already exists")
show_cli_error no_servers = text "No servers found"

-- What is boxed in `Error`: an error of the controller or of the daemon, or one of the library that
-- reads and writes files or that reads TOML, with its text.
pub data Failure : Type 0 where
  cli : CliError → Failure
  daemon : Error → Failure
  library : Text → Failure

-- `Display for Error`.
unfoldable pub show_failure : Failure → Text
unfolding show_cli_error
show_failure (cli e) = show_cli_error e
show_failure (daemon e) = show_error e
show_failure (library message) = message

-- What a run reads and changes: the text of the configuration file, if there is one, what has been
-- printed and printed as errors, piece by piece, and the commands that the daemon was sent.
pub record Terminal : Type 0 where
  pub file : Option Text
  pub printed : List Text
  pub errors : List Text
  pub sent : List Command

-- A value of TOML. A float is its bits.
pub data Value : Type 0 where
  string : Text → Value
  integer : ℤ → Value
  boolean : Bool → Value
  float : ℕ → Value

-- The TOML library: a document `Doc`, the tables `Table` in its array `servers`, if it has that array
-- in the form that can be changed, and what serde makes of them.
pub record Toml (Doc : Type 0) (Table : Type 0) : Type 0 where
  pub parse : Text → Result Doc Text
  pub to_string : Doc → Text
  pub from_document : Doc → Result Config Text
  pub servers : Doc → Option (List Table)
  pub set_servers : Doc → List Table → Doc
  pub or_insert_servers : Doc → Doc
  pub set_field : Table → Text → Value → Table
  pub name_field : Table → Option Text
  pub to_table : ServerConfig → Option Table
  pub set_key : Doc → Text → Value → Doc
  pub set_audio : Doc → Text → Value → Doc

-- The rest of the outside: the format of commands and responses, of which reading leaves what comes
-- after, the daemon, which answers what is written to its socket by the commands before it (`none`
-- when the socket fails), the line that is typed in, the error of writing a file, the parsers and the
-- printers of the standard library and of the crates that print in colour and format times.
pub record Outside : Type 0 where
  pub config_path : Text
  pub serialize : Command → List ℕ
  pub deserialize_from : List ℕ → Option (Response × List ℕ)
  pub exchange : List Command → List ℕ → Option (List ℕ)
  pub typed : Option Text
  pub write_error : Option Text
  pub parse_f64 : Text → Option ℕ
  pub as_f32 : ℕ → F32
  pub parse_i64 : Text → Option ℤ
  pub parse_bool : Text → Result Bool Text
  pub error_label : Text
  pub warning_label : Text
  pub bold : Text → Text
  pub format_time : ℕ → Text
  pub format_event_time : ℕ → Text

-- What a run of a part of the controller comes to: a panic ends it, a failure is passed on by `?`.
abbrev pub Run : Type 0 → Type 0
Run A = Outcome (Terminal × Result A Failure)

abbrev pub Cli : Type 0 → Type 0
Cli A = Terminal → Run A

abbrev pub return : {A : Type 0} → A → Cli A
return a t = done (t, ok a)

abbrev pub fail : {A : Type 0} → Failure → Cli A
fail e t = done (t, err e)

abbrev pub and_then : {A B : Type 0} → Run A → (A → Cli B) → Run B
and_then (done (t, ok a)) f = f a t
and_then (done (t, err e)) f = done (t, err e)
and_then panic f = panic
and_then overrun f = overrun

infixl 5 ◌>>=◌
abbrev pub ◌>>=◌ : {A B : Type 0} → Cli A → (A → Cli B) → Cli B
m >>= f = λ t. and_then (m t) f

infixl 5 ◌>>◌
abbrev pub ◌>>◌ : {A B : Type 0} → Cli A → Cli B → Cli B
m >> n = m >>= λ a. n

-- An `unwrap` or an `unreachable!`.
abbrev pub panics : {A : Type 0} → Cli A
panics t = panic

abbrev pub or_panic : {A : Type 0} → Option A → Cli A
or_panic none t = panic
or_panic (some a) t = done (t, ok a)

-- `ok_or(e)?`.
abbrev pub or_fail : {A : Type 0} → Option A → CliError → Cli A
or_fail none e t = done (t, err (cli e))
or_fail (some a) e t = done (t, ok a)

-- `print!`.
abbrev pub print_part : Text → Cli Unit
print_part s t = done (record t { printed = push t.printed s }, ok tt)

abbrev pub line : Text → Text
line s = s ++ text "\n"

-- `println!`.
abbrev pub print : Text → Cli Unit
print s = print_part (line s)

abbrev pub eprint : Text → Cli Unit
eprint s t = done (record t { errors = push t.errors (line s) }, ok tt)

module _ (o : Outside) where
  -- `error!` and `warn!` print with `println!`.
  abbrev pub log_error : Text → Cli Unit
  log_error s = print (o.error_label ++ s)

  abbrev pub log_warning : Text → Cli Unit
  log_warning s = print (o.warning_label ++ s)

  -- The length in four bytes, the high one first, and the command.
  unfoldable pub framed : Command → List ℕ
  framed c =
      let bytes : List ℕ = o.serialize c in
      let n : ℕ = length bytes in
      n / 2 ^ 24 % 2 ^ 8 ∷ n / 2 ^ 16 % 2 ^ 8 ∷ n / 2 ^ 8 % 2 ^ 8 ∷ n % 2 ^ 8 ∷ bytes

  -- `BincodeIter::next`, and the end of `send_command`: four bytes are skipped.
  unfoldable pub read_response : List ℕ → Option (Response × List ℕ)
  read_response bytes = if ltb (length bytes) 4 then none else o.deserialize_from (drop 4 bytes)

  -- What an iterator over the answers yields; a response takes four bytes at least, so that there are
  -- no more of them than bytes.
  unfoldable pub read_responses : ℕ → List ℕ → List Response
  unfolding read_response
  read_responses zero bytes = []
  read_responses (suc n) bytes = elim (read_response bytes) [
    | none ↦ []
    | some (response, rest) ↦ response ∷ read_responses n rest
  ]

  abbrev pub reply : List Command → Command → Option Response
  reply sent c = elim (o.exchange sent (framed c)) [
    | none ↦ none
    | some bytes ↦ elim (read_response bytes) [
      | none ↦ none
      | some (response, rest) ↦ some response
    ]
  ]

  -- `send_command`, up to its first `?`.
  unfoldable pub send_command : Command → Cli Response
  send_command c t = elim (reply t.sent c) [
    | none ↦ done (t, err (cli connection_error))
    | some response ↦ done (record t { sent = push t.sent c }, ok response)
  ]

  abbrev accepted : Response → Cli (Option CommandResponse)
  accepted (ok response) = return response
  accepted (err e) = fail (daemon e)

  -- `send_command(…)??`.
  unfoldable pub send : Command → Cli (Option CommandResponse)
  unfolding send_command
  send c = do response ← send_command c; accepted response

  -- `send_command_multi`, with all that the iterator yields.
  unfoldable pub send_command_multi : Command → Cli (List Response)
  unfolding read_responses
  send_command_multi c t = elim (o.exchange t.sent (framed c)) [
    | none ↦ done (t, err (cli connection_error))
    | some bytes ↦
        done (record t { sent = push t.sent c }, ok (read_responses (length bytes) bytes))
  ]

  unfoldable pub write_file : Text → Cli Unit
  write_file content t = elim o.write_error [
    | some e ↦ done (t, err (library e))
    | none ↦ done (record t { file = some content }, ok tt)
  ]

  -- The answer `n`.
  abbrev pub refuses : Option Text → Bool
  refuses none = false
  refuses (some line) = text_eq line (text "n")

  create_file : Text → Cli Unit
  unfolding write_file
  create_file content = do
    print (text "Config file not found. Create one at " ++ (o.config_path ++ text "? [Y/n] "))
    if refuses o.typed
        then print (text "Not creating config file")
        else do write_file content; print (text "Config file created at " ++ o.config_path)

  -- A file that is there is overwritten; else the user is asked first.
  unfoldable pub maybe_write_config : Text → Cli Unit
  unfolding write_file create_file
  maybe_write_config content t = elim t.file [
    | some old ↦ write_file content t
    | none ↦ create_file content t
  ]
