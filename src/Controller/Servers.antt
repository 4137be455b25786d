-- ===== src/Controller/Servers.antt =====
-- mum/src/bin/mumctl.rs, `match_server_command`: the servers that are saved in the configuration.
pub mod Spec
use mum.Common.{
  ℕ, zero, suc, ℤ, Text, text, show, text_eq, ends_with, Bool, true, false, Option, some, none,
  get_or, is_some, List, [], ◌∷◌, ◌++◌, find, push, length, Result, ok, err, leb, ltb, ◌+◌, ◌-◌,
  if◌then◌else◌,
}
use mum.Mumlib.Error.{Error, show_error}
use mum.Mumlib.Command.{Command, CommandResponse, Response, server_status}
use mum.Mumlib.Config.{Config, ServerConfig}
use mum.Controller.Cli.{
  Cli, CliError, connection_error, show_cli_error, no_server_found, not_set, use_server_rename,
  config_key_not_found, server_already_exists, no_servers, Failure, cli, daemon, show_failure, Toml,
  Outside, Value, string, integer, boolean, Terminal, return, fail, or_panic, or_fail, panics,
  print, print_part, log_warning, log_error, reply, maybe_write_config, ◌>>=◌, ◌>>◌,
}

-- The `Server` commands of the command line.
pub data ServerCommand : Type 0 where
  add : Text → Text → Option ℕ → Option Text → Option Text → ServerCommand
  config : Option Text → Option Text → Option Text → ServerCommand
  list : ServerCommand
  rename : Text → Text → ServerCommand
  remove : Text → ServerCommand

-- `mumlib::DEFAULT_PORT`.
abbrev pub default_port : ℕ
default_port = 64738

-- `config.servers.iter().flatten()`.
abbrev pub saved : Config → List ServerConfig
saved c = get_or c.servers []

abbrev pub named : Text → ServerConfig → Bool
named name s = text_eq s.name name

-- `position`, and `enumerate` with `find`.
unfoldable pub position : List ServerConfig → Text → Option ℕ
position [] name = none
position (s ∷ ss) name =
    if named name s then some 0 else elim (position ss name) [ none ↦ none | some i ↦ some (suc i) ]

abbrev pub field_line : Text → Option Text → Text
field_line key none = []
field_line key (some v) = key ++ (text ": " ++ (v ++ text "\n"))

abbrev pub show_bool : Bool → Text
show_bool true = text "true"
show_bool false = text "false"

abbrev pub show_option {ℓ} : {A : Type ℓ} → (A → Text) → Option A → Option Text
show_option f none = none
show_option f (some a) = some (f a)

-- All that is set of a server.
unfoldable pub show_server : ServerConfig → Text
show_server s =
    field_line (text "host") (some s.host)
    ++ (field_line (text "port") (show_option show s.port)
        ++ (field_line (text "username") s.username
            ++ (field_line (text "password") s.password
                ++ field_line (text "accept_invalid_cert")
                    (show_option show_bool s.accept_invalid_cert))))

-- `str::len`: the bytes of UTF-8.
abbrev pub byte_length : Text → ℕ
byte_length [] = 0
byte_length (c ∷ s) =
    (if ltb c 0x80 then 1 else (if ltb c 0x800 then 2 else (if ltb c 0x10000 then 3 else 4)))
    + byte_length s

abbrev pub longest_name : List ServerConfig → ℕ
longest_name [] = 0
longest_name (s ∷ ss) =
    let rest = longest_name ss in if leb (byte_length s.name) rest then rest else byte_length s.name

abbrev spaces : ℕ → Text
spaces zero = []
spaces (suc n) = 32 ∷ spaces n

-- `{0:<1$}`.
abbrev pub pad : ℕ → Text → Text
pad width s = s ++ spaces (width - length s)

-- The keys of a server that the command knows.
pub data Key : Type 0 where
  name_key host_key port_key username_key password_key accept_key unknown_key : Key

abbrev pub key_from : Text → Key
key_from key =
    if text_eq key (text "name")
    then name_key
    else (if text_eq key (text "host")
        then host_key
        else (if text_eq key (text "port")
            then port_key
            else (if text_eq key (text "username")
                then username_key
                else (if text_eq key (text "password")
                    then password_key
                    else (if text_eq key (text "accept_invalid_cert")
                        then accept_key
                        else unknown_key)))))

-- The key without a value: what is shown of it.
unfoldable pub show_key : ServerConfig → Key → Text → Cli Unit
show_key s name_key key = print s.name
show_key s host_key key = print s.host
show_key s port_key key = or_fail (show_option show s.port) (not_set key) >>= print
show_key s username_key key = or_fail s.username (not_set key) >>= print
show_key s password_key key = or_fail s.password (not_set key) >>= print
show_key s accept_key key =
    or_fail (show_option show_bool s.accept_invalid_cert) (not_set key) >>= print
show_key s unknown_key key = fail (cli (config_key_not_found key))

module _ {Doc Table : Type 0} (toml : Toml Doc Table) (o : Outside) where
  -- `get_mut(index)` and an assignment to a field of that table.
  unfoldable pub set_at : List Table → ℕ → Text → Value → Option (List Table)
  set_at [] i key v = none
  set_at (t ∷ ts) zero key v = some (toml.set_field t key v ∷ ts)
  set_at (t ∷ ts) (suc i) key v = elim (set_at ts i key v) [ none ↦ none | some us ↦ some (t ∷ us) ]

  -- A field of the server at the index is set and the document is written.
  unfoldable pub write_field : Doc → ℕ → Text → Value → Cli Unit
  unfolding set_at
  write_field d i key v = do
    tables ← or_panic (toml.servers d)
    changed ← or_panic (set_at tables i key v)
    maybe_write_config o (toml.to_string (toml.set_servers d changed))

  -- The key with a value.
  unfoldable pub set_key : Doc → ℕ → Key → Text → Text → Cli Unit
  unfolding write_field
  set_key d i name_key key v = fail (cli use_server_rename)
  set_key d i host_key key v = write_field d i (text "host") (string v)
  set_key d i port_key key v = do
    port ← or_panic (o.parse_i64 v)
    write_field d i (text "port") (integer port)
  set_key d i username_key key v = write_field d i (text "username") (string v)
  set_key d i password_key key v = write_field d i (text "password") (string v)
  set_key d i accept_key key v = elim (o.parse_bool v) [
    | ok b ↦ write_field d i (text "accept_invalid_cert") (boolean b)
    | err e ↦ log_warning o e
  ]
  set_key d i unknown_key key v = fail (cli (config_key_not_found key))

  print_names : List ServerConfig → Cli Unit
  print_names [] = return tt
  print_names (s ∷ ss) = do print s.name; print_names ss

  abbrev name_matches : Text → Table → Option Bool
  name_matches name t = elim (toml.name_field t) [ none ↦ none | some n ↦ some (text_eq n name) ]

  -- `find` on the tables and an assignment to the name. A name that is no string panics; `none` is
  -- that no table has the name.
  unfoldable pub rename_first : List Table → Text → Text → Cli (Option (List Table))
  rename_first [] old new = return none
  rename_first (t ∷ ts) old new = do
    same ← or_panic (name_matches old t)
    elim same [
      | true ↦ return (some (toml.set_field t (text "name") (string new) ∷ ts))
      | false ↦ do
        rest ← rename_first ts old new
        return (elim rest [ none ↦ none | some us ↦ some (t ∷ us) ])
    ]

  -- `ArrayOfTables::remove`; an index that is out of range panics.
  unfoldable pub remove_at : List Table → ℕ → Option (List Table)
  remove_at [] i = none
  remove_at (t ∷ ts) zero = some ts
  remove_at (t ∷ ts) (suc i) = elim (remove_at ts i) [ none ↦ none | some us ↦ some (t ∷ us) ]

  abbrev elem_at : List Table → ℕ → Option Table
  elem_at [] i = none
  elem_at (t ∷ ts) zero = some t
  elem_at (t ∷ ts) (suc i) = elem_at ts i

  -- `server config`: all of the server, one key of it, or a new value of a key. The table is looked up
  -- whatever is asked for.
  unfoldable pub server_config : Config → Doc → Option Text → Option Text → Option Text → Cli Unit
  unfolding print_names position show_server show_key set_key
  server_config c d none key value = print_names (saved c)
  server_config c d (some name) key value = do
    s ← or_fail (find (named name) (saved c)) (no_server_found name)
    i ← or_fail (position (saved c) name) (no_server_found name)
    tables ← or_panic (toml.servers d)
    table ← or_panic (elem_at tables i)
    elim key [
      | none ↦ print_part (show_server s)
      | some k ↦ elim value [
        | none ↦ show_key s (key_from k) k
        | some v ↦ set_key d i (key_from k) k v
      ]
    ]

  unfoldable pub server_rename : Doc → Text → Text → Cli Unit
  unfolding rename_first
  server_rename d old new = do
    tables ← or_panic (toml.servers d)
    renamed ← rename_first tables old new
    changed ← or_fail renamed (no_server_found old)
    maybe_write_config o (toml.to_string (toml.set_servers d changed))

  unfoldable pub server_add : Config → Doc → ServerConfig → Cli Unit
  server_add c d s = elim (find (named s.name) (saved c)) [
    | some other ↦ fail (cli (server_already_exists s.name))
    | none ↦ do
      let there : Doc = toml.or_insert_servers d
      tables ← or_panic (toml.servers there)
      table ← or_panic (toml.to_table s)
      maybe_write_config o (toml.to_string (toml.set_servers there (push tables table)))
  ]

  unfoldable pub server_remove : Config → Doc → Text → Cli Unit
  unfolding position remove_at
  server_remove c d name = do
    i ← or_fail (position (saved c) name) (no_server_found name)
    tables ← or_panic (toml.servers d)
    changed ← or_panic (remove_at tables i)
    maybe_write_config o (toml.to_string (toml.set_servers d changed))

  -- The queries of the threads, in the order of the servers; `none` when the daemon is not reached.
  unfoldable pub query_all : List ServerConfig → Cli (List (ServerConfig × Option Response))
  query_all [] t = return [] t
  query_all (s ∷ ss) t =
      let query : Command = server_status s.host (get_or s.port default_port) in
      let response = reply o t.sent query in
      (do rest ← query_all ss; return ((s, response) ∷ rest))
        (if is_some response then record t { sent = push t.sent query } else t)

  -- What is printed of a response; the first error is printed and ends the list.
  print_status : ℕ → ServerConfig → Option Response → Cli Unit
  print_status longest s
        (some (ok (some (CommandResponse.server_status version users max_users bandwidth)))) =
      print (
        pad longest s.name
        ++ (text " [" ++ (show users ++ (text "/" ++ (show max_users ++ text "]")))))
  print_status longest s (some (ok none)) = print (pad longest s.name ++ text " offline")
  print_status longest s (some (ok (some other))) = panics
  print_status longest s (some (err e)) = do log_error o (show_error e); fail (daemon e)
  print_status longest s none = do
    log_error o (show_cli_error connection_error)
    fail (cli connection_error)

  print_statuses : ℕ → List (ServerConfig × Option Response) → Cli Unit
  unfolding print_status
  print_statuses longest [] = return tt
  print_statuses longest ((s, r) ∷ rest) = do print_status longest s r; print_statuses longest rest

  unfoldable pub server_list : Config → Cli Unit
  unfolding query_all print_statuses
  server_list c = elim (saved c) [
    | [] ↦ fail (cli no_servers)
    | s ∷ ss ↦ do
      responses ← query_all (s ∷ ss)
      print_statuses (longest_name (s ∷ ss) + 1) responses
  ]

  unfoldable pub match_server_command : ServerCommand → Config → Doc → Cli Unit
  unfolding server_config server_rename server_add server_remove server_list
  match_server_command (config name key value) c d = server_config c d name key value
  match_server_command (rename old new) c d = server_rename d old new
  match_server_command (add name host port username password) c d = server_add c d (record {
    name = name;
    host = host;
    port = port;
    username = username;
    password = password;
    accept_invalid_cert = none;
  })
  match_server_command (remove name) c d = server_remove c d name
  match_server_command list c d = server_list c
