-- ===== src/Controller/Servers/Spec.antt =====
-- What the `server` commands promise: operations on a list of servers.
pub mod Tables
pub mod Refines
use mum.Common.{
  ℕ, ◌<◌, ◌^◌, ◌≡◌, ℤ, pos, Text, text, show, Bool, true, false, Option, some, none, List, [], ◌∷◌,
  find, push, Result, ok, err, if◌then◌else◌,
}
use mum.Mumlib.Config.{Config, ServerConfig}
use mum.Controller.Cli.{
  CliError, no_server_found, server_already_exists, Toml, Outside, Value, string, integer, boolean,
  Terminal,
}
use mum.Controller.Servers.{ServerCommand, add, remove, rename, config, named, saved, show_bool}

-- A field that can be given a new value, with the value, and what is typed for it.
pub data Field : Type 0 where
  new_host new_username new_password : Text → Field
  new_port : Text → ℕ → Field
  new_accept : Text → Bool → Field

-- What can be done to the list.
pub data Edit : Type 0 where
  insert : Text → Text → Option ℕ → Option Text → Option Text → Edit
  delete : Text → Edit
  retitle : Text → Text → Edit
  change : Text → Field → Edit

abbrev pub with_field : Field → ServerConfig → ServerConfig
with_field (new_host v) s = record s { host = v }
with_field (new_username v) s = record s { username = some v }
with_field (new_password v) s = record s { password = some v }
with_field (new_port typed n) s = record s { port = some n }
with_field (new_accept typed b) s = record s { accept_invalid_cert = some b }

abbrev pub with_name : Text → ServerConfig → ServerConfig
with_name name s = record s { name = name }

abbrev pub new_server : Text → Text → Option ℕ → Option Text → Option Text → ServerConfig
new_server name host port username password = record {
  name = name;
  host = host;
  port = port;
  username = username;
  password = password;
  accept_invalid_cert = none;
}

-- The first server of the name is changed, or taken out.
abbrev pub cons_onto : ServerConfig → Option (List ServerConfig) → Option (List ServerConfig)
cons_onto s none = none
cons_onto s (some ss) = some (s ∷ ss)

unfoldable pub update_first :
    Text → (ServerConfig → ServerConfig) → List ServerConfig → Option (List ServerConfig)
update_first name f [] = none
update_first name f (s ∷ ss) =
    if named name s then some (f s ∷ ss) else cons_onto s (update_first name f ss)

unfoldable pub delete_first : Text → List ServerConfig → Option (List ServerConfig)
delete_first name [] = none
delete_first name (s ∷ ss) = if named name s then some ss else cons_onto s (delete_first name ss)

abbrev pub found : Text → Option (List ServerConfig) → Result (List ServerConfig) CliError
found name none = err (no_server_found name)
found name (some ss) = ok ss

unfoldable pub edited : Edit → List ServerConfig → Result (List ServerConfig) CliError
unfolding update_first delete_first
edited (insert name host port username password) ss = elim (find (named name) ss) [
  | some other ↦ err (server_already_exists name)
  | none ↦ ok (push ss (new_server name host port username password))
]
edited (delete name) ss = found name (delete_first name ss)
edited (retitle old new) ss = found old (update_first old (with_name new) ss)
edited (change name field) ss = found name (update_first name (with_field field) ss)

-- The key of a field, its value on the command line and its value in TOML.
abbrev pub key_of : Field → Text
key_of (new_host v) = text "host"
key_of (new_username v) = text "username"
key_of (new_password v) = text "password"
key_of (new_port typed n) = text "port"
key_of (new_accept typed b) = text "accept_invalid_cert"

abbrev pub typed_value : Field → Text
typed_value (new_host v) = v
typed_value (new_username v) = v
typed_value (new_password v) = v
typed_value (new_port typed n) = typed
typed_value (new_accept typed b) = typed

abbrev pub value_of : Field → Value
value_of (new_host v) = string v
value_of (new_username v) = string v
value_of (new_password v) = string v
value_of (new_port typed n) = integer (pos n)
value_of (new_accept typed b) = boolean b

-- What is typed stands for the value, and a port is one of a socket.
abbrev pub IsValid : Outside → Field → Type 0
IsValid o (new_port typed n) = (o.parse_i64 typed ≡ some (pos n)) × (n < 2 ^ 16)
IsValid o (new_accept typed b) = o.parse_bool typed ≡ ok b
IsValid o _ = Unit

abbrev pub IsValidEdit : Outside → Edit → Type 0
IsValidEdit o (change name field) = IsValid o field
IsValidEdit o _ = Unit

abbrev pub command_for : Edit → ServerCommand
command_for (insert name host port username password) = add name host port username password
command_for (delete name) = remove name
command_for (retitle old new) = rename old new
command_for (change name field) =
    config (some name) (some (key_of field)) (some (typed_value field))

-- The tables are read as the servers, in order.
abbrev pub Reads :
    {Table : Type 0} → (Table → Option ServerConfig) → List Table → List ServerConfig → Type 0
Reads reads [] [] = Unit
Reads reads (t ∷ ts) (s ∷ ss) = (reads t ≡ some s) × Reads reads ts ss
Reads reads _ _ = ⊥

-- What the TOML library promises. `reads` is the server that serde makes of a table.
pub record IsToml {Doc Table : Type 0} (toml : Toml Doc Table) (o : Outside)
    (reads : Table → Option ServerConfig) : Type 0 where
  pub parse-to_string : (d : Doc) → toml.parse (toml.to_string d) ≡ ok d
  pub reads-to_table :
      (s : ServerConfig) → (t : Table) × (toml.to_table s ≡ some t) × (reads t ≡ some s)
  pub reads_name :
      (t : Table) (s : ServerConfig) → reads t ≡ some s → toml.name_field t ≡ some s.name
  pub reads-set_name :
      (t : Table) (s : ServerConfig) (name : Text)
      → reads t ≡ some s
      → reads (toml.set_field t (text "name") (string name)) ≡ some (with_name name s)
  pub reads-set_field :
      (t : Table) (s : ServerConfig) (f : Field)
      → IsValid o f
      → reads t ≡ some s
      → reads (toml.set_field t (key_of f) (value_of f)) ≡ some (with_field f s)
  pub reads_servers :
      (d : Doc) (c : Config) (ts : List Table)
      → toml.from_document d ≡ ok c
      → toml.servers d ≡ some ts
      → Reads reads ts (saved c)
  pub reads-set_servers :
      (d : Doc) (c : Config) (ts : List Table) (ss : List ServerConfig)
      → toml.from_document d ≡ ok c
      → Reads reads ts ss
      → (e : Config) × (toml.from_document (toml.set_servers d ts) ≡ ok e) × (saved e ≡ ss)
  pub or_insert_there :
      (d : Doc) (ts : List Table) → toml.servers d ≡ some ts → toml.or_insert_servers d ≡ d

-- The text is a document whose servers are those of the list.
abbrev pub Holds : {Doc Table : Type 0} → Toml Doc Table → Text → List ServerConfig → Type 0
Holds {Doc} toml content ss =
    (d : Doc) × (c : Config) × (toml.parse content ≡ ok d)
    × (toml.from_document d ≡ ok c)
    × (saved c ≡ ss)
