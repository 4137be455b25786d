-- ===== src/Tests/Terminals.antt =====
-- The controller at a terminal with one saved server.
use mathlib.Core.Path.{subst, ap₂}
use mum.Common.{
  ◌≡◌, refl, sym, ap, ◌∙◌, pos, Text, text, text_eq, false, Option, some, none, List, [], ◌∷◌, find,
  done, panic, Result, ok, err, if◌then◌else◌, arith,
}
use mum.Mumlib.Config.{Config, ServerConfig}
use mum.Mumlib.Tree
use mum.Mumlib.Tree.{User, Channel, Channels}
use mum.Mumlib.Iter.Preorder.{preorder}
use mum.Controller.Cli.{Terminal, Toml, Outside, Value, string, integer, boolean}
use mum.Controller.Cli.Keeps.{KeepsIn}
use mum.Controller.Servers.{
  saved, key_from, Key, name_key, host_key, port_key, username_key, password_key, accept_key,
  match_server_command,
}
use mum.Controller.Servers.Spec.{
  Edit, change, Field, new_host, new_username, new_password, new_port, new_accept, IsToml, Reads,
  with_name, with_field, key_of, value_of, command_for, edited,
}
use mum.Controller.Servers.Spec.Refines.{Does, match_server_command-edited}
use mum.Controller.Options.{ConnectArgs, main, status}
use mum.Controller.Options.Connect.{full_server}
use mum.Mumlib.Error.{server_cert_reject}
use mum.Mumlib.Command.{Command}
use mum.Controller.Options.Keeps.{main-Keeps}
use mum.Controller.Show.{parse_state, has_user}
use mum.Controller.Show.Lines.{parse_state-lines, lines_of, with_lines}
use mum.Tests.Codes.{server, several}

abbrev home : ServerConfig
home = record {
  name = text "home";
  host = text "example.org";
  port = none;
  username = some (text "ann");
  password = none;
  accept_invalid_cert = none;
}

abbrev servers : List ServerConfig
servers = home ∷ []

abbrev config_with : List ServerConfig → Config
config_with ss = record { allow_invalid_server_cert = none; audio = none; servers = some ss }

-- A document is its list of servers, and a table a server.
abbrev set_field : ServerConfig → Key → Value → ServerConfig
set_field s name_key (string v) = record s { name = v }
set_field s host_key (string v) = record s { host = v }
set_field s username_key (string v) = record s { username = some v }
set_field s password_key (string v) = record s { password = some v }
set_field s port_key (integer (pos n)) = record s { port = some n }
set_field s accept_key (boolean b) = record s { accept_invalid_cert = some b }
set_field s key v = s

abbrev read_document : Option (List ServerConfig × Text) → Result (List ServerConfig) Text
read_document none = err []
read_document (some (ss, rest)) = ok ss

abbrev toml : Toml (List ServerConfig) ServerConfig
toml = record {
  parse = λ t. read_document ((several server).decode t);
  to_string = λ d. (several server).encode d [];
  from_document = λ d. ok (config_with d);
  servers = λ d. some d;
  set_servers = λ d ts. ts;
  or_insert_servers = λ d. d;
  set_field = λ s key v. set_field s (key_from key) v;
  name_field = λ s. some s.name;
  to_table = λ s. some s;
  set_key = λ d key v. d;
  set_audio = λ d key v. d;
}

abbrev outside : Outside
outside = record {
  config_path = text "/home/ann/mumdrc";
  serialize = λ c. [];
  deserialize_from = λ bytes. none;
  exchange = λ before bytes. some (0 ∷ []);
  typed = none;
  write_error = none;
  parse_f64 = λ t. none;
  as_f32 = λ n. n;
  parse_i64 = λ t. if text_eq t (text "4242") then some (pos 4242) else none;
  parse_bool = λ t. err [];
  error_label = text "error: ";
  warning_label = text "warning: ";
  bold = λ t. t;
  format_time = λ n. [];
  format_event_time = λ n. [];
}

abbrev terminal : Terminal
terminal = record { file = some []; printed = []; errors = []; sent = [] }

with_field-some :
    (f : Field) (t : ServerConfig) → set_field t (key_from (key_of f)) (value_of f) ≡ with_field f t
with_field-some (new_host v) t = refl
with_field-some (new_username v) t = refl
with_field-some (new_password v) t = refl
with_field-some (new_port typed n) t = refl
with_field-some (new_accept typed b) t = refl

some-injective : {A : Type 0} {a b : A} → some a ≡ some b → a ≡ b
some-injective h = cc

set_field-with_field :
    (t s : ServerConfig) (f : Field)
    → some t ≡ some s
    → some (set_field t (key_from (key_of f)) (value_of f)) ≡ some (with_field f s)
set_field-with_field t s f h = ap some (with_field-some f t ∙ ap (with_field f) (some-injective h))

all_read : (ts ss : List ServerConfig) → Reads (λ s. some s) ts ss → ts ≡ ss
all_read [] [] r = refl
all_read (t ∷ ts) (s ∷ ss) r = ap₂ ◌∷◌ (some-injective r.0) (all_read ts ss r.1)
all_read [] (s ∷ ss) r = absurd r
all_read (t ∷ ts) [] r = absurd r

all_same : (ts : List ServerConfig) → Reads (λ s. some s) ts ts
all_same [] = tt
all_same (t ∷ ts) = (refl, all_same ts)

abbrev saved_of : Result Config Text → List ServerConfig
saved_of (ok c) = saved c
saved_of (err e) = []

Reads-saved :
    (d : List ServerConfig) (c : Config) (ts : List ServerConfig)
    → toml.from_document d ≡ ok c
    → toml.servers d ≡ some ts
    → Reads (λ s. some s) ts (saved c)
Reads-saved d c ts h k =
    let same : saved c ≡ ts = sym (ap saved_of h) ∙ some-injective k in
    subst (Reads (λ s. some s) ts) (sym same) (all_same ts)

toml-IsToml : IsToml toml outside (λ s. some s)
toml-IsToml = record {
  parse-to_string = λ d. rw ((several server).decode-encode d []) refl;
  reads-to_table = λ s. (s, refl, refl);
  reads_name = λ t s h. ap (λ o. elim o [ none ↦ none | some s ↦ some s.name ]) h;
  reads-set_name =
      λ t s name h. ap (λ o. elim o [ none ↦ none | some s ↦ some (with_name name s) ]) h;
  reads-set_field = λ t s f fits h. set_field-with_field t s f h;
  reads_servers = λ d c ts h k. Reads-saved d c ts h k;
  reads-set_servers = λ d c ts ss h r. (config_with ts, refl, all_read ts ss r);
  or_insert_there = λ d ts h. refl;
}

-- A new port for the saved server.
abbrev new_port_of_home : Edit
new_port_of_home = change (text "home") (new_port (text "4242") 4242)

match_server_command-edited_example : Does toml outside terminal (edited new_port_of_home servers) (
    match_server_command toml outside
      (command_for new_port_of_home)
      (config_with servers)
      servers
      terminal)
match_server_command-edited_example =
    match_server_command-edited toml outside (λ s. some s) toml-IsToml refl new_port_of_home servers
      (config_with servers) servers terminal [] (refl, omega arith) refl refl refl

abbrev full : ServerConfig
full = full_server (text "home") (text "example.org") 4000 (text "ann") (text "secret") false

-- The command line gives another port and another name.
abbrev connect_home : ConnectArgs
connect_home = record {
  host = text "home";
  username = some (text "bob");
  password = none;
  port = some 1234;
  accept_invalid_cert = false;
}

-- A daemon that refuses the certificate.
abbrev refusing : Outside
refusing = record outside {
  deserialize_from = λ bytes. some (err server_cert_reject, []);
  exchange = λ before bytes. some (0 ∷ 0 ∷ 0 ∷ 0 ∷ []);
}

abbrev asks_home : Command
asks_home = Command.server_connect (record {
  host = text "example.org";
  port = 4000;
  username = text "ann";
  password = some (text "secret");
  accept_invalid_cert = false;
})

main-Keeps_example : KeepsIn terminal (main outside toml status terminal)
main-Keeps_example = main-Keeps outside toml status terminal λ h. h

abbrev own : User
own = record {
  comment = none;
  hash = none;
  name = text "ann";
  priority_speaker = false;
  recording = false;
  suppress = false;
  self_mute = false;
  self_deaf = false;
  mute = false;
  deaf = false;
}

abbrev here : Channel
here = Tree.channel none 0 (text "Root") Channels.nil (own ∷ []) []

abbrev shown : Tree.Server
shown = record {
  channels = here;
  welcome_text = none;
  username = text "ann";
  host = text "example.org:64738";
}

parse_state-lines_example :
    ((c : Channel)
      → find (has_user (text "ann")) (preorder here) ≡ some c
      → parse_state shown terminal ≡ done (with_lines terminal (lines_of shown c), ok tt))
    × (find (has_user (text "ann")) (preorder here) ≡ none → parse_state shown terminal ≡ panic)
parse_state-lines_example = parse_state-lines shown terminal
