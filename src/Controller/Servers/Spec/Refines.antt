-- ===== src/Controller/Servers/Spec/Refines.antt =====
-- The `server` commands do to the configuration file what they promise for the list of servers.
use mum.Common.{
  ℕ, ◌≡◌, inl, inr, refl, Text, Option, Option-cases, some, none, List, find, push, done, Result,
  ok, err,
}
use mum.Mumlib.Config.{Config, ServerConfig}
use mum.Controller.Cli.{Toml, Outside, Terminal, cli, CliError, maybe_write_config, write_file, Run}
use mum.Controller.Servers.{
  saved, named, server_add, server_remove, server_rename, server_config, match_server_command,
  set_key, write_field, key_from,
}
use mum.Controller.Servers.Spec.{
  Edit, insert, delete, retitle, change, Field, new_host, new_username, new_password, new_port,
  new_accept, edited, command_for, key_of, value_of, typed_value, with_field, new_server, IsValid,
  IsValidEdit, Reads, IsToml, Holds,
}
use mum.Controller.Servers.Spec.Tables.{Reads-push, update-Updated, delete-Removed, rename-Renamed}

module _ {Doc Table : Type 0} (toml : Toml Doc Table) (o : Outside) where
  -- The run wrote a configuration with these servers, and changed nothing else, or it changed nothing
  -- and failed with the error.
  abbrev pub Does : Terminal → Result (List ServerConfig) CliError → Run Unit → Type 0
  Does t (ok ss) m =
      (content : Text) × (m ≡ done (record t { file = some content }, ok tt))
      × Holds toml content ss
  Does t (err e) m = m ≡ done (t, err (cli e))

  module _ (reads : Table → Option ServerConfig) where
    writes-Does :
        IsToml toml o reads
        → o.write_error ≡ none
        → (d : Doc) (c : Config) (t : Terminal) (old : Text) (us : List Table)
          (vs : List ServerConfig)
        → t.file ≡ some old
        → toml.from_document d ≡ ok c
        → Reads reads us vs
        → Does t (ok vs) (maybe_write_config o (toml.to_string (toml.set_servers d us)) t)
    unfolding maybe_write_config write_file
    writes-Does l writable d c t old us vs there valid read =
        let (e, reread, same) = l.reads-set_servers d c us vs valid read in
        (
          toml.to_string (toml.set_servers d us),
          rw (there, writable) refl,
          (toml.set_servers d us, e, l.parse-to_string (toml.set_servers d us), reread, same),
        )

    remove-Does :
        IsToml toml o reads
        → o.write_error ≡ none
        → (name : Text) (d : Doc) (c : Config) (ts : List Table) (t : Terminal) (old : Text)
        → t.file ≡ some old
        → toml.from_document d ≡ ok c
        → toml.servers d ≡ some ts
        → Does t (edited (delete name) (saved c)) (server_remove toml o c d name t)
    unfolding edited server_remove
    remove-Does l writable name d c ts t old there valid array =
        elim (delete-Removed toml o reads name ts (saved c) (l.reads_servers d c ts valid array)) [
          | inl missing ↦ rw missing.1 (rw missing.0 refl)
          | inr (i, us, vs, at_i, removes, deletes, read) ↦
              rw deletes (
                rw (at_i, array, removes) (writes-Does l writable d c t old us vs there valid read))
        ]

    rename-Does :
        IsToml toml o reads
        → o.write_error ≡ none
        → (name new : Text) (d : Doc) (c : Config) (ts : List Table) (t : Terminal) (old : Text)
        → t.file ≡ some old
        → toml.from_document d ≡ ok c
        → toml.servers d ≡ some ts
        → Does t (edited (retitle name new) (saved c)) (server_rename toml o d name new t)
    unfolding edited server_rename
    rename-Does l writable name new d c ts t old there valid array =
        elim (rename-Renamed toml o reads name new l ts (saved c)
          (l.reads_servers d c ts valid array)) [
            | inl missing ↦ rw missing.0 (rw (array, missing.1 t) refl)
            | inr (us, vs, updates, renames, read) ↦
                rw updates
                  (rw (array, renames t) (writes-Does l writable d c t old us vs there valid read))
          ]

    add-Does :
        IsToml toml o reads
        → o.write_error ≡ none
        → (name host : Text) (port : Option ℕ) (username password : Option Text) (d : Doc)
          (c : Config) (ts : List Table) (t : Terminal) (old : Text)
        → t.file ≡ some old
        → toml.from_document d ≡ ok c
        → toml.servers d ≡ some ts
        → Does t
            (edited (insert name host port username password) (saved c))
            (server_add toml o c d (new_server name host port username password) t)
    unfolding edited server_add
    add-Does l writable name host port username password d c ts t old there valid array =
        let new = new_server name host port username password in
        let (table, tables, read) = l.reads-to_table new in
        elim (Option-cases (find (named name) (saved c))) [
          | inr (other, has) ↦ rw (Does, edited, server_add, has) refl
          | inl free ↦
              rw (Does, edited, server_add, free)
                (rw (l.or_insert_there d ts array, array, tables)
                  (writes-Does l writable d c t old (push ts table) (push (saved c) new) there valid
                    (Reads-push toml o reads ts (saved c) table new read
                      (l.reads_servers d c ts valid array))))
        ]

    -- A field that can be set is set through `write_field`.
    set_key-write_field :
        (f : Field) (d : Doc) (i : ℕ) (t : Terminal)
        → IsValid o f
        → set_key toml o d i (key_from (key_of f)) (key_of f) (typed_value f) t
          ≡ write_field toml o d i (key_of f) (value_of f) t
    unfolding set_key
    set_key-write_field (new_host v) d i t valid = refl
    set_key-write_field (new_username v) d i t valid = refl
    set_key-write_field (new_password v) d i t valid = refl
    set_key-write_field (new_port typed n) d i t valid = rw (set_key, valid.0) refl
    set_key-write_field (new_accept typed b) d i t valid = rw (set_key, valid) refl

    change-Does :
        IsToml toml o reads
        → o.write_error ≡ none
        → (name : Text) (f : Field) (d : Doc) (c : Config) (ts : List Table) (t : Terminal)
          (old : Text)
        → IsValid o f
        → t.file ≡ some old
        → toml.from_document d ≡ ok c
        → toml.servers d ≡ some ts
        → Does t
            (edited (change name f) (saved c))
            (server_config toml o c d (some name) (some (key_of f)) (some (typed_value f)) t)
    unfolding edited server_config write_field
    change-Does l writable name f d c ts t old fits there valid array =
        elim (update-Updated toml o reads name (key_of f) (value_of f) (with_field f)
          (λ u s. l.reads-set_field u s f fits) ts (saved c) (l.reads_servers d c ts valid array)) [
            | inl missing ↦ rw missing.1 (rw missing.0 refl)
            | inr (i, s, table, us, vs, finds, at_i, elem, sets, updates, read) ↦ rw updates (
                rw (finds, at_i, array, elem, set_key-write_field f d i t fits, array, sets)
                  (writes-Does l writable d c t old us vs there valid read))
          ]

    -- If the configuration file is there and can be written, its document is a valid configuration
    -- and has its servers as an array of tables, then adding, removing, renaming and setting a field
    -- of a server, with a port below 2 ^ 16 and other values that are read as typed, write a file that is read as the servers after that
    -- operation on the list, or, where the list has no such operation, fail with its error and
    -- change nothing.
    pub match_server_command-edited :
        IsToml toml o reads
        → o.write_error ≡ none
        → (e : Edit) (d : Doc) (c : Config) (ts : List Table) (t : Terminal) (old : Text)
        → IsValidEdit o e
        → t.file ≡ some old
        → toml.from_document d ≡ ok c
        → toml.servers d ≡ some ts
        → Does t (edited e (saved c)) (match_server_command toml o (command_for e) c d t)
    unfolding match_server_command
    match_server_command-edited l writable (insert name host port username password) d c ts t old
          fits there valid array =
        add-Does l writable name host port username password d c ts t old there valid array
    match_server_command-edited l writable (delete name) d c ts t old fits there valid array =
        remove-Does l writable name d c ts t old there valid array
    match_server_command-edited l writable (retitle name new) d c ts t old fits there valid array =
        rename-Does l writable name new d c ts t old there valid array
    match_server_command-edited l writable (change name f) d c ts t old fits there valid array =
        change-Does l writable name f d c ts t old fits there valid array
