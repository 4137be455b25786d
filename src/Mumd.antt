-- ===== src/Mumd.antt =====
-- mum/src/bin/mumd.rs: a connection of the daemon's socket (`receive_commands`), and the look for
-- another instance with which `main` begins.
pub mod Instances
use mum.Common.{
  ℕ, suc, ◌==◌, Bool, true, false, Option, none, some, List, [], ◌∷◌, push, if◌then◌else◌, ok,
  Outcome, done, panic, ◌>>=◌,
}
use mum.Mumlib.Command.{Command, CommandResponse, Response}
use mum.State.Core.{Env}
use mum.Commands.{Loop, handle}

abbrev pub Bytes : Type 0
Bytes = List ℕ

-- The codec of the messages.
pub record Bincode : Type 0 where
  pub serialize_command : Command → Bytes
  pub deserialize_command : Bytes → Option Command
  pub serialize_response : Response → Bytes
  pub deserialize_response : Bytes → Option Response

-- The frames that have been written, how often that has been tried, and which tries succeed.
pub record Connection : Type 0 where
  pub written : List Bytes
  pub attempts : ℕ
  pub accepts : ℕ → Bool

-- What has been sent to a client, in order.
unfoldable pub answers_to : ℕ → List (ℕ × Response) → List Response
answers_to client [] = []
answers_to client ((k, r) ∷ rest) =
    let others = answers_to client rest in if k == client then r ∷ others else others

-- The loop over the answers to one command; it ends early when one cannot be written.
unfoldable pub write_each : Bincode → List Response → Connection → Connection
write_each codec [] c = c
write_each codec (r ∷ rs) c =
    let rest = write_each codec rs (record c {
      written = push c.written (codec.serialize_response r);
      attempts = suc c.attempts;
    }) in
    if c.accepts c.attempts then rest else record c { attempts = suc c.attempts }

-- `until_dropped` is what the daemon does until nothing holds the sender of a client any more.
module _ (env : Env) (codec : Bincode) (until_dropped : ℕ → Loop → Outcome Loop) where
  unfoldable pub serve_command : Loop → ℕ → Command → Connection → Outcome (Loop × Connection)
  unfolding answers_to write_each
  serve_command l client command c = do
    m ← handle env l client command
    n ← until_dropped client m
    done (n, write_each codec (answers_to client n.world.sent) c)

  -- The frames of a connection in turn; one that is broken or is no command is skipped. A command
  -- gets a sender of its own. The loop that takes commands outlives the connection.
  unfoldable pub serve : Loop → ℕ → List (Option Bytes) → Connection → Outcome (Loop × Connection)
  unfolding serve_command
  serve l client [] c = done (l, c)
  serve l client (none ∷ frames) c = serve l client frames c
  serve l client (some buf ∷ frames) c = elim (codec.deserialize_command buf) [
    | none ↦ serve l client frames c
    | some command ↦ do (m, d) ← serve_command l client command c; serve m (suc client) frames d
  ]

-- What `main` finds at the path of the socket. A stream has a frame that answers the ping, if that
-- could be sent and one came, which may be broken.
pub data Found : Type 0 where
  stream : Bool → Option (Option Bytes) → Found
  refused unreachable : Found

-- Whether the socket has been removed is told by `starts`.
pub data Launch : Type 0 where
  already_running : Launch
  starts : Bool → Launch

abbrev pub is_pong : Option Response → Bool
is_pong (some (ok (some CommandResponse.pong))) = true
is_pong _ = false

-- `remove_file(SOCKET_PATH).await.unwrap()`.
abbrev pub remove_socket : Bool → Outcome Launch
remove_socket removable = if removable then done (starts true) else panic

unfoldable pub launch : Bincode → Bool → Found → Outcome Launch
launch codec removable (stream true (some (some buf))) =
    if is_pong (codec.deserialize_response buf)
    then done already_running
    else remove_socket removable
launch codec removable (stream sent reply) = remove_socket removable
launch codec removable refused = remove_socket removable
launch codec removable unreachable = done (starts false)
