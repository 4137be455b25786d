-- ===== src/Mumd/Instances.antt =====
-- A second daemon finds the first.
use mum.Common.{
  ℕ, suc, ◌==◌, ==_refl, ◌≡◌, refl, true, Bool, Bool-cases, inl, inr, some, List, [], ◌∷◌, ◌++◌,
  push, ok, Outcome, done,
}
use mum.Mumlib.Command.{Command, CommandResponse, Response}
use mum.State.Core.{Env}
use mum.State.Handle.All.{handle_command}
use mum.Network.Queue.{send_all}
use mum.Commands.{Loop, handle, arrange}
use mum.Mumd.{
  Bincode, Bytes, Connection, answers_to, write_each, serve, serve_command, launch, stream,
  already_running,
}

answers_to-push :
    (client : ℕ) (sent : List (ℕ × Response)) (r : Response)
    → answers_to client (sent ++ (client, r) ∷ []) ≡ answers_to client sent ++ r ∷ []
unfolding answers_to
answers_to-push client [] r = rw (==_refl client) refl
answers_to-push client ((k, s) ∷ rest) r = elim (Bool-cases (k == client)) [
  | inl e ↦ rw (e, answers_to-push client rest r) refl
  | inr e ↦ rw (e, answers_to-push client rest r) refl
]

abbrev pub pong : Response
pong = ok (some CommandResponse.pong)

-- If the messages are read back as they were written, nothing has been sent to the client before,
-- nothing but the turn of the loop holds its sender, and the answer can be written, a connection on
-- which a starting daemon pings is answered by one frame, the daemon that runs stays as it is, and
-- the one that starts takes that frame as a sign to give up.
pub serve-launch :
    (env : Env) (codec : Bincode) (until_dropped : ℕ → Loop → Outcome Loop) (l : Loop) (client : ℕ)
    (c : Connection) (removable : Bool)
    → codec.deserialize_command (codec.serialize_command Command.ping) ≡ some Command.ping
    → codec.deserialize_response (codec.serialize_response pong) ≡ some pong
    → answers_to client l.world.sent ≡ []
    → l.world.listening client ≡ true
    → ((m : Loop) → m.queue ≡ l.queue → m.pings ≡ l.pings → until_dropped client m ≡ done m)
    → c.accepts c.attempts ≡ true
    → (m : Loop) × (d : Connection) × (buf : Bytes) × (serve env codec until_dropped l client
          (some (codec.serialize_command Command.ping) ∷ [])
          c
        ≡ done (m, d))
      × (m.world.daemon ≡ l.world.daemon)
      × (d.written ≡ push c.written buf)
      × (launch codec removable (stream true (some (some buf))) ≡ done already_running)
unfolding serve serve_command write_each handle handle_command arrange send_all launch
serve-launch env codec until_dropped l client c removable command back fresh on ends accepts =
    let m : Loop = record l {
      world = record (l.world) { sent = push l.world.sent (client, pong) };
    } in
    (
      m,
      record c {
        written = push c.written (codec.serialize_response pong);
        attempts = suc c.attempts;
      },
      codec.serialize_response pong,
      rw
          (
            serve,
            command,
            on,
            ends m refl refl,
            answers_to-push client l.world.sent pong,
            fresh,
            accepts,
          )
          refl,
      refl,
      refl,
      rw back refl,
    )
