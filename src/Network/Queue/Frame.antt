-- ===== src/Network/Queue/Frame.antt =====
-- Firing an event answers clients and changes nothing of the daemon.
use mum.Common.{
  ℕ, ◌≡◌, inl, inr, Bool, true, false, get_or, List, [], ◌∷◌, push, if◌then◌else◌, Bool-cases,
  WhenDone, WhenDone->>=, WhenDone-any,
}
use mum.Common.Dict.{get, insert}
use mum.Mumlib.Command.{Response}
use mum.State.Core.{Daemon, Env}
use mum.State.Handle.Connect.{TcpEventData, run_callback, run_subscriber}
use mum.Network.Queue.{
  Registered, Subscribed, TcpEventQueue, World, send_all, run_registered, each_callback,
  each_subscriber, resolve,
}

module _ (d : Daemon) where
  abbrev pub HasDaemon : World → Type 0
  HasDaemon w = w.daemon ≡ d

  send_all-HasDaemon :
      (w : World) (client : ℕ) (rs : List Response)
      → HasDaemon w
      → WhenDone HasDaemon (send_all w client rs)
  unfolding send_all
  send_all-HasDaemon w client [] h = h
  send_all-HasDaemon w client (r ∷ rs) h = elim (Bool-cases (w.listening client)) [
    | inl e ↦ rw e (send_all-HasDaemon (record w { sent = push w.sent (client, r) }) client rs h)
    | inr e ↦ rw e tt
  ]

  run_registered-HasDaemon :
      (c : Registered) (fired : TcpEventData) (w : World)
      → HasDaemon w
      → WhenDone HasDaemon (run_registered c fired w)
  unfolding run_registered
  run_registered-HasDaemon c fired w h = elim (Bool-cases (get_or (get w.flags c.group) false)) [
    | inl e ↦ rw e (
        WhenDone-any HasDaemon (run_callback w.daemon.state c.generator fired) _ (λ rs.
          send_all-HasDaemon (record w { flags = insert w.flags c.group false }) c.client rs h))
    | inr e ↦ rw e h
  ]

  each_callback-HasDaemon :
      (cs : List Registered) (fired : TcpEventData) (w : World)
      → HasDaemon w
      → WhenDone HasDaemon (each_callback cs fired w)
  unfolding each_callback
  each_callback-HasDaemon [] fired w h = h
  each_callback-HasDaemon (c ∷ cs) fired w h =
      WhenDone->>= HasDaemon HasDaemon (run_registered c fired w) _
        (run_registered-HasDaemon c fired w h) (λ v k. each_callback-HasDaemon cs fired v k)

  abbrev SubsHaveDaemon : List Subscribed × World → Type 0
  SubsHaveDaemon r = HasDaemon r.1

  sent_or_not :
      (open_ : Bool) (w v : World) → HasDaemon w → HasDaemon v → HasDaemon (if open_ then v else w)
  sent_or_not true w v h k = k
  sent_or_not false w v h k = h

  each_subscriber-HasDaemon :
      (env : Env) (ss : List Subscribed) (fired : TcpEventData) (w : World)
      → HasDaemon w
      → WhenDone SubsHaveDaemon (each_subscriber env ss fired w)
  unfolding each_subscriber
  each_subscriber-HasDaemon env [] fired w h = h
  each_subscriber-HasDaemon env (s ∷ ss) fired w h =
      WhenDone-any SubsHaveDaemon (run_subscriber env w.daemon.state s.handler fired) _ (λ response.
        WhenDone->>= SubsHaveDaemon SubsHaveDaemon _ _
          (each_subscriber-HasDaemon env ss fired
            (if w.listening s.client
              then record w { sent = push w.sent (s.client, response) }
              else w)
            (sent_or_not (w.listening s.client) w
              (record w { sent = push w.sent (s.client, response) }) h h))
          (λ r k. k))

  -- The same for a whole event.
  pub resolve-HasDaemon :
      (env : Env) (q : TcpEventQueue) (fired : TcpEventData) (w : World)
      → HasDaemon w
      → WhenDone (λ r. HasDaemon r.1) (resolve env q fired w)
  unfolding resolve
  resolve-HasDaemon env q fired w h =
      WhenDone->>= HasDaemon (λ r. HasDaemon r.1) _ _ (each_callback-HasDaemon _ fired w h)
        (λ v k.
          WhenDone->>= SubsHaveDaemon (λ r. HasDaemon r.1) _ _
            (each_subscriber-HasDaemon env _ fired v k) (λ r j. j))
