-- ===== src/Server/Routine/Cancelled.antt =====
-- Src/Server.cpp: what a client is told when the server shuts down.
use roki_mb_daemon.Base.{ℕ, ◌≡◌, ◌≢◌, refl, ap, ◌∙◌, List, ◌++◌, arith, length, str}
use mathlib.Core.List.{append_assoc}
use roki_mb_daemon.Memory.{write}
use roki_mb_daemon.Memory.Laws.{Holds-write}
use roki_mb_daemon.Streams.{Network, Healthy}
use roki_mb_daemon.Rpc.{Provider}
use roki_mb_daemon.Rpc.Send.{packed, pack_error_lem, send_package_lem, max_text-ge}
use roki_mb_daemon.Sockets.{Kernel, DescriptorWrapper, Connection, ServerSocket}
use roki_mb_daemon.Server.{Session, Server, on_provider}
use roki_mb_daemon.Server.Rounds.{IsReady}
use roki_mb_daemon.Server.Routine.{
  Thread, unwound, CancelPoint, receiving, dispatching, sending, reporting, serving_on, hang_up,
  resumed, farewell, after_farewell, cancel_serving,
}

-- The text of the last package.
abbrev pub closed : List ℕ
closed = str "Server closed"

length-closed : length closed ≡ 13
unfolding str
length-closed = refl

module _ {H W : Type 0} (kernel : Kernel W) (conn_of : DescriptorWrapper → Network W)
    (garbage : ℕ → ℕ) (server : Server H W) (conn : Connection) (socket : ServerSocket) (id : ℕ)
    (s : Session H W) (t : Thread H W) where
  -- A thread that is cancelled while it waits for a package, or while it sends one, puts no more on the
  -- connection: its client only finds it closed.
  pub idle_untold :
      (place : CancelPoint)
      → place ≢ dispatching
      → cancel_serving kernel conn_of garbage server place conn socket id s t ≡ (
        unwound,
        hang_up kernel conn_of garbage server conn socket id
            (resumed kernel conn_of garbage server s t),
      )
  unfolding cancel_serving farewell after_farewell
  idle_untold receiving n = refl
  idle_untold sending n = refl
  idle_untold reporting n = refl
  idle_untold dispatching n = absurd (n refl)

  -- A thread that is cancelled in a procedure, on a healthy connection in its usual state, puts the
  -- error "Server closed" on it, twice, before it closes it.
  pub busy_told :
      (healthy : Healthy (conn_of conn.fd))
      → IsReady (serving_on kernel conn_of garbage server conn.fd) healthy s
      → (u : Session H W) × (cancel_serving kernel conn_of garbage server dispatching conn socket id
            s t
          ≡ (
            unwound,
            hang_up kernel conn_of garbage server conn socket id
                (resumed kernel conn_of garbage server u t),
          ))
        × (healthy.sent u.provider.network
            ≡ healthy.sent s.provider.network ++ (packed 0 closed ++ packed 0 closed))
        × (u.handler ≡ s.handler)
  unfolding cancel_serving farewell after_farewell on_provider
  busy_told healthy ready =
      let p : Provider W = s.provider in
      let (k, went, order_, quiet) =
        pack_error_lem (conn_of conn.fd) healthy closed p (omega (arith, length-closed))
          ready.full in
      let q : Provider W = record p {
        network = k;
        buffer = record p.buffer { cells = write p.buffer.cells 0 (packed p.err_code closed) };
      } in
      let (k', went', order', quiet') =
        send_package_lem (conn_of conn.fd) healthy server.char_signed p.err_code closed q
          (omega (arith, length-closed, max_text-ge server.char_signed)) ready.full
          (Holds-write p.buffer.cells 0 (packed p.err_code closed)) in
      (
        record s { provider = record q { network = k' } },
        rw (went, went') refl,
        order'
            ∙ ap (λ b. b ++ packed p.err_code closed) order_
            ∙ append_assoc (healthy.sent p.network) (packed p.err_code closed)
                (packed p.err_code closed)
            ∙ ap (λ c. healthy.sent p.network ++ (packed c closed ++ packed c closed)) ready.code,
        refl,
      )
