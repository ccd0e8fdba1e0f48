-- ===== src/Client/Factory.antt =====
-- Src/Client.cpp: `Factory`, which asks the server for a port and connects to it.
use roki_mb_daemon.Base.{ℕ, false, Outcome, ok, throw, fault, hang, ◌>>=◌, Exec, resume, then_do}
use roki_mb_daemon.Streams.{Network}
use roki_mb_daemon.Sockets.{
  Kernel, DescriptorWrapper, destroy, Connection, ClientSocket, client_socket, connect_socket,
}
use roki_mb_daemon.Server.Hello.{hello_recv}

pub record Factory : Type 0 where
  pub socket : ClientSocket
  pub in_addr : ℕ

module _ {W : Type 0} (kernel : Kernel W) (conn_of : DescriptorWrapper → Network W) where
  -- The constructor.
  unfoldable pub factory : ℕ → ℕ → Outcome Factory
  factory addr port = do
    socket ← client_socket kernel addr port
    ok (record { socket = socket; in_addr = addr })

  -- The end of a scope that owns `d`, by a return or by an exception.
  unfoldable pub leave_scope : {A : Type 0} → DescriptorWrapper → Outcome A × W → Outcome A × W
  leave_scope d (ok a, w) = (ok a, destroy kernel d w)
  leave_scope d (throw e, w) = (throw e, destroy kernel d w)
  leave_scope d (fault, w) = (fault, w)
  leave_scope d (hang, w) = (hang, w)

  module _ (garbage : ℕ → ℕ) (f : Factory) where
    -- The connection to the port of the handler.
    unfoldable pub second : ℕ → Exec W Connection
    second port w =
        resume (client_socket kernel f.in_addr port) (λ s. connect_socket kernel s false) w

    -- `Connect`, by the connection that the client is made of.
    unfoldable pub factory_connect : Exec W Connection
    unfolding second leave_scope
    factory_connect =
        then_do (connect_socket kernel f.socket false)
          (λ conn w. leave_scope conn.fd (then_do (hello_recv (conn_of conn.fd) garbage) second w))
