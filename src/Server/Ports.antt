-- ===== src/Server/Ports.antt =====
-- Src/Server.cpp: `CreateHandlerSocket`, which looks for a port that is free, for the thread of a new
-- connection.
use roki_mb_daemon.Base.{
  ℕ, zero, suc, ◌+◌, ◌%◌, ◌^◌, ◌<◌, ◌≡◌, refl, sym, ◌∙◌, List, ◌∷◌, some, Exception, Outcome, ok,
  throw, fault, hang, Exec, arith, subst,
}
use roki_mb_daemon.Sockets.{Kernel, ServerSocket, wrap, server_socket, ip_to_string}
use roki_mb_daemon.Sockets.Port.{OnPort, server_socket-OnPort}
use roki_mb_daemon.Sockets.Descriptors.{Accounts, Owned, server_socket-Owned}

-- `StartingPort`.
abbrev pub starting_port : ℕ
starting_port = 8080

-- `CurrentPort++` of a `size_t`.
unfoldable pub next_port : ℕ → ℕ
next_port port = (port + 1) % 2 ^ 64

-- `CurrentPort`, and the world that the system calls act on.
pub record Ports (W : Type 0) : Type 0 where
  pub current_port : ℕ
  pub world : W

module _ {W : Type 0} (kernel : Kernel W) (sleep : W → W) where
  -- The socket on `INADDR_ANY` with room for one client.
  abbrev pub handler_socket : ℕ → Exec W ServerSocket
  handler_socket port = server_socket kernel 0 port 1

  -- The `try` and its `catch`: what is thrown is logged and forgotten.
  caught :
      Exec (Ports W) ServerSocket → ℕ → Outcome ServerSocket × W → Outcome ServerSocket × Ports W
  caught again port (ok s, w) = (ok s, record { current_port = port; world = w })
  caught again port (throw e, w) = again (record { current_port = port; world = sleep w })
  caught again port (fault, w) = (fault, record { current_port = port; world = w })
  caught again port (hang, w) = (hang, record { current_port = port; world = w })

  -- `CreateHandlerSocket`, for at most `fuel` attempts.
  unfoldable pub create_handler_socket : ℕ → Exec (Ports W) ServerSocket
  unfolding caught next_port
  create_handler_socket zero s = (hang, s)
  create_handler_socket (suc fuel) s =
      let port = next_port s.current_port in
      caught (create_handler_socket fuel) port (handler_socket port s.world)

  -- So many attempts in a row throw, on the ports after `port`; the worlds before and after them.
  abbrev pub Tried : ℕ → ℕ → W → W → Type 0
  Tried zero port w w' = w ≡ w'
  Tried (suc k) port w w' =
      (e : Exception) × (v : W) × (handler_socket (port + 1) w ≡ (throw e, v))
      × Tried k (port + 1) (sleep v) w'

  -- After any number of ports that cannot be opened, `CreateHandlerSocket` returns the socket of the
  -- next one that can, with an attempt for each and no port passed over.
  pub create-first :
      (fuel k port : ℕ) (w w' w'' : W) (socket : ServerSocket)
      → Tried k port w w'
      → handler_socket (port + k + 1) w' ≡ (ok socket, w'')
      → k < fuel
      → port + k + 1 < 2 ^ 64
      → create_handler_socket fuel (record { current_port = port; world = w })
        ≡ (ok socket, record { current_port = port + k + 1; world = w'' })
  unfolding create_handler_socket caught next_port
  create-first zero k port w w' w'' socket tried opens enough fits = absurd (omega arith)
  create-first (suc fuel) zero port w w' w'' socket tried opens enough fits =
      let small : (port + 1) % 2 ^ 64 ≡ port + 1 = omega arith in
      let flat : port + zero + 1 ≡ port + 1 = omega arith in
      let here : handler_socket (port + 1) w ≡ (ok socket, w'') = rw (tried, sym flat) opens in
      rw (small, here, flat) refl
  create-first (suc fuel) (suc k) port w w' w'' socket (e, v, here, tried) opens enough fits =
      let small : (port + 1) % 2 ^ 64 ≡ port + 1 = omega arith in
      let later : port + suc k + 1 ≡ port + 1 + k + 1 = omega arith in
      rw (small, here, later)
        (create-first fuel k (port + 1) (sleep v) w' w'' socket tried
          (subst (λ p. handler_socket p w' ≡ (ok socket, w'')) later opens) (omega arith)
          (omega arith))

  module _ (held : W → List ℕ) (accounts : Accounts kernel held) where
    -- What the loop leaves: a socket that owns the one new descriptor, on the port that the counter
    -- shows, or, where no attempt is left, the descriptors of the start.
    abbrev pub Found : List ℕ → Outcome ServerSocket × Ports W → Type 0
    Found fds (ok socket, s) =
        (fd : ℕ) × (socket.sock_fd ≡ wrap (some fd))
        × (held s.world ≡ fd ∷ fds)
        × (socket.server_port ≡ s.current_port % 2 ^ 16)
    Found fds (throw e, s) = ⊥
    Found fds (fault, s) = ⊥
    Found fds (hang, s) = held s.world ≡ fds

    after :
        (again : Exec (Ports W) ServerSocket) (port : ℕ) (fds : List ℕ)
        (r : Outcome ServerSocket × W)
        → Owned held (λ s. s.sock_fd) fds r
        → OnPort port r.0
        → ((w : W)
            → held w ≡ fds
            → Found fds (again (record { current_port = port; world = sleep w })))
        → Found fds (caught again port r)
    unfolding caught
    after again port fds (ok s, w) (fd, owner, more) on step = (fd, owner, more, on)
    after again port fds (throw e, w) h on step = step w h
    after again port fds (fault, w) h on step = h
    after again port fds (hang, w) h on step = absurd h

    -- For any number of attempts, `CreateHandlerSocket` returns a socket that owns the one new descriptor,
    -- and that remembers the low 16 bits of the counter as its port, or the attempts run out with as many
    -- descriptors open as at first. It throws nothing. `INADDR_ANY` can be printed, and sleeping opens and
    -- closes nothing.
    pub create-Found :
        (text : List ℕ) (fuel : ℕ) (s : Ports W)
        → ip_to_string kernel 0 ≡ ok text
        → ((w : W) → held (sleep w) ≡ held w)
        → Found (held s.world) (create_handler_socket fuel s)
    unfolding create_handler_socket caught
    create-Found text zero s q rests = refl
    create-Found text (suc fuel) s q rests =
        let port = next_port s.current_port in
        after (create_handler_socket fuel) port (held s.world)
          (server_socket kernel 0 port 1 s.world)
          (server_socket-Owned held kernel accounts 0 port 1 text s.world q)
          (server_socket-OnPort kernel 0 port 1 s.world)
          (λ w h.
            let t : Ports W = record { current_port = port; world = sleep w } in
            subst (λ fds. Found fds (create_handler_socket fuel t)) (rests w ∙ h)
              (create-Found text fuel t q rests))
