-- ===== src/Server/Dispatch/Descriptors.antt =====
-- Src/Server.cpp: which descriptors a round of `DispatchRoutine` leaves open, and who owns them.
use roki_mb_daemon.Base.{
  ℕ, zero, suc, ◌+◌, ◌-◌, ◌%◌, ◌^◌, ◌≡◌, refl, ◌∙◌, ap, subst, ◌⊎◌, inl, inr, false, List, [], ◌∷◌,
  ◌++◌, Option, none, some, Outcome, ok, throw, fault, hang, Exec, resume, ltb, Keeps, resume-Keeps,
  if-Keeps,
}
use roki_mb_daemon.Memory.{read_bytes}
use roki_mb_daemon.Streams.{Network, SendResult, accepted, send_failed}
use roki_mb_daemon.Sockets.{
  Kernel, DescriptorWrapper, wrap, move, destroy, Connection, ServerSocket, accept, ip_to_string,
}
use roki_mb_daemon.Sockets.Descriptors.{
  Accounts, Owned, release, release_newest, release_second, accept-Owned,
}
use roki_mb_daemon.Server.Ports.{Ports, create_handler_socket, Found, create-Found}
use roki_mb_daemon.Server.Hello.{Hello, hello_message, give_part, hello_send_loop, hello_send}
use roki_mb_daemon.Server.Dispatch.{
  Dispatcher, with_world, end_scope, send_hello, after_start, hand_socket, welcome, dispatch_round,
}

-- What a `send` keeps, a hello keeps.
module _ {N X : Type 0} (net : Network N) (view : N → X)
    (send_still : (bs : List ℕ) (n : N) → view (net.send bs n).1 ≡ view n) where
  abbrev on_hello : Hello N → X
  on_hello h = view h.conn

  give_part-Kept :
      (again : ℕ → Exec (Hello N) (Unit {0})) (total : ℕ) (r : SendResult)
      → ((i : ℕ) → Keeps on_hello (again i))
      → Keeps on_hello (give_part again total r)
  unfolding give_part
  give_part-Kept again total (send_failed e) k s = refl
  give_part-Kept again total (accepted zero) k s = refl
  give_part-Kept again total (accepted (suc n)) k s = k (total + suc n) s

  hello_send_loop-Kept :
      (fuel total size : ℕ) → Keeps on_hello (hello_send_loop net fuel total size)
  unfolding hello_send_loop
  hello_send_loop-Kept zero total size s =
      if-Keeps on_hello (ltb total size) (hang, s) (ok tt, s) (on_hello s) refl refl
  hello_send_loop-Kept (suc fuel) total size s =
      let part : List ℕ → Exec (Hello N) (Unit {0}) = λ bs t.
        let (result, n) = net.send bs t.conn in
        give_part (λ i. hello_send_loop net fuel i size) total result (record t { conn = n }) in
      if-Keeps on_hello (ltb total size) _ (ok tt, s) (on_hello s)
        (resume-Keeps on_hello (read_bytes s.port total (size - total)) part
          (λ bs t.
            give_part-Kept (λ i. hello_send_loop net fuel i size) total (net.send bs t.conn).0
              (λ i. hello_send_loop-Kept fuel i size) (record t { conn = (net.send bs t.conn).1 })
            ∙ send_still bs t.conn)
          s)
        refl

  pub hello_send-Kept : Keeps on_hello (hello_send net)
  unfolding hello_send
  hello_send-Kept = hello_send_loop-Kept 2 0 2

-- The connection for the hello, which is there if `accept` has returned.
abbrev pub hello_of : Outcome Connection → DescriptorWrapper
hello_of (ok conn) = conn.fd
hello_of r = wrap none

module _ {W : Type 0} (kernel : Kernel W) (sleep : W → W) (conn_of : DescriptorWrapper → Network W)
    (start_thread : W → Option ℕ × W) (held : W → List ℕ) (accounts : Accounts kernel held)
    (send_held : (d : DescriptorWrapper) (bs : List ℕ) (w : W)
      → held ((conn_of d).send bs w).1 ≡ held w)
    (start_held : (w : W) → held (start_thread w).1 ≡ held w)
    (sleep_held : (w : W) → held (sleep w) ≡ held w) where
  -- A thread was started, and owns the one descriptor that is open besides `fds`: a socket on the port
  -- that the hello on `hello_fd` has told, after which `closing` was done. The outcome is the hello's.
  abbrev pub Handed :
      DescriptorWrapper
      → (W → W)
      → List ℕ
      → Dispatcher W
      → Outcome (Unit {0}) × Dispatcher W
      → Type 0
  Handed hello_fd closing fds d (r, e) =
      (fd : ℕ) × (socket : ServerSocket) × (w : W) × (socket.sock_fd ≡ wrap (some fd))
      × (held e.world ≡ fd ∷ fds)
      × (e.started ≡ d.started ++ ((d.current_id, socket) ∷ []))
      × (e.registered ≡ d.registered ++ (d.current_id ∷ []))
      × (socket.server_port ≡ e.current_port % 2 ^ 16)
      × (r ≡ (send_hello kernel sleep conn_of start_thread hello_fd socket.server_port w).0)
      × (e.world
          ≡ closing (send_hello kernel sleep conn_of start_thread hello_fd socket.server_port w).1)

  -- What a round leaves.
  abbrev pub Dispatched :
      DescriptorWrapper
      → (W → W)
      → List ℕ
      → Dispatcher W
      → Outcome (Unit {0}) × Dispatcher W
      → Type 0
  Dispatched hello_fd closing fds d (ok u, e) = Handed hello_fd closing fds d (ok u, e)
  Dispatched hello_fd closing fds d (throw x, e) =
      Handed hello_fd closing fds d (throw x, e)
      ⊎ ((held e.world ≡ fds) × (e.started ≡ d.started) × (e.registered ≡ d.registered))
  Dispatched hello_fd closing fds d (fault, e) = Unit
  Dispatched hello_fd closing fds d (hang, e) = Unit

  abbrev Round : Type 0
  Round = Outcome (Unit {0}) × Dispatcher W

  -- Nothing is closed, and what is left of `handlerSocket`, and the connection for the hello too.
  abbrev pub close_rest : W → W
  close_rest w = destroy kernel (wrap none) w

  abbrev pub close_both : DescriptorWrapper → W → W
  close_both hello_fd w = destroy kernel hello_fd (close_rest w)

  Handed-Dispatched :
      (hello_fd : DescriptorWrapper) (closing : W → W) (fds : List ℕ) (d : Dispatcher W) (x : Round)
      → Handed hello_fd closing fds d x
      → Dispatched hello_fd closing fds d x
  Handed-Dispatched hello_fd closing fds d (ok u, e) h = h
  Handed-Dispatched hello_fd closing fds d (throw x, e) h = inl h
  Handed-Dispatched hello_fd closing fds d (fault, e) h = tt
  Handed-Dispatched hello_fd closing fds d (hang, e) h = tt

  close_empty :
      (hello_fd : DescriptorWrapper) (fds : List ℕ) (d : Dispatcher W) (x : Round)
      → Dispatched hello_fd (λ w. w) fds d x
      → Dispatched hello_fd close_rest fds d
          (end_scope kernel sleep conn_of start_thread (wrap none) x)
  unfolding end_scope destroy
  close_empty hello_fd fds d (ok u, e) (fd, socket, w, o, h, run, listed, port, told, after) = (
    fd,
    socket,
    w,
    o,
    accounts.close_none e.world ∙ h,
    run,
    listed,
    port,
    told,
    ap close_rest after,
  )
  close_empty hello_fd fds d (throw x, e)
        (inl (fd, socket, w, o, h, run, listed, port, told, after)) =
      inl (
        fd,
        socket,
        w,
        o,
        accounts.close_none e.world ∙ h,
        run,
        listed,
        port,
        told,
        ap close_rest after,
      )
  close_empty hello_fd fds d (throw x, e) (inr (h, run, listed)) =
      inr (accounts.close_none e.world ∙ h, run, listed)
  close_empty hello_fd fds d (fault, e) h = tt
  close_empty hello_fd fds d (hang, e) h = tt

  -- The connection for the hello is closed, and what the new thread owns stays open.
  close_hello :
      (c : ℕ) (fds : List ℕ) (d : Dispatcher W) (x : Round)
      → Dispatched (wrap (some c)) close_rest (c ∷ fds) d x
      → Dispatched
          (wrap (some c))
          (close_both (wrap (some c)))
          fds
          d
          (end_scope kernel sleep conn_of start_thread (wrap (some c)) x)
  unfolding end_scope destroy
  close_hello c fds d (ok u, e) (fd, socket, w, o, h, run, listed, port, told, after) = (
    fd,
    socket,
    w,
    o,
    accounts.close_held c e.world ∙ (ap (release c) h ∙ release_second c fd fds),
    run,
    listed,
    port,
    told,
    ap (destroy kernel (wrap (some c))) after,
  )
  close_hello c fds d (throw x, e) (inl (fd, socket, w, o, h, run, listed, port, told, after)) =
      inl (
        fd,
        socket,
        w,
        o,
        accounts.close_held c e.world ∙ (ap (release c) h ∙ release_second c fd fds),
        run,
        listed,
        port,
        told,
        ap (destroy kernel (wrap (some c))) after,
      )
  close_hello c fds d (throw x, e) (inr (h, run, listed)) =
      inr (accounts.close_held c e.world ∙ (ap (release c) h ∙ release_newest c fds), run, listed)
  close_hello c fds d (fault, e) h = tt
  close_hello c fds d (hang, e) h = tt

  send_hello-held :
      (d : DescriptorWrapper) (port : ℕ) (w : W)
      → held (send_hello kernel sleep conn_of start_thread d port w).1 ≡ held w
  unfolding send_hello hello_message
  send_hello-held d port w = hello_send-Kept (conn_of d) held (send_held d) (hello_message port w)

  module _ (fds : List ℕ) (d : Dispatcher W) (next : ℕ) (hello_fd : DescriptorWrapper) where
    -- The dispatcher with the new counter and these ports.
    abbrev at_ports : Ports W → Dispatcher W
    at_ports p = record d { ports = p; current_id = next }

    after_start-Dispatched :
        (fd : ℕ) (socket : ServerSocket) (r : Option ℕ × W) (p : Ports W)
        → socket.sock_fd ≡ wrap (some fd)
        → held r.1 ≡ fd ∷ fds
        → socket.server_port ≡ p.current_port % 2 ^ 16
        → Dispatched hello_fd
            (λ v. v)
            fds
            d
            (after_start kernel sleep conn_of start_thread hello_fd socket d.current_id r
              (at_ports p))
    unfolding after_start move destroy
    after_start-Dispatched fd socket (none, w) p o h port =
        Handed-Dispatched hello_fd (λ v. v) fds d _
          (
            fd,
            socket,
            w,
            o,
            send_hello-held hello_fd socket.server_port w ∙ h,
            refl,
            refl,
            port,
            refl,
            refl,
          )
    after_start-Dispatched fd socket (some e, w) p o h port =
        inr (
          rw o (accounts.close_held fd w ∙ (ap (release fd) h ∙ release_newest fd fds)),
          refl,
          refl,
        )

    hand_socket-Dispatched :
        (fd : ℕ) (socket : ServerSocket) (p : Ports W)
        → socket.sock_fd ≡ wrap (some fd)
        → held p.world ≡ fd ∷ fds
        → socket.server_port ≡ p.current_port % 2 ^ 16
        → Dispatched hello_fd close_rest fds d (
            hand_socket kernel sleep conn_of start_thread hello_fd d.current_id socket (at_ports p))
    unfolding hand_socket move
    hand_socket-Dispatched fd socket p o h port =
        close_empty hello_fd fds d
          (after_start kernel sleep conn_of start_thread hello_fd socket d.current_id
            (start_thread p.world) (at_ports p))
          (after_start-Dispatched fd socket (start_thread p.world) p o (start_held p.world ∙ h)
            port)

    created-Dispatched :
        (x : Outcome ServerSocket × Ports W)
        → Found kernel sleep held accounts fds x
        → Dispatched hello_fd close_rest fds d (
            resume x.0
              (hand_socket kernel sleep conn_of start_thread hello_fd d.current_id)
              (at_ports x.1))
    created-Dispatched (ok socket, p) (fd, o, h, port) = hand_socket-Dispatched fd socket p o h port
    created-Dispatched (throw e, p) h = absurd h
    created-Dispatched (fault, p) h = absurd h
    created-Dispatched (hang, p) h = tt

  module _ (text : List ℕ) (printed : ip_to_string kernel 0 ≡ ok text) (fuel : ℕ) where
    welcome-Dispatched :
        (fds : List ℕ) (d : Dispatcher W) (x : Outcome Connection × W)
        → Owned held (λ c. c.fd) fds x
        → Dispatched (hello_of x.0) (close_both (hello_of x.0)) fds d (
            resume x.0
              (welcome kernel sleep conn_of start_thread fuel)
              (with_world kernel sleep conn_of start_thread d x.1))
    unfolding welcome
    welcome-Dispatched fds d (ok conn, w) (c, o, h) =
        let p : Ports W = record d.ports { world = w } in
        rw o (
          close_hello c fds d _ (
            created-Dispatched (c ∷ fds) d ((d.current_id + 1) % 2 ^ 64) (wrap (some c))
              (create_handler_socket kernel sleep fuel p)
              (subst
                (λ l.
                  Found kernel sleep held accounts l (create_handler_socket kernel sleep fuel p))
                h (create-Found kernel sleep held accounts text fuel p printed sleep_held))))
    welcome-Dispatched fds d (throw e, w) h = inr (h, refl, refl)
    welcome-Dispatched fds d (fault, w) h = absurd h
    welcome-Dispatched fds d (hang, w) h = absurd h

    -- A round of the dispatcher that returns has started one thread, which owns the one descriptor that is
    -- open besides those of before, a socket, and has registered its id; the hello with the port of that
    -- socket was sent on the accepted connection, which was then closed. A round that throws, and so leaves
    -- the loop, has done the same, with sending that hello as what has thrown, or it has started no thread
    -- and left nothing open. Of a round that is undefined, or that never returns, nothing is said.
    -- `INADDR_ANY` can be printed, and only `socket`, `accept4` and `close` change the open descriptors.
    pub dispatch_round-Dispatched :
        (listening : ServerSocket) (d : Dispatcher W)
        → Dispatched
            (hello_of (accept kernel listening false d.world).0)
            (close_both (hello_of (accept kernel listening false d.world).0))
            (held d.world)
            d
            (dispatch_round kernel sleep conn_of start_thread fuel listening d)
    unfolding dispatch_round
    dispatch_round-Dispatched listening d =
        welcome-Dispatched (held d.world) d (accept kernel listening false d.world)
          (accept-Owned held kernel accounts listening false d.world)
