-- ===== src/Client/Connects.antt =====
-- Src/Client.cpp: which descriptors are open after `Factory::Connect`, and where it connects.
use roki_mb_daemon.Base.{
  ℕ, ◌<◌, ◌^◌, ◌≡◌, refl, ◌∙◌, ap, subst, ◌⊎◌, inl, inr, false, List, ◌∷◌, ◌++◌, some, Exception,
  Outcome, ok, throw, fault, hang, Exec, resume, then_do,
}
use roki_mb_daemon.Streams.{Network, Healthy}
use roki_mb_daemon.Sockets.{
  Kernel, DescriptorWrapper, wrap, destroy, Connection, htons, address, ip_to_string, client_socket,
  connect_socket,
}
use roki_mb_daemon.Sockets.Descriptors.{
  Accounts, Owned, release, release_newest, release_second, connect_socket-Owned,
}
use roki_mb_daemon.Server.Hello.{le16, hello_recv}
use roki_mb_daemon.Server.Hello.Ends.{IsBounded, Ends, hello_recv-Ends}
use roki_mb_daemon.Server.Hello.RoundTrip.{hello_round_trip}
use roki_mb_daemon.Client.Factory.{Factory, leave_scope, second, factory_connect}

module _ {W : Type 0} (kernel : Kernel W) (conn_of : DescriptorWrapper → Network W)
    (garbage : ℕ → ℕ) (f : Factory) where
  module _ (held : W → List ℕ) (accounts : Accounts kernel held)
      (bounded : (d : DescriptorWrapper) → IsBounded (conn_of d))
      (kept : (d : DescriptorWrapper) (k : ℕ) (w : W)
        → held ((conn_of d).recv k w).1 ≡ held w) where
    abbrev Holding : List ℕ → Outcome Connection × W → Type 0
    Holding = Owned held (λ c. c.fd)

    close_older :
        (fd : ℕ) (fds : List ℕ) (x : Outcome Connection × W)
        → Holding (fd ∷ fds) x
        → Holding fds (leave_scope kernel conn_of (wrap (some fd)) x)
    unfolding leave_scope destroy
    close_older fd fds (ok c, w) (new, owner, h) =
        (new, owner, accounts.close_held fd w ∙ (ap (release fd) h ∙ release_second fd new fds))
    close_older fd fds (throw e, w) h =
        accounts.close_held fd w ∙ (ap (release fd) h ∙ release_newest fd fds)
    close_older fd fds (fault, w) h = h
    close_older fd fds (hang, w) h = h

    address-cases :
        (r : ℕ ⊎ List ℕ)
        → ((text : List ℕ) × (address kernel r ≡ ok text))
          ⊎ ((e : Exception) × (address kernel r ≡ throw e))
    unfolding address
    address-cases (inl e) = inr (_, refl)
    address-cases (inr text) = inl (text, refl)

    second-Holding : (port : ℕ) (w : W) → Holding (held w) (second kernel conn_of garbage f port w)
    unfolding second client_socket ip_to_string
    second-Holding port w = elim (address-cases (kernel.inet_ntop f.in_addr)) [
      | inl (text, e) ↦ rw e (connect_socket-Owned held kernel accounts _ false w)
      | inr (x, e) ↦ rw e refl
    ]

    after_hello :
        (x : Outcome ℕ × W) (fds : List ℕ)
        → Ends held fds x
        → Holding fds (resume x.0 (second kernel conn_of garbage f) x.1)
    after_hello (ok port, w) fds h =
        subst (λ xs. Holding xs (second kernel conn_of garbage f port w)) h (second-Holding port w)
    after_hello (throw e, w) fds h = h
    after_hello (fault, w) fds h = h
    after_hello (hang, w) fds h = h

    after_first :
        (x : Outcome Connection × W) (fds : List ℕ)
        → Holding fds x
        → let g : Connection → Exec W Connection = λ conn w.
          leave_scope kernel conn_of conn.fd
            (then_do (hello_recv (conn_of conn.fd) garbage) (second kernel conn_of garbage f) w) in
          Holding fds (resume x.0 g x.1)
    after_first (ok conn, w) fds (fd, owner, h) =
        let told = hello_recv (conn_of (wrap (some fd))) garbage w in
        let ends : Ends held (fd ∷ fds) told =
          subst (λ xs. Ends held xs told) h
            (hello_recv-Ends held (conn_of (wrap (some fd))) (bounded (wrap (some fd)))
              (kept (wrap (some fd))) garbage w) in
        rw owner (close_older fd fds _ (after_hello told (fd ∷ fds) ends))
    after_first (throw e, w) fds h = h
    after_first (fault, w) fds h = h
    after_first (hang, w) fds h = h

    -- `Factory::Connect`, whatever the server sends, returns a connection that owns the one new
    -- descriptor, that of the handler's port, or throws with as many descriptors open as before: the
    -- connection that the port came through is closed on every path.
    pub factory_connect-Owned :
        (w : W) → Holding (held w) (factory_connect kernel conn_of garbage f w)
    unfolding factory_connect
    factory_connect-Owned w =
        after_first (connect_socket kernel f.socket false w) (held w)
          (connect_socket-Owned held kernel accounts f.socket false w)

  -- Where the server sends the port `p` and the address can be printed, `Factory::Connect` connects to
  -- that port of that address, in network order, and then leaves the first connection.
  pub factory_connects :
      (conn : Connection) (w w' : W) (p : ℕ) (rest text : List ℕ)
      (healthy : Healthy (conn_of conn.fd))
      → connect_socket kernel f.socket false w ≡ (ok conn, w')
      → p < 2 ^ 16
      → healthy.pending w' ≡ le16 p ++ rest
      → ip_to_string kernel f.in_addr ≡ ok text
      → (n : W) × (healthy.pending n ≡ rest)
        × (factory_connect kernel conn_of garbage f w
            ≡ leave_scope kernel conn_of conn.fd (
                connect_socket kernel
                  (record { server_addr = text; addr_in = f.in_addr; port_in = htons p })
                  false
                  n))
  unfolding factory_connect second client_socket
  factory_connects conn w w' p rest text healthy opens small arrived named =
      let (n, told, left) =
        hello_round_trip (conn_of conn.fd) healthy p rest garbage w' small arrived in
      (n, left, rw (opens, told, named) refl)
