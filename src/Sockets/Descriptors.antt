-- ===== src/Sockets/Descriptors.antt =====
-- Src/Socket.cpp: which descriptors are open after a constructor, `Accept` or `Connect`, on every path.
use roki_mb_daemon.Base.{
  ℕ, ◌≡◌, refl, ◌∙◌, ap, ◌⊎◌, inl, inr, Bool, false, List, [], ◌∷◌, Option, none, some, Outcome, ok,
  throw, fault, hang, Exception, ◌==◌, String, if◌then◌else◌, resume, arith, Exec,
}
use roki_mb_daemon.Sockets.{
  Kernel, DescriptorWrapper, wrap, move, move_assign, destroy, unwind, checked, address,
  ip_to_string, bind_and_listen, take_over, opened, server_socket, ServerSocket, Connection,
  ClientSocket, returned, accepted_peer, accept, connected_socket, connect_socket, htons,
}

-- The open descriptors after `close`.
unfoldable pub release : ℕ → List ℕ → List ℕ
release fd [] = []
release fd (x ∷ xs) = if x == fd then xs else x ∷ release fd xs

-- The open descriptors after a call that may give a new one.
unfoldable pub obtained : {A : Type 0} → (A → ℕ) → ℕ ⊎ A → List ℕ → List ℕ
obtained fd_of (inl e) fds = fds
obtained fd_of (inr a) fds = fd_of a ∷ fds

-- What is documented of the calls: `held` lists the open descriptors, and only `socket`, `accept4` and
-- `close` change them.
pub record Accounts {W : Type 0} (kernel : Kernel W) (held : W → List ℕ) : Type 0 where
  pub socket_held :
      (b : Bool) (w : W)
      → held (kernel.socket b w).1 ≡ obtained (λ fd. fd) (kernel.socket b w).0 (held w)
  pub accept_held :
      (fd : Option ℕ) (b : Bool) (w : W)
      → held (kernel.accept4 fd b w).1 ≡ obtained (λ r. r.0) (kernel.accept4 fd b w).0 (held w)
  pub bind_held : (fd a p : ℕ) (w : W) → held (kernel.bind fd a p w).1 ≡ held w
  pub listen_held : (fd n : ℕ) (w : W) → held (kernel.listen fd n w).1 ≡ held w
  pub connect_held : (fd a p : ℕ) (w : W) → held (kernel.connect fd a p w).1 ≡ held w
  pub close_held : (fd : ℕ) (w : W) → held (kernel.close (some fd) w) ≡ release fd (held w)
  pub close_none : (w : W) → held (kernel.close none w) ≡ held w

pub release_newest : (fd : ℕ) (fds : List ℕ) → release fd (fd ∷ fds) ≡ fds
unfolding release
release_newest fd fds = ground arith

pub release_second : (a b : ℕ) (fds : List ℕ) → release a (b ∷ a ∷ fds) ≡ b ∷ fds
unfolding release
release_second a b fds = ground arith

module _ {W : Type 0} (held : W → List ℕ) where
  -- A result owns the one descriptor that is open besides `fds`; a failure leaves none.
  abbrev pub Owned : {A : Type 0} → (A → DescriptorWrapper) → List ℕ → Outcome A × W → Type 0
  Owned owner fds (ok a, w) = (fd : ℕ) × (owner a ≡ wrap (some fd)) × (held w ≡ fd ∷ fds)
  Owned owner fds (throw e, w) = held w ≡ fds
  Owned owner fds (fault, w) = ⊥
  Owned owner fds (hang, w) = ⊥

  -- Within the scope of an owner of `fd`.
  abbrev Inside : {A : Type 0} → (A → DescriptorWrapper) → ℕ → List ℕ → Outcome A × W → Type 0
  Inside owner fd fds (ok a, w) = (owner a ≡ wrap (some fd)) × (held w ≡ fd ∷ fds)
  Inside owner fd fds (throw e, w) = held w ≡ fd ∷ fds
  Inside owner fd fds (fault, w) = ⊥
  Inside owner fd fds (hang, w) = ⊥

  module _ (kernel : Kernel W) (accounts : Accounts kernel held) where
    unwind-Owned :
        {A : Type 0} (owner : A → DescriptorWrapper) (fd : ℕ) (fds : List ℕ) (x : Outcome A × W)
        → Inside owner fd fds x
        → Owned owner fds (unwind kernel (wrap (some fd)) x)
    unfolding unwind destroy
    unwind-Owned owner fd fds (ok a, w) (o, h) = (fd, o, h)
    unwind-Owned owner fd fds (throw e, w) h =
        accounts.close_held fd w ∙ (ap (release fd) h ∙ release_newest fd fds)
    unwind-Owned owner fd fds (fault, w) h = h
    unwind-Owned owner fd fds (hang, w) h = h

    -- A call that keeps the descriptors, and its error.
    checked-then :
        {A : Type 0} (owner : A → DescriptorWrapper) (fd : ℕ) (fds : List ℕ) (msg : String)
        (r : Option ℕ × W) (k : Unit {0} → W → Outcome A × W)
        → held r.1 ≡ fd ∷ fds
        → ((w : W) → held w ≡ fd ∷ fds → Inside owner fd fds (k tt w))
        → Inside owner fd fds (resume (checked kernel msg tt r).0 k (checked kernel msg tt r).1)
    unfolding checked
    checked-then owner fd fds msg (none, w) k h step = step w h
    checked-then owner fd fds msg (some e, w) k h step = h

    checked-Inside :
        {A : Type 0} (owner : A → DescriptorWrapper) (fd : ℕ) (fds : List ℕ) (msg : String) (a : A)
        (r : Option ℕ × W)
        → owner a ≡ wrap (some fd)
        → held r.1 ≡ fd ∷ fds
        → Inside owner fd fds (checked kernel msg a r)
    unfolding checked
    checked-Inside owner fd fds msg a (none, w) o h = (o, h)
    checked-Inside owner fd fds msg a (some e, w) o h = h

    returned-Inside :
        (fd : ℕ) (fds text : List ℕ) (port : ℕ) (b : Bool) (w : W)
        → held w ≡ fd ∷ fds
        → Inside (λ c. c.fd) fd fds (returned kernel (wrap (some fd)) text port b w)
    unfolding returned move destroy
    returned-Inside fd fds text port b w h = (refl, accounts.close_none w ∙ h)

    module _ (addr port backlog : ℕ) where
      listening :
          (fd : ℕ) (fds : List ℕ) (s : ServerSocket) (w : W)
          → s.sock_fd ≡ wrap (some fd)
          → held w ≡ fd ∷ fds
          → Inside (λ t. t.sock_fd) fd fds (bind_and_listen kernel addr port backlog fd s w)
      unfolding bind_and_listen
      listening fd fds s w p h =
          checked-then (λ (t : ServerSocket). t.sock_fd) fd fds
            "ServerSocket: Failed to bind socket" (kernel.bind fd addr (htons port) w)
            (λ _ w'. checked kernel "ServerSocket: listen() failed" s (kernel.listen fd backlog w'))
            (accounts.bind_held fd addr _ w ∙ h)
            (λ w' h'.
              checked-Inside (λ (t : ServerSocket). t.sock_fd) fd fds
                "ServerSocket: listen() failed" s (kernel.listen fd backlog w') p
                (accounts.listen_held fd backlog w' ∙ h'))

      opened-Owned :
          (r : ℕ ⊎ ℕ) (text fds : List ℕ) (w : W)
          → ip_to_string kernel addr ≡ ok text
          → held w ≡ obtained (λ fd. fd) r fds
          → Owned (λ s. s.sock_fd) fds (opened kernel addr port backlog (r, w))
      unfolding opened take_over unwind move_assign obtained destroy
      opened-Owned (inl e) text fds w q h = accounts.close_none w ∙ h
      opened-Owned (inr fd) text fds w q h = rw q (
          unwind-Owned (λ s. s.sock_fd) fd fds _
            (listening fd fds _ _ refl (accounts.close_none w ∙ h)))

      -- The constructor of a `ServerSocket` whose address can be printed either gives an object that
      -- owns the one new descriptor, or throws with as many descriptors open as before: on every path
      -- of `socket`, `bind` and `listen` the error closes what was opened.
      pub server_socket-Owned :
          (text : List ℕ) (w : W)
          → ip_to_string kernel addr ≡ ok text
          → Owned (λ s. s.sock_fd) (held w) (server_socket kernel addr port backlog w)
      unfolding server_socket
      server_socket-Owned text w q =
          opened-Owned (kernel.socket false w).0 text (held w) (kernel.socket false w).1 q
            (accounts.socket_held false w)

      leaked :
          (r : ℕ ⊎ ℕ) (e : Exception) (w : W)
          → ip_to_string kernel addr ≡ throw e
          → held (opened kernel addr port backlog (r, w)).1 ≡ held w
      unfolding opened take_over unwind destroy
      leaked (inl n) e w q = accounts.close_none w
      leaked (inr fd) e w q = rw q (accounts.close_none w)

      -- Where `IpToString` throws, the constructor closes nothing that `socket` has opened: the
      -- descriptor stays open and nobody owns it.
      pub server_socket_leaks :
          (e : Exception) (w : W)
          → ip_to_string kernel addr ≡ throw e
          → held (server_socket kernel addr port backlog w).1
            ≡ obtained (λ fd. fd) (kernel.socket false w).0 (held w)
      unfolding server_socket
      server_socket_leaks e w q =
          leaked (kernel.socket false w).0 e (kernel.socket false w).1 q
          ∙ accounts.socket_held false w

    named_peer :
        (fd : ℕ) (fds : List ℕ) (port : ℕ) (b : Bool) (w : W) (r : ℕ ⊎ List ℕ)
        → held w ≡ fd ∷ fds
        → Inside
            (λ c. c.fd)
            fd
            fds
            (let f : List ℕ → Exec W Connection =
                λ text. returned kernel (wrap (some fd)) text port b in
              resume (address kernel r) f w)
    unfolding address
    named_peer fd fds port b w (inl e) h = h
    named_peer fd fds port b w (inr text) h = returned-Inside fd fds text port b w h

    accepted_peer-Owned :
        (s : ServerSocket) (b : Bool) (r : ℕ ⊎ (ℕ × ℕ)) (fds : List ℕ) (w : W)
        → held w ≡ obtained (λ p. p.0) r fds
        → Owned (λ c. c.fd) fds (accepted_peer kernel s b (r, w))
    unfolding accepted_peer obtained ip_to_string
    accepted_peer-Owned s b (inl e) fds w h = h
    accepted_peer-Owned s b (inr (fd, peer)) fds w h =
        unwind-Owned (λ c. c.fd) fd fds _
          (named_peer fd fds s.server_port b w (kernel.inet_ntop peer) h)

    -- `Accept` gives a connection that owns the one new descriptor, or throws with as many
    -- descriptors open as before, also where the peer's address cannot be printed.
    pub accept-Owned :
        (s : ServerSocket) (b : Bool) (w : W) → Owned (λ c. c.fd) (held w) (accept kernel s b w)
    unfolding accept
    accept-Owned s b w =
        accepted_peer-Owned s b _ (held w) _ (accounts.accept_held s.sock_fd.value b w)

    connected_socket-Owned :
        (s : ClientSocket) (b : Bool) (r : ℕ ⊎ ℕ) (fds : List ℕ) (w : W)
        → held w ≡ obtained (λ fd. fd) r fds
        → Owned (λ c. c.fd) fds (connected_socket kernel s b (r, w))
    unfolding connected_socket obtained
    connected_socket-Owned s b (inl e) fds w h = h
    connected_socket-Owned s b (inr fd) fds w h =
        unwind-Owned (λ c. c.fd) fd fds _
          (checked-then (λ (c : Connection). c.fd) fd fds "Connect: Failed to connect"
            (kernel.connect fd s.addr_in s.port_in w)
            (λ _. returned kernel (wrap (some fd)) s.server_addr s.port_in b)
            (accounts.connect_held fd s.addr_in s.port_in w ∙ h)
            (λ w' h'. returned-Inside fd fds s.server_addr s.port_in b w' h'))

    -- The same of `ClientSocket::Connect`.
    pub connect_socket-Owned :
        (s : ClientSocket) (b : Bool) (w : W)
        → Owned (λ c. c.fd) (held w) (connect_socket kernel s b w)
    unfolding connect_socket
    connect_socket-Owned s b w = connected_socket-Owned s b _ (held w) _ (accounts.socket_held b w)
