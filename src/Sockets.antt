-- ===== src/Sockets.antt =====
-- Src/Socket.cpp and Inc/roki-mb-daemon/Socket.hpp: the sockets of the server and of the client, with
-- the owner of a descriptor in Inc/roki-mb-daemon/Helpers.hpp. The kernel's calls are parameters.
pub mod Descriptors
pub mod Port
pub mod Address
use roki_mb_daemon.Base.{
  ℕ, ◌+◌, ◌*◌, ◌/◌, ◌%◌, ◌^◌, String, ◌⊎◌, inl, inr, Bool, false, List, [], ◌∷◌, ◌++◌, Option, none,
  some, runtime_error, errno_exception, Exception, Outcome, ok, throw, fault, hang, ◌>>=◌, Exec,
  resume, then_do, str,
}

-- The system calls, each with the number of its error; a descriptor that may be -1 is an `Option`.
pub record Kernel (W : Type 0) : Type 0 where
  pub socket : Bool → W → (ℕ ⊎ ℕ) × W
  -- The descriptor, the address and the port in network order.
  pub bind : ℕ → ℕ → ℕ → W → Option ℕ × W
  pub listen : ℕ → ℕ → W → Option ℕ × W
  pub connect : ℕ → ℕ → ℕ → W → Option ℕ × W
  -- The new descriptor and the address of the peer.
  pub accept4 : Option ℕ → Bool → W → (ℕ ⊎ (ℕ × ℕ)) × W
  pub set_linger : Option ℕ → W → Option ℕ × W
  pub close : Option ℕ → W → W
  -- The 16 bytes that it fills.
  pub inet_ntop : ℕ → ℕ ⊎ List ℕ

pub record UniqueValue (A : Type 0) : Type 0 where
  pub value : A

module _ {A : Type 0} where
  -- The move constructor: the new object, and what is left of the old one.
  unfoldable pub move : A → UniqueValue A → UniqueValue A × UniqueValue A
  move default rhs = (record { value = rhs.value }, record { value = default })

  -- The move assignment: `this` and `rhs` after it.
  unfoldable pub move_assign : UniqueValue A → UniqueValue A → UniqueValue A × UniqueValue A
  move_assign this rhs = (record { value = rhs.value }, record { value = this.value })

abbrev pub DescriptorWrapper : Type 0
DescriptorWrapper = UniqueValue (Option ℕ)

abbrev pub wrap : Option ℕ → DescriptorWrapper
wrap fd = record { value = fd }

-- `htons` on a little-endian machine.
unfoldable pub htons : ℕ → ℕ
htons port = (port % 2 ^ 8) * 2 ^ 8 + (port / 2 ^ 8) % 2 ^ 8

pub record Connection : Type 0 where
  pub fd : DescriptorWrapper
  pub addr : List ℕ
  pub port : ℕ
  pub non_block : Bool

pub record ServerSocket : Type 0 where
  pub sock_fd : DescriptorWrapper
  pub server_addr : List ℕ
  pub server_port : ℕ
  pub backlog : ℕ

pub record ClientSocket : Type 0 where
  pub server_addr : List ℕ
  pub addr_in : ℕ
  pub port_in : ℕ

abbrev failure : {A : Type 0} → String → ℕ → Outcome A
failure msg e = throw (errno_exception (str msg) e)

module _ {W : Type 0} (kernel : Kernel W) where
  -- `~DescriptorWrapper`.
  unfoldable pub destroy : DescriptorWrapper → W → W
  destroy d w = kernel.close d.value w

  -- What is left of a call when it unwinds past the owner `d` of a descriptor.
  unfoldable pub unwind : {A : Type 0} → DescriptorWrapper → Outcome A × W → Outcome A × W
  unfolding destroy
  unwind d (ok a, w) = (ok a, w)
  unwind d (throw e, w) = (throw e, destroy d w)
  unwind d (fault, w) = (fault, w)
  unwind d (hang, w) = (hang, w)

  checked : {A : Type 0} → String → A → Option ℕ × W → Outcome A × W
  checked msg a (none, w) = (ok a, w)
  checked msg a (some e, w) = (failure msg e, w)

  unfoldable pub address : ℕ ⊎ List ℕ → Outcome (List ℕ)
  address (inl e) = failure "IpToString: Failed to convert address to string via inet_ntop()" e
  address (inr text) = ok text

  unfoldable pub ip_to_string : ℕ → Outcome (List ℕ)
  unfolding address
  ip_to_string addr = address (kernel.inet_ntop addr)

  unfoldable pub disable_lingering : ServerSocket → Exec W (Unit {0})
  unfolding checked
  disable_lingering s w =
      checked "DisableLingering: Failed to disable lingering via setsockopt()" tt
        (kernel.set_linger s.sock_fd.value w)

  module _ (addr port backlog : ℕ) where
    -- `bind` and `listen` on the descriptor that the object now owns.
    bind_and_listen : ℕ → ServerSocket → Exec W ServerSocket
    unfolding checked
    bind_and_listen fd s =
        then_do
          (λ w.
            checked "ServerSocket: Failed to bind socket" tt (kernel.bind fd addr (htons port) w))
          (λ _ w. checked "ServerSocket: listen() failed" s (kernel.listen fd backlog w))

    -- `SockFd = DescriptorWrapper{newFd};`: the temporary goes away with what `SockFd` held.
    take_over : ℕ → Outcome (List ℕ) → Exec W ServerSocket
    unfolding bind_and_listen move_assign unwind destroy
    take_over fd text =
        then_do (λ w. unwind (wrap none) (text, w))
          (λ server_addr w.
            let (sock_fd, temporary) = move_assign (wrap none) (wrap (some fd)) in
            let s : ServerSocket = record {
              sock_fd = sock_fd;
              server_addr = server_addr;
              server_port = port % 2 ^ 16;
              backlog = backlog;
            } in
            unwind sock_fd (bind_and_listen fd s (destroy temporary w)))

    opened : (ℕ ⊎ ℕ) × W → Outcome ServerSocket × W
    unfolding take_over ip_to_string unwind
    opened (inl e, w) = unwind (wrap none) (failure "ServerSocket: Failed to open socket" e, w)
    opened (inr fd, w) = take_over fd (ip_to_string addr) w

    -- The constructor. Until `SockFd` is assigned it holds -1, and unwinding closes that and not `fd`.
    unfoldable pub server_socket : Exec W ServerSocket
    unfolding opened
    server_socket w = opened (kernel.socket false w)

  -- `return {std::move(retFd), ...};`: the moved-from owner goes away too.
  returned : DescriptorWrapper → List ℕ → ℕ → Bool → Exec W Connection
  unfolding move destroy
  returned ret_fd addr port non_block w =
      let (fd, rest) = move none ret_fd in
      (ok (record { fd = fd; addr = addr; port = port; non_block = non_block }), destroy rest w)

  -- The end of `Accept`, with what `accept4` gives.
  accepted_peer : ServerSocket → Bool → (ℕ ⊎ (ℕ × ℕ)) × W → Outcome Connection × W
  unfolding unwind returned ip_to_string
  accepted_peer s non_block (inl e, w) = (failure "Accept: Failed to accept connection" e, w)
  accepted_peer s non_block (inr (fd, peer), w) = unwind (wrap (some fd)) (
      resume (ip_to_string peer) (λ text. returned (wrap (some fd)) text s.server_port non_block) w)

  unfoldable pub accept : ServerSocket → Bool → Exec W Connection
  unfolding accepted_peer
  accept s non_block w = accepted_peer s non_block (kernel.accept4 s.sock_fd.value non_block w)

  -- The constructor of the client's socket, which opens nothing yet.
  unfoldable pub client_socket : ℕ → ℕ → Outcome ClientSocket
  unfolding ip_to_string htons
  client_socket addr port = do
    text ← ip_to_string addr
    ok (record { server_addr = text; addr_in = addr; port_in = htons port })

  -- The end of `Connect`, with what `socket` gives.
  connected_socket : ClientSocket → Bool → (ℕ ⊎ ℕ) × W → Outcome Connection × W
  unfolding unwind returned checked
  connected_socket s non_block (inl e, w) = (failure "Connect: Failed to create socket" e, w)
  connected_socket s non_block (inr fd, w) = unwind (wrap (some fd)) (
      then_do
        (λ w. checked "Connect: Failed to connect" tt (kernel.connect fd s.addr_in s.port_in w))
        (λ _. returned (wrap (some fd)) s.server_addr s.port_in non_block) w)

  unfoldable pub connect_socket : ClientSocket → Bool → Exec W Connection
  unfolding connected_socket
  connect_socket s non_block w = connected_socket s non_block (kernel.socket non_block w)
