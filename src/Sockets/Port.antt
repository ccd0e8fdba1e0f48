-- ===== src/Sockets/Port.antt =====
-- Src/Socket.cpp: the port that a `ServerSocket` remembers.
use roki_mb_daemon.Base.{
  ℕ, ◌%◌, ◌^◌, ◌≡◌, refl, ◌⊎◌, inl, inr, false, Option, none, some, Outcome, ok, throw, fault, hang,
  Outcome-cases, Option-cases,
}
use roki_mb_daemon.Sockets.{
  Kernel, ServerSocket, DescriptorWrapper, wrap, htons, move_assign, unwind, checked, ip_to_string,
  bind_and_listen, take_over, opened, server_socket,
}

-- The port that the object remembers is the one that was asked for, in 16 bits.
abbrev pub OnPort : ℕ → Outcome ServerSocket → Type 0
OnPort port (ok s) = s.server_port ≡ port % 2 ^ 16
OnPort port r = Unit {0}

module _ {W : Type 0} (kernel : Kernel W) (addr port backlog : ℕ) where
  unwind-OnPort :
      (d : DescriptorWrapper) (x : Outcome ServerSocket × W)
      → OnPort port x.0
      → OnPort port (unwind kernel d x).0
  unfolding unwind
  unwind-OnPort d (ok s, w) h = h
  unwind-OnPort d (throw e, w) h = tt
  unwind-OnPort d (fault, w) h = tt
  unwind-OnPort d (hang, w) h = tt

  listening-OnPort :
      (fd : ℕ) (s : ServerSocket) (w : W)
      → s.server_port ≡ port % 2 ^ 16
      → OnPort port (bind_and_listen kernel addr port backlog fd s w).0
  unfolding bind_and_listen checked
  listening-OnPort fd s w h = elim (Option-cases (kernel.bind fd addr (htons port) w).0) [
    | inl e ↦ rw e (heard (kernel.listen fd backlog (kernel.bind fd addr (htons port) w).1))
    | inr (x, e) ↦ rw e tt
  ]
    where
      heard :
          (r : Option ℕ × W) → OnPort port (checked kernel "ServerSocket: listen() failed" s r).0
      heard (none, w) = h
      heard (some e, w) = tt

  opened-OnPort : (r : (ℕ ⊎ ℕ) × W) → OnPort port (opened kernel addr port backlog r).0
  unfolding opened take_over unwind move_assign
  opened-OnPort (inl e, w) = tt
  opened-OnPort (inr fd, w) = elim (Outcome-cases (ip_to_string kernel addr)) [
    | inl (text, e) ↦ rw e (unwind-OnPort (wrap (some fd)) _ (listening-OnPort fd _ _ refl))
    | inr (inl (x, e)) ↦ rw e tt
    | inr (inr (inl e)) ↦ rw e tt
    | inr (inr (inr e)) ↦ rw e tt
  ]

  pub server_socket-OnPort : (w : W) → OnPort port (server_socket kernel addr port backlog w).0
  unfolding server_socket
  server_socket-OnPort w = opened-OnPort (kernel.socket false w)
