-- ===== src/Rpc/Empty.antt =====
-- Src/RPC.cpp: a package with no payload leaves its own header in the buffer.
use roki_mb_daemon.Base.{ℕ, ◌≡◌, ◌≢◌, refl, ap, ◌∙◌, false, List, [], ◌∷◌, ok, arith, ◌==◌}
use roki_mb_daemon.Memory.Laws.{Holds-write, Holds-head, Holds-tail}
use roki_mb_daemon.Streams.{Network, Healthy}
use roki_mb_daemon.Rpc.{buf_size, Provider, recv_loop, recv_to_buffer, recv_package, finish_package}
use roki_mb_daemon.Rpc.Receive.{header_of, filled, recv_to_buffer_lem}

module _ {N : Type 0} (net : Network N) (healthy : Healthy net) where
  open healthy use {pending, sent}

  recv_none : (s : Provider N) → recv_to_buffer net 0 s ≡ (ok tt, s)
  unfolding recv_to_buffer recv_loop
  recv_none s = refl

  finish_none :
      (id : ℕ) (s : Provider N)
      → id ≢ s.err_code
      → finish_package net id 0 s ≡ (ok (header_of s.err_code id []), s)
  unfolding finish_package
  finish_none id s n =
      let test : (id == s.err_code) ≡ false = ground arith in rw (recv_none s, test) refl

  pub recv_package-empty :
      (id : ℕ) (rest : List ℕ) (s : Provider N)
      → id ≢ s.err_code
      → s.buffer.size ≡ buf_size
      → pending s.network ≡ id ∷ 0 ∷ rest
      → (n : N) × (recv_package net s
          ≡ (ok (header_of s.err_code id []), filled net healthy s 0 (id ∷ 0 ∷ []) n))
        × (pending n ≡ rest)
        × (sent n ≡ sent s.network)
  unfolding recv_package
  recv_package-empty id rest s foreign full p =
      let head : List ℕ = id ∷ 0 ∷ [] in
      let (n, ran, left, quiet) = recv_to_buffer_lem net healthy head rest s (omega arith) p in
      let mid : Provider N = filled net healthy s 0 head n in
      let held = Holds-write s.buffer.cells 0 head in
      let id_read : mid.buffer.cells 0 ≡ id = Holds-head mid.buffer.cells 0 id (0 ∷ []) held in
      let size_read : mid.buffer.cells 1 ≡ 0 =
        Holds-head mid.buffer.cells 1 0 [] (Holds-tail mid.buffer.cells 0 id (0 ∷ []) held) in
      let last : finish_package net (mid.buffer.cells 0) (mid.buffer.cells 1) mid
          ≡ (ok (header_of s.err_code id []), mid) =
        ap (λ k. finish_package net k (mid.buffer.cells 1) mid) id_read
        ∙ ap (λ k. finish_package net id k mid) size_read
        ∙ finish_none id mid foreign in
      (n, rw ran last, left, quiet)
