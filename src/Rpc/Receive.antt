-- ===== src/Rpc/Receive.antt =====
-- Src/RPC.cpp: what `RecvToBuffer` and `RecvPackage` take from the connection.
use roki_mb_daemon.Base.{
  ℕ, zero, suc, ◌+◌, ◌-◌, ◌≤◌, ◌<◌, ◌≡◌, ◌≢◌, refl, sym, ap, ◌∙◌, true, List, [], ◌∷◌, ◌++◌,
  Outcome, ok, hang, arith, length, length-append, ltb, if◌then◌else◌, not, ◌==◌, str,
}
use roki_mb_daemon.Memory.{write, write_bytes}
use roki_mb_daemon.Memory.Laws.{Holds, Holds-write, Holds-head, Holds-tail, write-append}
use roki_mb_daemon.Streams.{Network, RecvResult, received, recv_failed, Healthy}
use roki_mb_daemon.RpcDefs.Encoding.{write_bytes_lem}
use roki_mb_daemon.RpcDefs.RoundTrip.{read_bytes_lem}
use roki_mb_daemon.Rpc.{
  buf_size, Provider, MsgHeader, absorb, recv_loop, recv_to_buffer, recv_package, finish_package,
}

-- Two ways to cut one list.
pub cut :
    (bs rest xs p : List ℕ)
    → bs ++ rest ≡ xs ++ p
    → length xs ≤ length bs
    → (ys : List ℕ) × (bs ≡ xs ++ ys) × (p ≡ ys ++ rest)
cut bs rest [] p e h = (bs, refl, sym e)
cut [] rest (x ∷ xs) p e h = absurd (omega arith)
cut (b ∷ bs) rest (x ∷ xs) p e h =
    let (ys, q, r) = cut bs rest xs p (cc) (omega arith) in (ys, cc, r)

-- The header of a package with this id and payload.
abbrev pub header_of : ℕ → ℕ → List ℕ → MsgHeader
header_of err_code id payload = record {
  is_ok = not (id == err_code);
  msg = if not (id == err_code) then str "OK" else payload;
  proc_id = id;
  size = length payload;
}

module _ {N : Type 0} (net : Network N) where
  absorb-ne-hang :
      (again : ℕ → Provider N → Outcome (Unit {0}) × Provider N) (total : ℕ) (r : RecvResult)
      (s : Provider N)
      → ((i : ℕ) (t : Provider N) → total < i → (again i t).0 ≢ hang)
      → (absorb again total r s).0 ≢ hang
  unfolding absorb write_bytes
  absorb-ne-hang again total (recv_failed e) s h = λ e. cc
  absorb-ne-hang again total (received []) s h = λ e. cc
  absorb-ne-hang again total (received (b ∷ rest)) s h = ground (
    arith,
    h (total + suc (length rest))
        (record s { buffer = record s.buffer { cells = write s.buffer.cells total (b ∷ rest) } }),
  )

  recv_loop-ne-hang :
      (fuel total size : ℕ) (s : Provider N)
      → size ≤ total + fuel
      → (recv_loop net fuel total size s).0 ≢ hang
  unfolding recv_loop
  recv_loop-ne-hang zero total size s h = ground arith
  recv_loop-ne-hang (suc fuel) total size s h = ground (
    arith,
    absorb-ne-hang (λ i. recv_loop net fuel i size) total (net.recv (size - total) s.network).0
        (record s { network = (net.recv (size - total) s.network).1 })
        (λ i t lt. recv_loop-ne-hang fuel i size t (omega arith)),
  )

  -- `RecvToBuffer` ends on every connection, healthy or not: `size` rounds are enough.
  pub recv_to_buffer-ne-hang : (size : ℕ) (s : Provider N) → (recv_to_buffer net size s).0 ≢ hang
  unfolding recv_to_buffer
  recv_to_buffer-ne-hang size s = recv_loop-ne-hang size 0 size s (omega arith)

module _ {N : Type 0} (net : Network N) (healthy : Healthy net) where
  open healthy use {pending, sent, recv_prefix}

  abbrev pub filled : Provider N → ℕ → List ℕ → N → Provider N
  filled s p bs n = record s {
    network = n;
    buffer = record s.buffer { cells = write s.buffer.cells p bs };
  }

  recv_step :
      (fuel total size x : ℕ) (xs : List ℕ) (n : N) (s : Provider N)
      → total < size
      → net.recv (size - total) s.network ≡ (received (x ∷ xs), n)
      → total + suc (length xs) ≤ s.buffer.size
      → recv_loop net (suc fuel) total size s
        ≡ recv_loop net fuel (total + suc (length xs)) size (filled s total (x ∷ xs) n)
  unfolding recv_loop
  recv_step fuel total size x xs n s lt e fits =
      let test : ltb total size ≡ true = ground arith in
      rw (test, e, write_bytes_lem s.buffer total (x ∷ xs) fits)

  -- The loop returns with the bytes in the buffer and the rest still to be received.
  abbrev Filled : ℕ → ℕ → ℕ → List ℕ → List ℕ → Provider N → Type 0
  Filled fuel total size bs rest s =
      (n : N) × (recv_loop net fuel total size s ≡ (ok tt, filled s total bs n))
      × (pending n ≡ rest)
      × (sent n ≡ sent s.network)

  -- One round has received `xs`, and `ih` speaks of the rounds after it.
  recv_more :
      (fuel total size : ℕ) (bs rest : List ℕ) (s : Provider N) (xs : List ℕ) (n : N)
      → total + length bs ≡ size
      → size ≤ s.buffer.size
      → pending s.network ≡ bs ++ rest
      → net.recv (size - total) s.network ≡ (received xs, n)
      → 0 < length xs
      → length xs ≤ size - total
      → pending s.network ≡ xs ++ pending n
      → sent n ≡ sent s.network
      → ((ys : List ℕ)
          → length ys < length bs
          → total + length xs + length ys ≡ size
          → pending n ≡ ys ++ rest
          → Filled fuel (total + length xs) size ys rest (filled s total xs n))
      → Filled (suc fuel) total size bs rest s
  recv_more fuel total size bs rest s [] n e fits p got some_ few order quiet ih =
      absurd (omega arith)
  recv_more fuel total size bs rest s (x ∷ xs) n e fits p got some_ few order quiet ih =
      let (ys, split, left) = cut bs rest (x ∷ xs) (pending n) (sym p ∙ order) (omega arith) in
      let counted : length bs ≡ suc (length xs) + length ys =
        ap length split ∙ length-append (x ∷ xs) ys in
      let (n', ran, at_end, quiet') = ih ys (omega arith) (omega arith) left in
      let step = recv_step fuel total size x xs n s (omega arith) got (omega arith) in
      let joined : write (write s.buffer.cells total (x ∷ xs)) (total + suc (length xs)) ys
          ≡ write s.buffer.cells total bs =
        write-append s.buffer.cells total (x ∷ xs) ys
        ∙ ap (write s.buffer.cells total) (sym split) in
      (
        n',
        step
            ∙ ran
            ∙ ap (λ c. (ok tt, record s { network = n'; buffer = record s.buffer { cells = c } }))
                joined,
        at_end,
        quiet' ∙ quiet,
      )

  pub recv_loop_lem :
      (fuel total size : ℕ) (bs rest : List ℕ) (s : Provider N)
      → length bs ≤ fuel
      → total + length bs ≡ size
      → size ≤ s.buffer.size
      → pending s.network ≡ bs ++ rest
      → Filled fuel total size bs rest s
  recv_loop_lem zero total size [] rest s h e fits p =
      (s.network, unfold recv_loop write in ground arith, p, refl)
  recv_loop_lem zero total size (b ∷ bs) rest s h e fits p = absurd (omega arith)
  recv_loop_lem (suc fuel) total size [] rest s h e fits p =
      (s.network, unfold recv_loop write in ground arith, p, refl)
  recv_loop_lem (suc fuel) total size (b ∷ bs) rest s h e fits p =
      let (xs, n, got, some_, few, order, quiet) =
        recv_prefix (size - total) s.network (omega arith) (rw p (omega arith)) in
      recv_more fuel total size (b ∷ bs) rest s xs n e fits p got some_ few order quiet
        λ ys less e' left.
          recv_loop_lem fuel (total + length xs) size ys rest (filled s total xs n) (omega arith) e'
            fits left

  -- `RecvToBuffer` of what fits the buffer, on a healthy connection on which enough bytes arrive: it returns with them at the
  -- start of the buffer, however the kernel cuts them, and takes no byte more.
  pub recv_to_buffer_lem :
      (bs rest : List ℕ) (s : Provider N)
      → length bs ≤ s.buffer.size
      → pending s.network ≡ bs ++ rest
      → (n : N) × (recv_to_buffer net (length bs) s ≡ (ok tt, filled s 0 bs n))
        × (pending n ≡ rest)
        × (sent n ≡ sent s.network)
  unfolding recv_to_buffer
  recv_to_buffer_lem bs rest s fits p =
      recv_loop_lem (length bs) 0 (length bs) bs rest s (omega arith) (omega arith) fits p

  -- What `RecvPackage` leaves: the payload at the start of the buffer, the rest not yet received.
  abbrev pub Unpacked : List ℕ → List ℕ → Provider N → Provider N → Type 0
  Unpacked payload rest s t =
      (pending t.network ≡ rest)
      × (sent t.network ≡ sent s.network)
      × Holds t.buffer.cells 0 payload
      × (t.buffer.size ≡ s.buffer.size)
      × (t.err_code ≡ s.err_code)

  finish_package_lem :
      (id : ℕ) (payload rest : List ℕ) (s : Provider N)
      → length payload ≤ s.buffer.size
      → pending s.network ≡ payload ++ rest
      → (t : Provider N) × (finish_package net id (length payload) s
          ≡ (ok (header_of s.err_code id payload), t))
        × Unpacked payload rest s t
  unfolding finish_package
  finish_package_lem id payload rest s fits p =
      let (n, ran, left, quiet) = recv_to_buffer_lem payload rest s fits p in
      let t : Provider N = filled s 0 payload n in
      let held : Holds t.buffer.cells 0 payload = Holds-write s.buffer.cells 0 payload in
      (
        t,
        rw (ran, read_bytes_lem t.buffer 0 (length payload) (omega arith), held.at) (ground arith),
        (left, quiet, held, refl, refl),
      )

  -- `RecvPackage`, into a buffer of 256 bytes, on a healthy connection on which a whole package of less
  -- than 256 bytes of payload arrives: it returns the id and the size, with the payload at the start of
  -- the buffer and as the message if the id is the error code, and it takes no byte more.
  pub recv_package_lem :
      (id : ℕ) (payload rest : List ℕ) (s : Provider N)
      → length payload < buf_size
      → s.buffer.size ≡ buf_size
      → pending s.network ≡ id ∷ length payload ∷ (payload ++ rest)
      → (t : Provider N) × (recv_package net s ≡ (ok (header_of s.err_code id payload), t))
        × Unpacked payload rest s t
  unfolding recv_package write
  recv_package_lem id payload rest s small full p =
      let head : List ℕ = id ∷ length payload ∷ [] in
      let (n, ran, left, quiet) = recv_to_buffer_lem head (payload ++ rest) s (omega arith) p in
      let held : Holds (write s.buffer.cells 0 head) 0 head = Holds-write s.buffer.cells 0 head in
      let mid : Provider N = filled s 0 head n in
      let id_read = Holds-head mid.buffer.cells 0 id (length payload ∷ []) held in
      let tail = Holds-tail mid.buffer.cells 0 id (length payload ∷ []) held in
      let size_read = Holds-head mid.buffer.cells 1 (length payload) [] tail in
      let (t, done, after) = finish_package_lem id payload rest mid (omega arith) left in
      (t, rw (ran, id_read, size_read) done, (after.0, after.1 ∙ quiet, after.2, after.3, after.4))
