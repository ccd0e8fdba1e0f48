-- ===== src/Rpc/Send.antt =====
-- Src/RPC.cpp: what `PackMsg`, `PackError` and `SendPackage` put on the connection.
use roki_mb_daemon.Base.{
  ℕ, suc, ◌+◌, ◌%◌, ◌^◌, ◌≤◌, ◌≡◌, refl, Bool, true, false, List, [], ◌∷◌, ◌++◌, Outcome, ok, arith,
  length, ltb, then_do,
}
use roki_mb_daemon.Memory.{Memory, write}
use roki_mb_daemon.Memory.Laws.{Holds, Holds-write, Holds-head, Holds-tail}
use roki_mb_daemon.Streams.{Network, Healthy}
use roki_mb_daemon.RpcDefs.Encoding.{write_bytes_lem, max_text, as_size_lem}
use roki_mb_daemon.Rpc.{buf_size, Provider, pack_error, pack_msg, send_package}
use roki_mb_daemon.Rpc.SendLoop.{Sent, send_from_buffer_lem}

-- The bytes of a package.
abbrev pub packed : ℕ → List ℕ → List ℕ
packed id payload = id ∷ length payload ∷ payload

-- A message whose `Serialize` writes these bytes.
abbrev pub Writes : (Memory → ℕ → Outcome Memory) → List ℕ → Type 0
Writes serialize bs =
    (m : Memory)
    → 2 + length bs ≤ m.size
    → serialize m 2 ≡ ok (record m { cells = write m.cells 2 bs })

pub max_text-ge : (signed : Bool) → 100 ≤ max_text signed
max_text-ge true = omega arith
max_text-ge false = omega arith

pub max_text-le : (signed : Bool) → max_text signed ≤ 254
max_text-le true = omega arith
max_text-le false = omega arith

pub pack_msg_lem :
    {N : Type 0} (id : ℕ) (bs : List ℕ) (serialize : Memory → ℕ → Outcome Memory) (s : Provider N)
    → length bs ≤ 254
    → s.buffer.size ≡ buf_size
    → Writes serialize bs
    → pack_msg id (length bs) serialize s ≡ (
      ok tt,
      record s { buffer = record s.buffer { cells = write s.buffer.cells 0 (packed id bs) } },
    )
unfolding pack_msg write
pack_msg_lem id bs serialize s small full writes = rw (
  write_bytes_lem s.buffer 0 (id ∷ length bs ∷ []) (omega arith),
  writes (record s.buffer { cells = write s.buffer.cells 0 (id ∷ length bs ∷ []) }) (omega arith),
)

module _ {N : Type 0} (net : Network N) (healthy : Healthy net) where
  open healthy use {pending, sent}

  -- `SendPackage` puts the whole package on a healthy connection where its size is one that a `char`
  -- can count.
  pub send_package_lem :
      (signed : Bool) (id : ℕ) (payload : List ℕ) (s : Provider N)
      → length payload ≤ max_text signed
      → s.buffer.size ≡ buf_size
      → Holds s.buffer.cells 0 (packed id payload)
      → Sent net healthy (send_package net signed s) (packed id payload) s
  unfolding send_package
  send_package_lem signed id payload s small full held =
      let tail = Holds-tail s.buffer.cells 0 id (length payload ∷ payload) held in
      let size_read = Holds-head s.buffer.cells 1 (length payload) payload tail in
      let count : (length payload + 2) % 2 ^ 64 ≡ length (packed id payload) =
        omega (arith, max_text-le signed) in
      rw (size_read, as_size_lem signed (length payload) small, count)
        (send_from_buffer_lem net healthy (packed id payload) s (omega (arith, max_text-le signed))
          held)

  -- A message that is packed into a buffer of 256 bytes and sent puts its package on a healthy connection,
  -- and nothing else, where its packed size is one that a `char` can count.
  pub pack_send :
      (signed : Bool) (id : ℕ) (bs : List ℕ) (serialize : Memory → ℕ → Outcome Memory)
      (s : Provider N)
      → length bs ≤ max_text signed
      → s.buffer.size ≡ buf_size
      → Writes serialize bs
      → (n : N) × (t : Provider N) × (then_do
            (pack_msg id (length bs) serialize)
            (λ _. send_package net signed)
            s
          ≡ (ok tt, t))
        × (t.network ≡ n)
        × (sent n ≡ sent s.network ++ packed id bs)
        × (pending n ≡ pending s.network)
        × (t.buffer.size ≡ buf_size)
        × (t.err_code ≡ s.err_code)
  pack_send signed id bs serialize s small full writes =
      let t : Provider N = record s {
        buffer = record s.buffer { cells = write s.buffer.cells 0 (packed id bs) };
      } in
      let (n, ran, order, quiet) =
        send_package_lem signed id bs t small full (Holds-write s.buffer.cells 0 (packed id bs)) in
      (
        n,
        record t { network = n },
        rw (pack_msg_lem id bs serialize s (omega (arith, max_text-le signed)) full writes) ran,
        refl,
        order,
        quiet,
        full,
        refl,
      )

  -- On a healthy connection and with a buffer of 256 bytes, `PackError` sends the package of the error by itself, where the message has
  -- at most 254 bytes.
  pub pack_error_lem :
      (msg : List ℕ) (s : Provider N)
      → length msg ≤ 254
      → s.buffer.size ≡ buf_size
      → (n : N) × (pack_error net msg s ≡ (
        ok tt,
        record s {
          network = n;
          buffer = record s.buffer { cells = write s.buffer.cells 0 (packed s.err_code msg) };
        },
      ))
        × (sent n ≡ sent s.network ++ packed s.err_code msg)
        × (pending n ≡ pending s.network)
  unfolding pack_error write
  pack_error_lem msg s small full =
      let t : Provider N = record s {
        buffer = record s.buffer { cells = write s.buffer.cells 0 (packed s.err_code msg) };
      } in
      let (n, ran, order, quiet) =
        send_from_buffer_lem net healthy (packed s.err_code msg) t (omega arith)
          (Holds-write s.buffer.cells 0 (packed s.err_code msg)) in
      let test : ltb 255 (length msg) ≡ false = ground arith in
      let count : length msg + 2 ≡ suc (suc (length msg)) = omega arith in
      (
        n,
        rw
            (
              test,
              write_bytes_lem s.buffer 0 (s.err_code ∷ length msg ∷ []) (omega arith),
              write_bytes_lem
                  (record s.buffer {
                    cells = write s.buffer.cells 0 (s.err_code ∷ length msg ∷ []);
                  })
                  2 msg (omega arith),
              count,
            )
            ran,
        order,
        quiet,
      )
