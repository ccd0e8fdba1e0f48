-- ===== src/Rpc/Limits.antt =====
-- Src/RPC.cpp: messages that are too long for `PackError` and sizes that a signed `char` cannot hold.
use roki_mb_daemon.Base.{
  ℕ, zero, suc, ◌≤◌, ◌<◌, ◌≡◌, true, List, throw, fault, arith, length, runtime_error, str,
}
use roki_mb_daemon.Memory.{write_bytes, read_bytes, as_size}
use roki_mb_daemon.Streams.{Network}
use roki_mb_daemon.Rpc.{buf_size, Provider, send_loop, send_from_buffer, pack_error, send_package}

module _ {N : Type 0} (net : Network N) where
  -- A message of 255 bytes passes the test of `PackError`, and its copy into the buffer of 256 bytes is
  -- out of bounds.
  pub pack_error-overflow :
      (msg : List ℕ) (s : Provider N)
      → length msg ≡ 255
      → s.buffer.size ≡ buf_size
      → (pack_error net msg s).0 ≡ fault
  unfolding pack_error write_bytes
  pack_error-overflow msg s e full = ground arith

  pub pack_error_refuses :
      (msg : List ℕ) (s : Provider N)
      → 255 < length msg
      → pack_error net msg s
        ≡ (throw (runtime_error (str "PackError: Message to big to fit inside package")), s)
  unfolding pack_error
  pack_error_refuses msg s h = ground arith

  send_from_buffer-overrun :
      (n : ℕ) (s : Provider N) → s.buffer.size < n → send_from_buffer net n s ≡ (fault, s)
  unfolding send_from_buffer send_loop read_bytes
  send_from_buffer-overrun zero s h = absurd (omega arith)
  send_from_buffer-overrun (suc n) s h = ground arith

  -- Where `char` is signed, sending a package whose size byte is from 128 to 253 reads past the buffer of
  -- 256 bytes.
  pub send_package-signed :
      (s : Provider N)
      → s.buffer.size ≡ buf_size
      → 128 ≤ s.buffer.cells 1
      → s.buffer.cells 1 < 254
      → send_package net true s ≡ (fault, s)
  unfolding send_package as_size
  send_package-signed s full lo hi = send_from_buffer-overrun _ s (ground arith)
