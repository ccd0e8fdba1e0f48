-- ===== src/Client/Farewell.antt =====
-- Src/Client.cpp: what `SoftDisconnect` sends.
use roki_mb_daemon.Base.{
  ℕ, ◌≤◌, ◌≡◌, refl, ap, ◌∙◌, Bool, true, false, List, ◌++◌, ok, str, arith, length,
}
use mathlib.Core.List.{append_assoc}
use roki_mb_daemon.Memory.{write}
use roki_mb_daemon.Memory.Laws.{Holds-write}
use roki_mb_daemon.RpcDefs.Encoding.{max_text}
use roki_mb_daemon.Streams.{Network, Healthy}
use roki_mb_daemon.Rpc.{Provider}
use roki_mb_daemon.Rpc.Send.{packed, send_package_lem, pack_error_lem}
use roki_mb_daemon.Client.{soft_disconnect}
use roki_mb_daemon.Client.Calls.{IsClient, Called}

-- The package of `SoftDisconnect`.
abbrev pub farewell : List ℕ
farewell = packed 0 (str "Disconnect")

length-msg : length (str "Disconnect") ≡ 10
unfolding str
length-msg = refl

short_enough : (signed : Bool) → length (str "Disconnect") ≤ max_text signed
short_enough true = omega (arith, length-msg)
short_enough false = omega (arith, length-msg)

module _ {N : Type 0} (net : Network N) (healthy : Healthy net) (signed : Bool) where
  open healthy use {pending, sent}

  -- On a healthy connection `SoftDisconnect` returns, and sends its package twice: `PackError` sends it
  -- already, and `SendPackage` sends what is in the buffer again.
  pub soft_disconnect-twice :
      (s : Provider N)
      → IsClient net healthy signed s
      → (t : Provider N) × (soft_disconnect net signed s ≡ (ok tt, t))
        × Called net healthy signed (farewell ++ farewell) (pending s.network) s t
  unfolding soft_disconnect
  soft_disconnect-twice s (full, code) =
      let msg : List ℕ = str "Disconnect" in
      let (n, packs, order, quiet) =
        pack_error_lem net healthy msg s (omega (arith, length-msg)) full in
      let t : Provider N = record s {
        network = n;
        buffer = record s.buffer { cells = write s.buffer.cells 0 (packed s.err_code msg) };
      } in
      let (n', sends, order', quiet') =
        send_package_lem net healthy signed s.err_code msg t (short_enough signed) full
          (Holds-write s.buffer.cells 0 (packed s.err_code msg)) in
      let bye : packed s.err_code msg ≡ farewell = ap (λ c. packed c msg) code in
      let joined : sent n' ≡ sent s.network ++ (farewell ++ farewell) =
        order'
        ∙ ap (λ xs. xs ++ packed s.err_code msg) order
        ∙ append_assoc (sent s.network) (packed s.err_code msg) (packed s.err_code msg)
        ∙ ap (λ xs. sent s.network ++ (xs ++ xs)) bye in
      (record t { network = n' }, rw (packs, sends) refl, (joined, quiet' ∙ quiet, (full, code)))
