-- ===== src/Server/Unknown.antt =====
-- Src/Server.cpp: packages with an id that no case of the `switch` has.
use roki_mb_daemon.Base.{
  ℕ, ◌<◌, ◌≡◌, ◌≢◌, ◌↔◌, ◌⊎◌, refl, ap, ◌∙◌, Bool, false, List, [], ◌++◌, ◌==◌, arith,
}
use roki_mb_daemon.Memory.{Memory}
use roki_mb_daemon.Memory.Laws.{Holds-write}
use roki_mb_daemon.RpcDefs.{to_str}
use roki_mb_daemon.Streams.{Healthy}
use roki_mb_daemon.Rpc.{Provider}
use roki_mb_daemon.Rpc.Empty.{recv_package-empty}
use roki_mb_daemon.Handler.Holder.{is_ok}
use roki_mb_daemon.Rpc.Receive.{filled}
use roki_mb_daemon.Rpc.Send.{packed, send_package_lem}
use roki_mb_daemon.Server.{
  Session, Server, unknown, decode, on_provider, dispatch_decoded, dispatch_package, after_send,
  after_dispatch, after_receive, serve_round,
}
use roki_mb_daemon.Server.Rounds.{IsReady, Answers}

-- The bytes that are the id of no procedure.
abbrev pub IsForeign : ℕ → Type 0
IsForeign id = (id ≡ 6) ⊎ (id ≡ 7) ⊎ (12 < id)

foreign_decode : (signed : Bool) (id : ℕ) (m : Memory) → IsForeign id → decode signed id m ≡ unknown
unfolding decode
foreign_decode signed id m h = ground arith

-- The `switch` of `DispatchPackage` and that of `ToStr` know the same procedures: apart from the error
-- code, an id has no case in the one exactly if it has none in the other.
pub decode-to_str :
    (signed : Bool) (id : ℕ) (m : Memory)
    → id ≢ 0
    → (decode signed id m ≡ unknown) ↔ (is_ok (to_str signed id) ≡ false)
unfolding decode to_str
decode-to_str signed id m n = (λ h. ground arith, λ h. ground arith)

module _ {H N : Type 0} (server : Server H N) (healthy : Healthy server.net) where
  open server use {char_signed, net}
  open healthy use {pending, sent}

  IsForeign-ne-code :
      (id : ℕ) (s : Session H N)
      → IsForeign id
      → IsReady server healthy s
      → id ≢ s.provider.err_code
  IsForeign-ne-code id s foreign ready = λ e. absurd (omega (arith, ready.code))

  -- A package with such an id and no content, on a healthy connection in its usual state, is sent back
  -- as it came.
  pub foreign_echoed :
      (id : ℕ) (rest : List ℕ) (s : Session H N)
      → IsForeign id
      → IsReady server healthy s
      → pending s.provider.network ≡ packed id [] ++ rest
      → Answers server healthy s s.handler (packed id []) rest
  unfolding serve_round on_provider after_receive after_dispatch dispatch_package dispatch_decoded
      after_send
  foreign_echoed id rest s foreign ready arrived =
      let (n, got, left, quiet) =
        recv_package-empty net healthy id rest s.provider (IsForeign-ne-code id s foreign ready)
          ready.full arrived in
      let t : Provider N = filled net healthy s.provider 0 (packed id []) n in
      let (k, went, order_, quiet') =
        send_package_lem net healthy char_signed id [] t (omega arith) ready.full
          (Holds-write s.provider.buffer.cells 0 (packed id [])) in
      let test : (id == s.provider.err_code) ≡ false =
        ground (arith, IsForeign-ne-code id s foreign ready) in
      (
        record s { provider = record t { network = k } },
        rw (got, test, foreign_decode char_signed id t.buffer foreign, went) refl,
        refl,
        order_ ∙ ap (λ b. b ++ packed id []) quiet,
        quiet' ∙ left,
        record { full = ready.full; code = ready.code },
        refl,
      )
