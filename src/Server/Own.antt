-- ===== src/Server/Own.antt =====
-- Src/Server.cpp: the procedures that the server performs by itself. They return a null pointer, which
-- `GenericHandler` dereferences; whether that passes is a parameter.
use roki_mb_daemon.Base.{
  ℕ, ◌≡◌, ◌≢◌, refl, ap, ◌∙◌, Bool, true, false, List, [], ◌++◌, ok, arith, length, ◌<◌,
}
use roki_mb_daemon.Memory.{write}
use roki_mb_daemon.Memory.Laws.{Holds, Holds-write}
use roki_mb_daemon.RpcDefs.ProcIds
use roki_mb_daemon.RpcDefs.{to_str}
use roki_mb_daemon.Streams.{Healthy}
use roki_mb_daemon.Rpc.{buf_size, Provider, pack_msg}
use roki_mb_daemon.Rpc.Receive.{header_of}
use roki_mb_daemon.Rpc.Send.{packed, pack_msg_lem, send_package_lem}
use roki_mb_daemon.Server.{
  Session, Server, null_empty, Order, shutdown_order, ping_order, block_order, decode, reply_size,
  serialize_reply, again, faulted, perform, on_provider, returning, pack_reply, generic_handler,
  dispatch_decoded, dispatch_package, after_send, after_dispatch, serve_round,
}
use roki_mb_daemon.Server.Rounds.{IsReady, round_receives}
use roki_mb_daemon.Handler.{Reply}

-- The procedures, with their ids and the state of `DoShutdown` after them.
pub data Own : ℕ → Order → Type 0 where
  ping : Own ProcIds.ping ping_order
  block : Own ProcIds.debug_block block_order
  shutdown : Own ProcIds.shutdown shutdown_order

abbrev pub shut_by : {id : ℕ} {o : Order} → Own id o → Bool → Bool
shut_by shutdown b = true
shut_by ping b = b
shut_by block b = b

module _ {H N : Type 0} (server : Server H N) (healthy : Healthy server.net) where
  open server use {char_signed, net}
  open healthy use {pending, sent}

  Own-dispatch :
      {id : ℕ} {o : Order} (own : Own id o) (payload : List ℕ) (s : Session H N)
      → dispatch_package server (header_of 0 id payload) s
        ≡ pack_reply server id null_empty (record s { do_shutdown = shut_by own s.do_shutdown })
  unfolding dispatch_package dispatch_decoded decode generic_handler perform returning to_str
  Own-dispatch ping payload s = refl
  Own-dispatch block payload s = refl
  Own-dispatch shutdown payload s = refl

  pack_no_content :
      (id : ℕ) (s : Session H N)
      → server.null_reply_passes ≡ true
      → pack_reply server id null_empty s
        ≡ on_provider server (pack_msg id 0 (serialize_reply char_signed Reply.no_content)) s
  unfolding pack_reply
  pack_no_content id s passes = ground arith

  Own-ne-zero : {id : ℕ} {o : Order} → Own id o → id ≢ 0
  Own-ne-zero ping = λ e. absurd (omega arith)
  Own-ne-zero block = λ e. absurd (omega arith)
  Own-ne-zero shutdown = λ e. absurd (omega arith)

  -- A null pointer to an `Empty`, where packing it passes, is answered by the id alone.
  pub null_replies :
      (id : ℕ) (payload rest : List ℕ) (b : Bool) (s : Session H N)
      → server.null_reply_passes ≡ true
      → id ≢ 0
      → length payload < buf_size
      → ((t : Provider N)
          → Holds t.buffer.cells 0 payload
          → t.buffer.size ≡ buf_size
          → dispatch_package server (header_of 0 id payload) (record s { provider = t })
            ≡ pack_reply server id null_empty (record s { provider = t; do_shutdown = b }))
      → IsReady server healthy s
      → pending s.provider.network ≡ packed id payload ++ rest
      → (t : Session H N) × (serve_round server s ≡ (again, t))
        × (t.handler ≡ s.handler)
        × (t.do_shutdown ≡ b)
        × (sent t.provider.network ≡ sent s.provider.network ++ packed id [])
        × (pending t.provider.network ≡ rest)
  unfolding after_dispatch pack_reply after_send on_provider reply_size serialize_reply write
  null_replies id payload rest b s passes n short dispatched ready arrived =
      let (t, ran, after) = round_receives server healthy id payload rest s n short ready arrived in
      let full : t.buffer.size ≡ buf_size = after.3 ∙ ready.full in
      let p : Provider N = record t {
        buffer = record t.buffer { cells = write t.buffer.cells 0 (packed id []) };
      } in
      let (k, went, order_, quiet) =
        send_package_lem net healthy char_signed id [] p (omega arith) full
          (Holds-write t.buffer.cells 0 (packed id [])) in
      let packed_ : pack_msg id 0 (serialize_reply char_signed Reply.no_content) t ≡ (ok tt, p) =
        pack_msg_lem id [] (serialize_reply char_signed Reply.no_content) t (omega arith) full
          (λ m h. refl) in
      (
        record s { provider = record p { network = k }; do_shutdown = b },
        ran
            ∙ rw
                (
                  dispatched t after.2 full,
                  pack_no_content id (record s { provider = t; do_shutdown = b }) passes,
                  packed_,
                  went,
                )
                refl,
        refl,
        refl,
        order_ ∙ ap (λ b. b ++ packed id []) after.1,
        quiet ∙ after.0,
      )

  module _ {id : ℕ} {o : Order} (own : Own id o) (rest : List ℕ) (s : Session H N)
      (ready : IsReady server healthy s)
      (arrived : pending s.provider.network ≡ packed id [] ++ rest) where
    -- Where a read through the null pointer is undefined, each of `Ping`, `DebugBlock` and `Shutdown`
    -- that arrives on a healthy connection in its usual state is undefined behaviour of the daemon.
    pub own_faults : server.null_reply_passes ≡ false → (serve_round server s).0 ≡ faulted
    unfolding after_dispatch pack_reply
    own_faults null =
        let (t, ran, after) =
          round_receives server healthy id [] rest s (Own-ne-zero own) (omega arith) ready
            arrived in
        ap (λ q. q.0) ran ∙ rw (Own-dispatch own [] (record s { provider = t }), null) refl

    -- Where it passes, each of them is answered by its own id with no content; the handler is left as it
    -- is, and `DoShutdown` is set by `Shutdown` alone. The connection is healthy and in its usual state.
    pub own_replies :
        server.null_reply_passes ≡ true
        → (t : Session H N) × (serve_round server s ≡ (again, t))
          × (t.handler ≡ s.handler)
          × (t.do_shutdown ≡ shut_by own s.do_shutdown)
          × (sent t.provider.network ≡ sent s.provider.network ++ packed id [])
          × (pending t.provider.network ≡ rest)
    own_replies passes =
        null_replies id [] rest (shut_by own s.do_shutdown) s passes (Own-ne-zero own) (omega arith)
          (λ t h f. Own-dispatch own [] (record s { provider = t })) ready arrived
