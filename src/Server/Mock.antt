-- ===== src/Server/Mock.antt =====
-- Src/HandlerMock.cpp behind the loop of Src/Server.cpp: every procedure returns a null pointer.
use roki_mb_daemon.Base.{
  ℕ, ◌≡◌, refl, ap, ◌∙◌, Bool, true, false, List, [], ◌++◌, fault, not, ◌&&◌, arith,
}
use roki_mb_daemon.Streams.{Healthy, Network}
use roki_mb_daemon.Memory.Laws.{Holds}
use roki_mb_daemon.Rpc.{buf_size, Provider}
use roki_mb_daemon.Rpc.Receive.{header_of}
use roki_mb_daemon.Rpc.Send.{packed}
use roki_mb_daemon.Server.{
  Session, Server, again, faulted, perform, returning, pack_reply, generic_handler,
  dispatch_decoded, dispatch_package, after_dispatch, serve_round,
}
use roki_mb_daemon.Server.Handlers.{handler_mock, has_content, mock_reply}
use roki_mb_daemon.Server.Rounds.{IsReady, Asks, round_receives}
use roki_mb_daemon.Server.Own.{null_replies}

-- A server with the mock.
abbrev pub mock_server : {N : Type 0} → Bool → Network N → (ℕ → List ℕ) → Bool → Server (Unit {0}) N
mock_server signed net strerror passes = record {
  interface = handler_mock;
  char_signed = signed;
  net = net;
  strerror = strerror;
  null_reply_passes = passes;
}

module _ {N : Type 0} (signed : Bool) (net : Network N) (strerror : ℕ → List ℕ) (passes : Bool)
    (healthy : Healthy net) where
  open healthy use {pending, sent}

  abbrev server : Server (Unit {0}) N
  server = mock_server signed net strerror passes

  module _ (id : ℕ) (payload rest : List ℕ) (content : Bool) (s : Session (Unit {0}) N)
      (asks : Asks server healthy id payload (λ r. has_content r ≡ content))
      (ready : IsReady server healthy s)
      (arrived : pending s.provider.network ≡ packed id payload ++ rest) where
    mock-dispatch :
        (t : Provider N)
        → Holds t.buffer.cells 0 payload
        → t.buffer.size ≡ buf_size
        → dispatch_package server (header_of 0 id payload) (record s { provider = t })
          ≡ pack_reply server id (mock_reply content) (record s { provider = t })
    unfolding dispatch_package dispatch_decoded generic_handler perform returning
    mock-dispatch t held full =
        let (n, short, dec, (name, e)) = asks in
        let (r, d, good) = dec t.buffer held full in rw (d, e, good) refl

    pack_null :
        (t : Session (Unit {0}) N)
        → (passes && not content) ≡ false
        → pack_reply server id (mock_reply content) t ≡ (fault, t)
    unfolding pack_reply mock_reply
    pack_null t null = ground arith

    -- With the mock, a request on a healthy connection in its usual state is undefined behaviour of the
    -- daemon wherever packing a null pointer is: for a reply with content, which is the port's path or the
    -- status, and for every reply unless packing an empty one passes.
    pub mock_faults : (passes && not content) ≡ false → (serve_round server s).0 ≡ faulted
    unfolding after_dispatch
    mock_faults null =
        let (n, short, dec, (name, e)) = asks in
        let (t, ran, after) =
          round_receives server healthy id payload rest s n short ready arrived in
        ap (λ q. q.0) ran
        ∙ rw
            (
              mock-dispatch t after.2 (after.3 ∙ ready.full),
              pack_null (record s { provider = t }) null,
            )
            refl

    -- With the mock, where packing an empty message passes, each of the other requests is answered by its
    -- own id with no content, on a healthy connection in its usual state.
    pub mock_replies :
        passes ≡ true
        → content ≡ false
        → (t : Session (Unit {0}) N) × (serve_round server s ≡ (again, t))
          × (t.handler ≡ s.handler)
          × (t.do_shutdown ≡ s.do_shutdown)
          × (sent t.provider.network ≡ sent s.provider.network ++ packed id [])
          × (pending t.provider.network ≡ rest)
    unfolding mock_reply
    mock_replies pass empty_ =
        let (n, short, dec, (name, e)) = asks in
        null_replies server healthy id payload rest s.do_shutdown s pass n short
          (λ t h f. mock-dispatch t h f ∙ rw empty_ refl) ready arrived
