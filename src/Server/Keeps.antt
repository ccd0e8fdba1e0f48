-- ===== src/Server/Keeps.antt =====
-- Src/Server.cpp: what the calls of a socket leave as it is, the whole loop of a connection leaves as it
-- is.
use roki_mb_daemon.Base.{
  ℕ, zero, suc, ◌≡◌, refl, ◌∙◌, List, Exception, Outcome, ok, throw, fault, hang, Exec, then_do,
  what, Keeps, then_do-Keeps, if-Keeps,
}
use roki_mb_daemon.RpcDefs.{to_str}
use roki_mb_daemon.Rpc.{Provider, MsgHeader, recv_package, pack_msg, pack_error, send_package}
use roki_mb_daemon.Rpc.Keeps.{
  on_network, Still, recv_package-Still, send_package-Still, pack_error-Still, pack_msg-Still,
}
use roki_mb_daemon.Handler.{no_content}
use roki_mb_daemon.Server.{
  Session, Server, Order, Decoded, Responce, object, null_empty, null_content, handler_order,
  shutdown_order, ping_order, block_order, throw_order, unknown, order, decode, reply_size,
  serialize_reply, Next, again, stop, terminated, faulted, hung, perform, on_provider, returning,
  pack_reply, generic_handler, dispatch_decoded, dispatch_package, after_report, report, after_send,
  after_dispatch, after_receive, serve_round, serve_loop,
}

module _ {H N X : Type 0} (server : Server H N) (view : N → X) where
  open server use {char_signed, net, strerror}

  abbrev pub on_session : Session H N → X
  on_session s = view s.provider.network

  abbrev Kept : {A : Type 0} → Exec (Session H N) A → Type 0
  Kept = Keeps on_session

  on_provider-Kept :
      {A : Type 0} (m : Exec (Provider N) A) → Still net view m → Kept (on_provider server m)
  unfolding on_provider
  on_provider-Kept m k s = k s.provider

  perform-Kept : (o : Order) → Kept (perform server o)
  unfolding perform
  perform-Kept (handler_order r) s = refl
  perform-Kept shutdown_order s = refl
  perform-Kept ping_order s = refl
  perform-Kept block_order s = refl
  perform-Kept throw_order s = refl

  pack_reply-Kept : (id : ℕ) (r : Responce) → Kept (pack_reply server id r)
  unfolding pack_reply
  pack_reply-Kept id (object r) s =
      on_provider-Kept (pack_msg id (reply_size r) (serialize_reply char_signed r))
        (pack_msg-Still net view id (reply_size r) (serialize_reply char_signed r)) s
  pack_reply-Kept id null_empty s =
      if-Keeps on_session server.null_reply_passes _ (fault, s) (on_session s)
        (on_provider-Kept (pack_msg id 0 (serialize_reply char_signed no_content))
          (pack_msg-Still net view id 0 (serialize_reply char_signed no_content)) s)
        refl
  pack_reply-Kept id null_content s = refl

  generic_handler-Kept : (id : ℕ) (o : Outcome Order) → Kept (generic_handler server id o)
  unfolding generic_handler returning
  generic_handler-Kept id o =
      then_do-Keeps on_session (returning server (to_str char_signed id))
        (λ _.
          then_do (returning server o)
            (λ request. then_do (perform server request) (λ reply. pack_reply server id reply)))
        (λ s. refl)
        (λ _.
          then_do-Keeps on_session (returning server o)
            (λ request. then_do (perform server request) (λ reply. pack_reply server id reply))
            (λ s. refl)
            (λ request.
              then_do-Keeps on_session (perform server request)
                (λ reply. pack_reply server id reply) (perform-Kept request) (pack_reply-Kept id)))

  dispatch_decoded-Kept : (id : ℕ) (d : Decoded) → Kept (dispatch_decoded server id d)
  unfolding dispatch_decoded
  dispatch_decoded-Kept id unknown s = refl
  dispatch_decoded-Kept id (order o) s = generic_handler-Kept id o s

  dispatch_package-Kept : (header : MsgHeader) → Kept (dispatch_package server header)
  unfolding dispatch_package
  dispatch_package-Kept header s =
      dispatch_decoded-Kept header.proc_id (decode char_signed header.proc_id s.provider.buffer) s

  module _ (recv_still : (k : ℕ) (n : N) → view (net.recv k n).1 ≡ view n)
      (send_still : (bs : List ℕ) (n : N) → view (net.send bs n).1 ≡ view n) where
    send_package-Kept : Kept (on_provider server (send_package net char_signed))
    send_package-Kept =
        on_provider-Kept (send_package net char_signed)
          (send_package-Still net view recv_still send_still char_signed)

    -- `PackError` and `SendPackage`.
    pub error-Kept :
        (msg : List ℕ)
        → Kept (on_provider server (then_do (pack_error net msg) λ _. send_package net char_signed))
    error-Kept msg =
        on_provider-Kept (then_do (pack_error net msg) λ _. send_package net char_signed) (
          then_do-Keeps (on_network net view) (pack_error net msg)
            (λ _. send_package net char_signed)
            (pack_error-Still net view recv_still send_still msg)
            (λ _. send_package-Still net view recv_still send_still char_signed))

    after_report-Kept :
        (x : Outcome (Unit {0}) × Session H N)
        → on_session (after_report server x).1 ≡ on_session x.1
    unfolding after_report
    after_report-Kept (ok u, s) = refl
    after_report-Kept (throw e, s) = refl
    after_report-Kept (fault, s) = refl
    after_report-Kept (hang, s) = refl

    report-Kept :
        (e : Exception) (s : Session H N) → on_session (report server e s).1 ≡ on_session s
    unfolding report
    report-Kept e s = after_report-Kept _ ∙ error-Kept (what strerror e) s

    after_send-Kept :
        (x : Outcome (Unit {0}) × Session H N) → on_session (after_send server x).1 ≡ on_session x.1
    unfolding after_send
    after_send-Kept (ok u, s) = refl
    after_send-Kept (throw e, s) = refl
    after_send-Kept (fault, s) = refl
    after_send-Kept (hang, s) = refl

    after_dispatch-Kept :
        (x : Outcome (Unit {0}) × Session H N)
        → on_session (after_dispatch server x).1 ≡ on_session x.1
    unfolding after_dispatch
    after_dispatch-Kept (ok u, s) = after_send-Kept _ ∙ send_package-Kept s
    after_dispatch-Kept (throw e, s) = report-Kept e s
    after_dispatch-Kept (fault, s) = refl
    after_dispatch-Kept (hang, s) = refl

    after_receive-Kept :
        (x : Outcome MsgHeader × Session H N)
        → on_session (after_receive server x).1 ≡ on_session x.1
    unfolding after_receive
    after_receive-Kept (ok header, s) =
        if-Keeps on_session header.is_ok (after_dispatch server (dispatch_package server header s))
          (stop, s) (on_session s)
          (after_dispatch-Kept (dispatch_package server header s) ∙ dispatch_package-Kept header s)
          refl
    after_receive-Kept (throw e, s) = refl
    after_receive-Kept (fault, s) = refl
    after_receive-Kept (hang, s) = refl

    serve_round-Kept : (s : Session H N) → on_session (serve_round server s).1 ≡ on_session s
    unfolding serve_round
    serve_round-Kept s =
        after_receive-Kept (on_provider server (recv_package net) s)
        ∙ on_provider-Kept (recv_package net) (recv_package-Still net view recv_still send_still) s

    next-Kept :
        (next : Next) (rest : Next × Session H N) (t : Session H N)
        → on_session rest.1 ≡ on_session t
        → on_session
            (elim next as (λ _. Next × Session H N) [
              | again ↦ rest
              | stop ↦ (stop, t)
              | terminated ↦ (terminated, t)
              | faulted ↦ (faulted, t)
              | hung ↦ (hung, t)
            ]).1
          ≡ on_session t
    next-Kept again rest t h = h
    next-Kept stop rest t h = refl
    next-Kept terminated rest t h = refl
    next-Kept faulted rest t h = refl
    next-Kept hung rest t h = refl

    -- However many rounds a connection is served, and however that ends: the view is the same.
    pub serve_loop-Kept :
        (fuel : ℕ) (s : Session H N) → on_session (serve_loop server fuel s).1 ≡ on_session s
    unfolding serve_loop
    serve_loop-Kept zero s = refl
    serve_loop-Kept (suc fuel) s =
        let (next, t) = serve_round server s in
        if-Keeps on_session s.do_shutdown (stop, s) _ (on_session s) refl
          (next-Kept next (serve_loop server fuel t) t (serve_loop-Kept fuel t)
            ∙ serve_round-Kept s)
