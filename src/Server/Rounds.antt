-- ===== src/Server/Rounds.antt =====
-- Src/Server.cpp: one round of a connection's loop, from the package that arrives to the package that
-- is sent, on a healthy connection.
use roki_mb_daemon.Base.{
  ℕ, ◌≤◌, ◌<◌, ◌≡◌, ◌≢◌, refl, ap, ◌∙◌, false, List, ◌++◌, ◌==◌, Exception, ok, throw, what, arith,
  length,
}
use mathlib.Core.List.{append_assoc}
use roki_mb_daemon.Memory.{Memory, write}
use roki_mb_daemon.Memory.Laws.{Holds, Holds-write}
use roki_mb_daemon.RpcDefs.{to_str}
use roki_mb_daemon.RpcDefs.Encoding.{max_text}
use roki_mb_daemon.Streams.{Healthy}
use roki_mb_daemon.Rpc.{buf_size, Provider}
use roki_mb_daemon.Rpc.Receive.{header_of, Unpacked, recv_package_lem}
use roki_mb_daemon.Rpc.Send.{
  packed, Writes, pack_msg_lem, send_package_lem, pack_error_lem, max_text-le,
}
use roki_mb_daemon.Rpc.Limits.{pack_error_refuses}
use roki_mb_daemon.Handler.{Request, Reply}
use roki_mb_daemon.Server.{
  Session, Server, object, handler_order, order, decode, reply_size, serialize_reply, again,
  terminated, perform, on_provider, returning, pack_reply, generic_handler, dispatch_decoded,
  dispatch_package, after_report, report, after_send, after_dispatch, after_receive, serve_round,
}

module _ {H N : Type 0} (server : Server H N) (healthy : Healthy server.net) where
  open server use {char_signed, net, strerror}
  open healthy use {pending, sent}

  -- The buffer and the error code that a connection has all its life.
  pub record IsReady (s : Session H N) : Type 0 where
    pub full : s.provider.buffer.size ≡ buf_size
    pub code : s.provider.err_code ≡ 0

  -- A package that is no farewell is received and dispatched.
  pub round_receives :
      (id : ℕ) (payload rest : List ℕ) (s : Session H N)
      → id ≢ 0
      → length payload < buf_size
      → IsReady s
      → pending s.provider.network ≡ packed id payload ++ rest
      → (t : Provider N) × (serve_round server s
          ≡ after_dispatch server
              (dispatch_package server (header_of 0 id payload) (record s { provider = t })))
        × Unpacked server.net healthy payload rest s.provider t
  unfolding serve_round on_provider after_receive
  round_receives id payload rest s n small ready p =
      let (t, ran, after) =
        recv_package_lem net healthy id payload rest s.provider small ready.full p in
      let test : (id == 0) ≡ false = ground arith in (t, rw (ran, ready.code, test), after)

  dispatch_replies :
      (id : ℕ) (payload : List ℕ) (r : Request) (reply : Reply) (h : H) (name bs : List ℕ)
      (s : Session H N)
      → decode char_signed id s.provider.buffer ≡ order (ok (handler_order r))
      → to_str char_signed id ≡ ok name
      → server.interface.serve r s.handler ≡ (ok (object reply), h)
      → reply_size reply ≡ length bs
      → length bs ≤ 254
      → s.provider.buffer.size ≡ buf_size
      → Writes (serialize_reply char_signed reply) bs
      → dispatch_package server (header_of 0 id payload) s ≡ (
        ok tt,
        record s {
          handler = h;
          provider = record s.provider {
            buffer = record s.provider.buffer {
              cells = write s.provider.buffer.cells 0 (packed id bs);
            };
          };
        },
      )
  unfolding dispatch_package dispatch_decoded generic_handler perform returning pack_reply
      on_provider
  dispatch_replies id payload r reply h name bs s d e q size small full writes = rw (
    d,
    e,
    q,
    size,
    pack_msg_lem id bs (serialize_reply char_signed reply) s.provider small full writes,
  )

  dispatch_throws :
      (id : ℕ) (payload : List ℕ) (r : Request) (x : Exception) (h : H) (name : List ℕ)
      (s : Session H N)
      → decode char_signed id s.provider.buffer ≡ order (ok (handler_order r))
      → to_str char_signed id ≡ ok name
      → server.interface.serve r s.handler ≡ (throw x, h)
      → dispatch_package server (header_of 0 id payload) s ≡ (throw x, record s { handler = h })
  unfolding dispatch_package dispatch_decoded generic_handler perform returning
  dispatch_throws id payload r x h name s d e q = rw (d, e, q)

  -- A round that goes on, with the handler's new state, after these bytes were put on the connection.
  abbrev pub Answers : Session H N → H → List ℕ → List ℕ → Type 0
  Answers s h wire rest =
      (t : Session H N) × (serve_round server s ≡ (again, t))
      × (t.handler ≡ h)
      × (sent t.provider.network ≡ sent s.provider.network ++ wire)
      × (pending t.provider.network ≡ rest)
      × IsReady t
      × (t.do_shutdown ≡ s.do_shutdown)

  -- A package that the `switch` takes for a request of which `R` holds. (The request itself points
  -- into the buffer.)
  abbrev pub Asks : ℕ → List ℕ → (Request → Type 0) → Type 0
  Asks id payload R =
      (id ≢ 0)
      × (length payload < buf_size)
      × ((m : Memory)
          → Holds m.cells 0 payload
          → m.size ≡ buf_size
          → (r : Request) × (decode char_signed id m ≡ order (ok (handler_order r))) × R r)
      × ((name : List ℕ) × (to_str char_signed id ≡ ok name))

  module _ (id : ℕ) (payload rest : List ℕ) (R : Request → Type 0) (h : H) (s : Session H N)
      (asks : Asks id payload R) (ready : IsReady s)
      (arrived : pending s.provider.network ≡ packed id payload ++ rest) where
    -- A request that the handler grants is answered by one package, with the id of the request and the
    -- packed reply.
    pub round_replies :
        (reply : Reply) (bs : List ℕ)
        → ((r : Request) → R r → server.interface.serve r s.handler ≡ (ok (object reply), h))
        → reply_size reply ≡ length bs
        → length bs ≤ max_text char_signed
        → Writes (serialize_reply char_signed reply) bs
        → Answers s h (packed id bs) rest
    unfolding after_dispatch after_send on_provider
    round_replies reply bs q size small writes =
        let (n, short, dec, (name, e)) = asks in
        let (t, ran, after) = round_receives id payload rest s n short ready arrived in
        let mid : Session H N = record s { provider = t } in
        let full : t.buffer.size ≡ buf_size = after.3 ∙ ready.full in
        let (r, d, good) = dec t.buffer after.2 full in
        let dispatched =
          dispatch_replies id payload r reply h name bs mid d e (q r good) size
            (omega (arith, max_text-le char_signed)) full writes in
        let p : Provider N = record t {
          buffer = record t.buffer { cells = write t.buffer.cells 0 (packed id bs) };
        } in
        let (k, went, order_, quiet) =
          send_package_lem net healthy char_signed id bs p small full
            (Holds-write t.buffer.cells 0 (packed id bs)) in
        (
          record s { handler = h; provider = record p { network = k } },
          ran ∙ rw (dispatched, went),
          refl,
          order_ ∙ ap (λ b. b ++ packed id bs) after.1,
          quiet ∙ after.0,
          record { full = full; code = after.4 ∙ ready.code },
          refl,
        )

    -- A request that the handler refuses is answered by the error, and the connection is served on.
    -- The error's package is sent twice: by `PackError` itself, and by the `SendPackage` after it.
    pub round_reports :
        (x : Exception)
        → ((r : Request) → R r → server.interface.serve r s.handler ≡ (throw x, h))
        → length (what strerror x) ≤ max_text char_signed
        → Answers s h (packed 0 (what strerror x) ++ packed 0 (what strerror x)) rest
    unfolding after_dispatch report after_report on_provider
    round_reports x q small =
        let (n, short, dec, (name, e)) = asks in
        let msg : List ℕ = what strerror x in
        let (t, ran, after) = round_receives id payload rest s n short ready arrived in
        let mid : Session H N = record s { provider = t } in
        let full : t.buffer.size ≡ buf_size = after.3 ∙ ready.full in
        let code : t.err_code ≡ 0 = after.4 ∙ ready.code in
        let (r, d, good) = dec t.buffer after.2 full in
        let dispatched = dispatch_throws id payload r x h name mid d e (q r good) in
        let (k, went, order_, quiet) =
          pack_error_lem net healthy msg t (omega (arith, max_text-le char_signed)) full in
        let p : Provider N = record t {
          network = k;
          buffer = record t.buffer { cells = write t.buffer.cells 0 (packed t.err_code msg) };
        } in
        let held : Holds p.buffer.cells 0 (packed t.err_code msg) =
          Holds-write t.buffer.cells 0 (packed t.err_code msg) in
        let (k', went', order', quiet') =
          send_package_lem net healthy char_signed t.err_code msg p small full held in
        (
          record s { handler = h; provider = record p { network = k' } },
          ran ∙ rw (dispatched, went, went'),
          refl,
          order'
              ∙ ap (λ b. b ++ packed t.err_code msg)
                  (order_ ∙ ap (λ b. b ++ packed t.err_code msg) after.1)
              ∙ append_assoc (sent s.provider.network) (packed t.err_code msg)
                  (packed t.err_code msg)
              ∙ ap (λ c. sent s.provider.network ++ (packed c msg ++ packed c msg)) code,
          quiet' ∙ quiet ∙ after.0,
          record { full = full; code = code },
          refl,
        )

    -- An error of more than 255 bytes ends the daemon: `PackError` throws inside of the `catch`.
    pub round_terminates :
        (x : Exception)
        → ((r : Request) → R r → server.interface.serve r s.handler ≡ (throw x, h))
        → 255 < length (what strerror x)
        → (serve_round server s).0 ≡ terminated
    unfolding after_dispatch report after_report on_provider
    round_terminates x q big =
        let (n, short, dec, (name, e)) = asks in
        let (t, ran, after) = round_receives id payload rest s n short ready arrived in
        let mid : Session H N = record s { provider = t } in
        let full : t.buffer.size ≡ buf_size = after.3 ∙ ready.full in
        let (r, d, good) = dec t.buffer after.2 full in
        let dispatched = dispatch_throws id payload r x h name mid d e (q r good) in
        ap (λ q. q.0) ran ∙ rw (dispatched, pack_error_refuses net (what strerror x) t big)
