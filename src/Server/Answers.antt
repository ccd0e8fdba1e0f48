-- ===== src/Server/Answers.antt =====
-- Src/Server.cpp with Src/HandlerImpl.cpp: what a client reads after its request.
use roki_mb_daemon.Base.{
  ℕ, ◌+◌, ◌%◌, ◌^◌, ◌≤◌, ◌<◌, ◌≡◌, refl, ap, ◌∙◌, Bool, true, false, List, [], ◌++◌, ok, throw,
  arith, length, str, runtime_error, c_str, what, some,
}
use roki_mb_daemon.RpcDefs.ProcIds
use roki_mb_daemon.RpcDefs.{status_packed_size, string_packed_size}
use roki_mb_daemon.RpcDefs.Encoding.{
  max_text, User, Status, of_text, text_bytes, user_bytes, status_bytes, length-status_bytes,
  serialize_string_lem, serialize_status_lem,
}
use roki_mb_daemon.Streams.{Healthy}
use roki_mb_daemon.Rpc.Send.{packed, Writes, max_text-le}
use roki_mb_daemon.Firmware.{Firmware, running, get_state_description}
use roki_mb_daemon.Handler.{
  Handler, Setup, Request, asks_status, asks_connect, get_status_reply, port_path, as_message,
  get_status, handle, acquired_message, clear_port,
}
use roki_mb_daemon.Handler.Holder.{held_refuses, connected, connect-connected}
use roki_mb_daemon.Server.Handlers.{handler_impl, impl-grants, impl-refuses, ChipDaemon, as_server}
use roki_mb_daemon.Server.{
  Session, Server, object, reply_size, serialize_reply, terminated, serve_round,
}
use roki_mb_daemon.Server.Rounds.{IsReady, Answers, round_replies, round_reports, round_terminates}
use roki_mb_daemon.Server.Requests.{status, plain-Asks, ConnectAs, connect-Asks}

-- The status that a handler reports.
abbrev pub status_of : {W : Type 0} → Handler W → Status
status_of h = record {
  text = get_state_description h.firmware;
  is_acquired = h.acquired;
  holder = record { user_name = h.user_name; user_pid = h.user_pid };
}

pub length-get_state_description :
    {W : Type 0} (f : Firmware W) → length (get_state_description f) ≤ 17
unfolding get_state_description str
length-get_state_description f = ground arith

as_message_lem : (t : List ℕ) → length t < 256 → as_message t ≡ of_text t
as_message_lem t h =
    let e : length t % 256 ≡ length t = omega arith in
    ap (λ n. record { bytes = some t; size = n }) e

status-Writes :
    {W : Type 0} (signed : Bool) (h : Handler W)
    → length h.user_name + 24 ≤ max_text signed
    → Writes (serialize_reply signed (get_status_reply h)) (status_bytes (status_of h))
unfolding serialize_reply
status-Writes signed h small m fits =
    let d = length-get_state_description h.firmware in
    let big = max_text-le signed in
    rw
      (
        as_message_lem (get_state_description h.firmware) (omega arith),
        as_message_lem h.user_name (omega arith),
      )
      (serialize_status_lem signed (status_of h) m 2 (omega arith) (omega arith) fits)

status-size :
    {W : Type 0} (signed : Bool) (h : Handler W)
    → length h.user_name + 24 ≤ max_text signed
    → reply_size (get_status_reply h) ≡ length (status_bytes (status_of h))
unfolding reply_size status_packed_size status_bytes
status-size signed h small = omega (
  arith,
  length-get_state_description h.firmware,
  max_text-le signed,
  length-status_bytes (status_of h),
)

connect-reply :
    {W : Type 0} (setup : Setup W) (u : User) (h : Handler W) (q : Request)
    → ConnectAs setup.char_signed u q
    → h.acquired ≡ false
    → h.state ≡ running
    → (clear_port setup.device setup.max_reads h.mb_port h.world).0 ≡ ok tt
    → (handler_impl setup).serve q h
      ≡ (ok (object (port_path (as_message h.mb_port))), connected setup u.user_name u.user_pid h)
unfolding handle
connect-reply setup u h q (d, e, c) free on cleared =
    impl-grants setup q (port_path (as_message h.mb_port)) h
      (connected setup u.user_name u.user_pid h)
      (rw e (
        connect-connected setup d u.user_name h free on cleared c.0.0
        ∙ ap (λ p. (ok (port_path (as_message h.mb_port)), connected setup u.user_name p h)) c.1))

connect-held :
    {W : Type 0} (setup : Setup W) (u : User) (h : Handler W) (q : Request)
    → ConnectAs setup.char_signed u q
    → h.acquired ≡ true
    → (handler_impl setup).serve q h
      ≡ (throw (runtime_error (acquired_message (str "Connect") h)), h)
connect-held setup u h q (d, e, c) held =
    impl-refuses setup q (runtime_error (acquired_message (str "Connect") h)) h h
      (rw e (held_refuses setup (asks_connect d) (str "Connect") h refl held))

path-Writes :
    (signed : Bool) (path : List ℕ)
    → length path < max_text signed
    → Writes (serialize_reply signed (port_path (as_message path))) (text_bytes path)
unfolding serialize_reply
path-Writes signed path small m fits =
    let big = max_text-le signed in
    rw (as_message_lem path (omega arith)) (serialize_string_lem signed path m 2 (omega arith) fits)

path-size :
    (signed : Bool) (path : List ℕ)
    → length path < max_text signed
    → reply_size (port_path (as_message path)) ≡ length (text_bytes path)
unfolding reply_size text_bytes string_packed_size
path-size signed path small = omega (arith, max_text-le signed)

-- The message that names the holder of the port, as `what()` gives it: up to its first zero.
abbrev pub refusal : {W : Type 0} → Handler W → List ℕ
refusal h = c_str (acquired_message (str "Connect") h)

module _ {W N : Type 0} (daemon : ChipDaemon W N) (healthy : Healthy daemon.net) where
  open daemon use {setup, char_signed, net, strerror}

  abbrev server : Server (Handler W) N
  server = as_server daemon

  open healthy use {pending}

  module _ (rest : List ℕ) (s : Session (Handler W) N) (ready : IsReady server healthy s) where
    -- `GetStatus` is answered by one package: the description of the firmware's state, whether the port
    -- is held, and the name and PID of its last holder; nothing changes. The connection is healthy and in
    -- its usual state, and the name has at most 103 bytes where `char` is signed, and 230 where it is not.
    pub status_answer :
        pending s.provider.network ≡ packed ProcIds.get_status [] ++ rest
        → length s.handler.user_name + 24 ≤ max_text char_signed
        → Answers server healthy s s.handler
            (packed ProcIds.get_status (status_bytes (status_of s.handler)))
            rest
    unfolding handle get_status
    status_answer arrived small =
        round_replies server healthy ProcIds.get_status [] rest (λ q. q ≡ asks_status) s.handler s
          (plain-Asks server healthy status) ready arrived (get_status_reply s.handler)
          (status_bytes (status_of s.handler)) (λ r e. rw e refl)
          (status-size char_signed s.handler small)
          (omega (
            arith,
            length-get_state_description s.handler.firmware,
            length-status_bytes (status_of s.handler),
          ))
          (status-Writes char_signed s.handler small)

    module _ (u : User) (small : length (user_bytes u) ≤ max_text char_signed)
        (is_pid : u.user_pid < 2 ^ 32)
        (arrived : pending s.provider.network ≡ packed ProcIds.connect (user_bytes u) ++ rest) where
      -- A `Connect` that arrives while the port is free and the chip runs, and whose clearing of the
      -- port succeeds, is answered by one package with the port's path; the port is then held in the
      -- name and PID that were sent. The connection is healthy and in its usual state, the PID is a 32-bit
      -- pattern, and the packed user and the path have sizes that a `char` can count.
      pub connect_answer :
          s.handler.acquired ≡ false
          → s.handler.state ≡ running
          → (clear_port setup.device setup.max_reads s.handler.mb_port s.handler.world).0 ≡ ok tt
          → length s.handler.mb_port < max_text char_signed
          → Answers server healthy s
              (connected setup u.user_name u.user_pid s.handler)
              (packed ProcIds.connect (text_bytes s.handler.mb_port))
              rest
      unfolding text_bytes
      connect_answer free on cleared short =
          round_replies server healthy ProcIds.connect (user_bytes u) rest (ConnectAs char_signed u)
            (connected setup u.user_name u.user_pid s.handler) s
            (connect-Asks server healthy u small is_pid) ready arrived
            (port_path (as_message s.handler.mb_port)) (text_bytes s.handler.mb_port)
            (λ q as_. connect-reply setup u s.handler q as_ free on cleared)
            (path-size char_signed s.handler.mb_port short) short
            (path-Writes char_signed s.handler.mb_port short)

      -- A `Connect` that arrives while the port is held is answered by the error that names the holder,
      -- up to the first zero byte of its message, in two packages, and the holder keeps the port. The
      -- connection is healthy and in its usual state, the PID is a 32-bit pattern, and the packed user and
      -- the error have sizes that a `char` can count.
      pub connect_refused :
          s.handler.acquired ≡ true
          → length (refusal s.handler) ≤ max_text char_signed
          → let error = packed 0 (refusal s.handler) in
            Answers server healthy s s.handler (error ++ error) rest
      unfolding what
      connect_refused held short =
          round_reports server healthy ProcIds.connect (user_bytes u) rest (ConnectAs char_signed u)
            s.handler s (connect-Asks server healthy u small is_pid) ready arrived
            (runtime_error (acquired_message (str "Connect") s.handler))
            (λ q as_. connect-held setup u s.handler q as_ held) short

      -- While the port is held and the message that names the holder has more than 255 bytes before its
      -- first zero, a `Connect` of a user whose packed size a `char` can count, on a healthy connection in
      -- its usual state, ends the daemon.
      pub connect_kills :
          s.handler.acquired ≡ true
          → 255 < length (refusal s.handler)
          → (serve_round server s).0 ≡ terminated
      unfolding what
      connect_kills held long =
          round_terminates server healthy ProcIds.connect (user_bytes u) rest
            (ConnectAs char_signed u) s.handler s (connect-Asks server healthy u small is_pid) ready
            arrived (runtime_error (acquired_message (str "Connect") s.handler))
            (λ q as_. connect-held setup u s.handler q as_ held) long
