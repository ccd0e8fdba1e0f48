-- ===== src/Exchange/Clients.antt =====
-- Src/Client.cpp, Src/Server.cpp and Src/HandlerImpl.cpp together: what clients learn of the chip and of
-- each other.
use roki_mb_daemon.Base.{
  ℕ, ◌+◌, ◌^◌, ◌≤◌, ◌<◌, ◌≡◌, refl, sym, ◌∙◌, true, false, List, [], ◌++◌, Outcome, ok, throw,
  runtime_error, arith, length, str,
}
use mathlib.Core.List.{append-nil}
use roki_mb_daemon.Memory.{Memory, write}
use roki_mb_daemon.Memory.Laws.{Holds}
use roki_mb_daemon.Streams.{Network}
use roki_mb_daemon.RpcDefs.ProcIds
use roki_mb_daemon.RpcDefs.{
  ByteString, ChipStatus, to_str, deserialize_status, deserialize_string, serialize_user,
}
use roki_mb_daemon.RpcDefs.Encoding.{
  max_text, User, of_user, text_bytes, user_bytes, status_bytes, length-user_bytes,
  length-status_bytes, serialize_user_lem,
}
use roki_mb_daemon.RpcDefs.RoundTrip.{Carries, CarriesStatus, status_decodes, string_decodes}
use roki_mb_daemon.Rpc.{buf_size, Provider}
use roki_mb_daemon.Rpc.Send.{packed, Writes, max_text-le}
use roki_mb_daemon.Firmware.{running}
use roki_mb_daemon.Handler.{Handler, clear_port}
use roki_mb_daemon.Handler.Holder.{connected}
use roki_mb_daemon.Server.{Session}
use roki_mb_daemon.Server.Rounds.{IsReady}
use roki_mb_daemon.Server.Handlers.{ChipDaemon, as_server}
use roki_mb_daemon.Server.Answers.{
  status_of, length-get_state_description, status_answer, refusal, connect_answer, connect_refused,
}
use roki_mb_daemon.Client.{proc_message}
use roki_mb_daemon.Exchange.{Link, plug}
use roki_mb_daemon.Exchange.Rounds.{Between, Serves, Returns, exchange_throws, exchange_unpacks}

module _ {W N : Type 0} (daemon : ChipDaemon W N) (near : Network N)
    (link : Link near daemon.net) where
  open daemon use {setup, char_signed}
  open link use {near_end, far_end}

  abbrev pub Quiet : List ℕ → Provider N → Session (Handler W) N → Type 0
  Quiet = Between (as_server daemon) near link char_signed

  -- What a call of `GetStatus` comes to, and a call of `Connect` in the name of `u`.
  abbrev pub StatusReturns :
      Provider N
      → Session (Handler W) N
      → Outcome ChipStatus
      → Provider N
      → Session (Handler W) N
      → Handler W
      → List ℕ
      → Type 0
  StatusReturns =
      Returns (as_server daemon) near link char_signed ProcIds.get_status 0 (λ m p. ok m)
        (deserialize_status char_signed)

  abbrev pub ConnectReturns :
      User
      → Provider N
      → Session (Handler W) N
      → Outcome ByteString
      → Provider N
      → Session (Handler W) N
      → Handler W
      → List ℕ
      → Type 0
  ConnectReturns u =
      Returns (as_server daemon) near link char_signed ProcIds.connect (length (user_bytes u))
        (serialize_user char_signed (of_user u)) (deserialize_string char_signed)

  -- The status of this handler can be sent.
  abbrev pub IsShown : Handler W → Type 0
  IsShown h = (length h.user_name + 24 ≤ max_text char_signed) × (h.user_pid < 2 ^ 32)

  -- A user whose packed size a `char` can count.
  abbrev pub IsUser : User → Type 0
  IsUser u = (length (user_bytes u) ≤ max_text char_signed) × (u.user_pid < 2 ^ 32)

  -- A free port of a running chip, which can be cleared and whose path can be sent.
  abbrev pub IsFree : Handler W → Type 0
  IsFree h =
      (h.acquired ≡ false)
      × (h.state ≡ running)
      × ((clear_port setup.device setup.max_reads h.mb_port h.world).0 ≡ ok tt)
      × (length h.mb_port < max_text char_signed)

  -- A held port, whose holder can be named.
  abbrev pub IsHeld : Handler W → Type 0
  IsHeld h = (h.acquired ≡ true) × (length (refusal h) ≤ max_text char_signed)

  shown-fits : (h : Handler W) → IsShown h → length (status_bytes (status_of h)) < buf_size
  shown-fits h (short, is_pid) = omega (
    arith,
    length-status_bytes (status_of h),
    length-get_state_description h.firmware,
    max_text-le char_signed,
  )

  unpacks_status :
      (h : Handler W)
      → IsShown h
      → (m : Memory) → Holds m.cells 0 (status_bytes (status_of h))
      → m.size ≡ buf_size
      → (d : ChipStatus) × (deserialize_status char_signed m 0 ≡ ok d)
        × CarriesStatus char_signed d (status_of h)
  unpacks_status h shown m held full =
      status_decodes char_signed m 0 (status_of h)
        (omega (arith, length-get_state_description h.firmware, shown.0)) (omega (arith, shown.0))
        shown.1 held (omega (arith, full, shown-fits h shown))

  pub plugged :
      (lag : List ℕ) (n : N) (c : Provider N) (s : Session (Handler W) N)
      → Quiet lag c s
      → IsReady (as_server daemon) far_end (plug n s)
  plugged lag n c s quiet = record { full = quiet.ready.full; code = quiet.ready.code }

  status-Serves :
      (lag : List ℕ) (c : Provider N) (s : Session (Handler W) N)
      → Quiet lag c s
      → IsShown s.handler
      → Serves
          (as_server daemon)
          near
          link
          char_signed
          ProcIds.get_status
          []
          s
          s.handler
          (packed ProcIds.get_status (status_bytes (status_of s.handler)))
  status-Serves lag c s quiet shown n arrived =
      status_answer daemon far_end [] (plug n s) (plugged lag n c s quiet)
        (arrived ∙ sym (append-nil _)) shown.0

  -- A client that asks for the status while nothing is on the way to it is told that of the handler. The
  -- name of its last user has at most 103 bytes where `char` is signed, and 230 where it is not, and
  -- the PID is a 32-bit pattern.
  pub status_told :
      (c : Provider N) (s : Session (Handler W) N)
      → Quiet [] c s
      → IsShown s.handler
      → (c' : Provider N) × (t : Session (Handler W) N) × (d : ChipStatus) × StatusReturns c s
          (ok d)
          c'
          t
          s.handler
          []
        × CarriesStatus char_signed d (status_of s.handler)
  unfolding write
  status_told c s quiet shown =
      exchange_unpacks (as_server daemon) near link char_signed ProcIds.get_status [] (λ m p. ok m)
        (deserialize_status char_signed) (omega arith) (λ m h. refl) ProcIds.get_status
        (status_bytes (status_of s.handler)) [] []
        (packed ProcIds.get_status (status_bytes (status_of s.handler)))
        (λ d. CarriesStatus char_signed d (status_of s.handler)) s.handler c s
        (λ e. absurd (omega arith)) (unpacks_status s.handler shown) quiet
        (status-Serves [] c s quiet shown) (shown-fits s.handler shown) (sym (append-nil _))

  -- A client to which an error of an earlier call is still on its way is told that error when it asks for
  -- the status; the status itself stays behind on the connection, for its next call.
  pub status_stale :
      (msg : List ℕ) (c : Provider N) (s : Session (Handler W) N)
      → Quiet (packed 0 msg) c s
      → IsShown s.handler
      → length msg < buf_size
      → (c' : Provider N) × (t : Session (Handler W) N) × StatusReturns c s
          (throw (runtime_error (proc_message (str "GetStatus") msg)))
          c'
          t
          s.handler
          (packed ProcIds.get_status (status_bytes (status_of s.handler)))
  unfolding write to_str
  status_stale msg c s quiet shown fits =
      exchange_throws (as_server daemon) near link char_signed ProcIds.get_status [] (λ m p. ok m)
        (deserialize_status char_signed) (omega arith) (λ m h. refl) (str "GetStatus") msg
        (packed ProcIds.get_status (status_bytes (status_of s.handler))) (packed 0 msg)
        (packed ProcIds.get_status (status_bytes (status_of s.handler))) s.handler c s refl quiet
        (status-Serves (packed 0 msg) c s quiet shown) fits refl

  connect_Writes :
      (u : User) → IsUser u → Writes (serialize_user char_signed (of_user u)) (user_bytes u)
  connect_Writes u user m fits =
      serialize_user_lem char_signed u m 2 (omega (arith, length-user_bytes u, user.0)) fits

  unpacks_path :
      (path : List ℕ)
      → length path < max_text char_signed
      → (m : Memory) → Holds m.cells 0 (text_bytes path)
      → m.size ≡ buf_size
      → (p : ByteString) × (deserialize_string char_signed m 0 ≡ ok p) × Carries char_signed p path
  unfolding text_bytes
  unpacks_path path short m held full =
      string_decodes char_signed m 0 path (omega (arith, short)) held
        (omega (arith, full, short, max_text-le char_signed))

  path-fits :
      (path : List ℕ) → length path < max_text char_signed → length (text_bytes path) < buf_size
  unfolding text_bytes
  path-fits path short = omega (arith, short, max_text-le char_signed)

  module _ (u : User) (user : IsUser u) (c : Provider N) (s : Session (Handler W) N) where
    connect-Serves :
        (lag : List ℕ)
        → Quiet lag c s
        → IsFree s.handler
        → Serves
            (as_server daemon)
            near
            link
            char_signed
            ProcIds.connect
            (user_bytes u)
            s
            (connected setup u.user_name u.user_pid s.handler)
            (packed ProcIds.connect (text_bytes s.handler.mb_port))
    connect-Serves lag quiet (free, on, cleared, short) n arrived =
        connect_answer daemon far_end [] (plug n s) (plugged lag n c s quiet) u user.0 user.1
          (arrived ∙ sym (append-nil _)) free on cleared short

    refusal-Serves :
        (lag : List ℕ)
        → Quiet lag c s
        → IsHeld s.handler
        → let error = packed 0 (refusal s.handler) in
          Serves
            (as_server daemon)
            near
            link
            char_signed
            ProcIds.connect
            (user_bytes u)
            s
            s.handler
            (error ++ error)
    refusal-Serves lag quiet (held, short) n arrived =
        connect_refused daemon far_end [] (plug n s) (plugged lag n c s quiet) u user.0 user.1
          (arrived ∙ sym (append-nil _)) held short

    -- A client that connects to a free port while nothing is on the way to it is given the port's path,
    -- and the port is held in its name.
    pub path_given :
        Quiet [] c s
        → IsFree s.handler
        → (c' : Provider N) × (t : Session (Handler W) N) × (p : ByteString) × ConnectReturns u c s
            (ok p)
            c'
            t
            (connected setup u.user_name u.user_pid s.handler)
            []
          × Carries char_signed p s.handler.mb_port
    path_given quiet (free, on, cleared, short) =
        exchange_unpacks (as_server daemon) near link char_signed ProcIds.connect (user_bytes u)
          (serialize_user char_signed (of_user u)) (deserialize_string char_signed) user.0
          (connect_Writes u user) ProcIds.connect (text_bytes s.handler.mb_port) [] []
          (packed ProcIds.connect (text_bytes s.handler.mb_port))
          (λ p. Carries char_signed p s.handler.mb_port)
          (connected setup u.user_name u.user_pid s.handler) c s (λ e. absurd (omega arith))
          (unpacks_path s.handler.mb_port short) quiet
          (connect-Serves [] quiet (free, on, cleared, short)) (path-fits s.handler.mb_port short)
          (sym (append-nil _))

    -- A client that connects while the port is held and nothing is on the way to it is told who holds it,
    -- up to the first zero byte of the message; the same error is then on its way to it once more.
    pub port_refused :
        Quiet [] c s
        → IsHeld s.handler
        → (c' : Provider N) × (t : Session (Handler W) N) × ConnectReturns u c s
            (throw (runtime_error (proc_message (str "Connect") (refusal s.handler))))
            c'
            t
            s.handler
            (packed 0 (refusal s.handler))
    unfolding to_str
    port_refused quiet (held, short) =
        let msg : List ℕ = refusal s.handler in
        exchange_throws (as_server daemon) near link char_signed ProcIds.connect (user_bytes u)
          (serialize_user char_signed (of_user u)) (deserialize_string char_signed) user.0
          (connect_Writes u user) (str "Connect") msg (packed 0 msg) []
          (packed 0 msg ++ packed 0 msg) s.handler c s refl quiet
          (refusal-Serves [] quiet (held, short)) (omega (arith, short, max_text-le char_signed))
          refl

    -- A client to which an error of an earlier call is still on its way is told that error when it
    -- connects, though the port is free and the server grants it: the port is then held in the name of a
    -- client that does not know it.
    pub granted_unaware :
        (msg : List ℕ)
        → Quiet (packed 0 msg) c s
        → IsFree s.handler
        → length msg < buf_size
        → (c' : Provider N) × (t : Session (Handler W) N) × ConnectReturns u c s
            (throw (runtime_error (proc_message (str "Connect") msg)))
            c'
            t
            (connected setup u.user_name u.user_pid s.handler)
            (packed ProcIds.connect (text_bytes s.handler.mb_port))
    unfolding to_str
    granted_unaware msg quiet free fits =
        exchange_throws (as_server daemon) near link char_signed ProcIds.connect (user_bytes u)
          (serialize_user char_signed (of_user u)) (deserialize_string char_signed) user.0
          (connect_Writes u user) (str "Connect") msg
          (packed ProcIds.connect (text_bytes s.handler.mb_port)) (packed 0 msg)
          (packed ProcIds.connect (text_bytes s.handler.mb_port))
          (connected setup u.user_name u.user_pid s.handler) c s refl quiet
          (connect-Serves (packed 0 msg) quiet free) fits refl
