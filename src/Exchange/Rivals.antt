-- ===== src/Exchange/Rivals.antt =====
-- Src/HandlerImpl.cpp behind Src/Server.cpp: two clients, each with a thread of its own, and one handler.
use roki_mb_daemon.Base.{
  ℕ, ◌≤◌, ◌≡◌, refl, sym, ap, subst, ◌∙◌, true, false, List, [], Outcome, ok, throw, runtime_error,
  arith, length, str,
}
use mathlib.Core.List.{append-nil}
use roki_mb_daemon.Memory.{write}
use roki_mb_daemon.Streams.{Network}
use roki_mb_daemon.RpcDefs.ProcIds
use roki_mb_daemon.RpcDefs.{ByteString}
use roki_mb_daemon.RpcDefs.Encoding.{max_text, User, text_bytes}
use roki_mb_daemon.RpcDefs.RoundTrip.{Carries}
use roki_mb_daemon.Rpc.{Provider}
use roki_mb_daemon.Rpc.Send.{packed, max_text-le}
use roki_mb_daemon.Handler.{Handler, asks_disconnect, no_content, handle, disconnect}
use roki_mb_daemon.Handler.Holder.{connected}
use roki_mb_daemon.Server.{Session, reply_size, serialize_reply}
use roki_mb_daemon.Server.Requests.{Plain, plain-Asks}
use roki_mb_daemon.Server.Rounds.{round_replies}
use roki_mb_daemon.Server.Answers.{refusal}
use roki_mb_daemon.Server.Handlers.{ChipDaemon, as_server, impl-grants}
use roki_mb_daemon.Client.{proc_message}
use roki_mb_daemon.Exchange.{Link, plug}
use roki_mb_daemon.Exchange.Rounds.{Serves, Returns, exchange_unpacks}
use roki_mb_daemon.Exchange.Clients.{
  Quiet, ConnectReturns, IsUser, IsFree, plugged, path_given, port_refused, granted_unaware,
}

-- The session of a thread when the handler, which all threads share, is this one.
abbrev pub sharing : {W N : Type 0} → Handler W → Session (Handler W) N → Session (Handler W) N
sharing h s = record s { handler = h }

module _ {W N : Type 0} (daemon : ChipDaemon W N) (near : Network N)
    (link : Link near daemon.net) where
  open daemon use {setup, char_signed}
  open link use {far_end}

  -- What a call of `Disconnect` comes to.
  abbrev pub DisconnectReturns :
      Provider N
      → Session (Handler W) N
      → Outcome (Unit {0})
      → Provider N
      → Session (Handler W) N
      → Handler W
      → List ℕ
      → Type 0
  DisconnectReturns =
      Returns (as_server daemon) near link char_signed ProcIds.disconnect 0 (λ m p. ok m)
        (λ m p. ok tt)

  disconnect-Serves :
      (c : Provider N) (s : Session (Handler W) N)
      → Quiet daemon near link [] c s
      → s.handler.acquired ≡ true
      → Serves
          (as_server daemon)
          near
          link
          char_signed
          ProcIds.disconnect
          []
          s
          (record s.handler { acquired = false })
          (packed ProcIds.disconnect [])
  unfolding handle disconnect write reply_size serialize_reply
  disconnect-Serves c s quiet held n arrived =
      let freed : Handler W = record s.handler { acquired = false } in
      round_replies (as_server daemon) far_end ProcIds.disconnect [] [] (λ q. q ≡ asks_disconnect)
        freed (plug n s) (plain-Asks (as_server daemon) far_end Plain.disconnect)
        (plugged daemon near link [] n c s quiet) (arrived ∙ sym (append-nil _)) no_content []
        (λ r e. rw e (impl-grants setup asks_disconnect no_content s.handler freed (rw held refl)))
        refl (omega arith) (λ m h. refl)

  -- A client that disconnects while the port is held and nothing is on the way to it frees the port.
  pub port_freed :
      (c : Provider N) (s : Session (Handler W) N)
      → Quiet daemon near link [] c s
      → s.handler.acquired ≡ true
      → (c' : Provider N) × (t : Session (Handler W) N) × DisconnectReturns c s
          (ok tt)
          c'
          t
          (record s.handler { acquired = false })
          []
  unfolding write
  port_freed c s quiet held =
      let (c', t, u, after, good) =
        exchange_unpacks (as_server daemon) near link char_signed ProcIds.disconnect []
          (λ m p. ok m) (λ m p. ok tt) (omega arith) (λ m h. refl) ProcIds.disconnect [] [] []
          (packed ProcIds.disconnect []) (λ _. Unit) (record s.handler { acquired = false }) c s
          (λ e. absurd (omega arith)) (λ m h f. (tt, refl, tt)) quiet
          (disconnect-Serves c s quiet held) (omega arith) (sym (append-nil _)) in
      (c', t, after)

  shared :
      (h : Handler W) (lag : List ℕ) (c : Provider N) (s : Session (Handler W) N)
      → Quiet daemon near link lag c s
      → Quiet daemon near link lag c (sharing h s)
  shared h lag c s q = record {
    client = q.client;
    ready = record { full = q.ready.full; code = q.ready.code };
    asked = q.asked;
    left = q.left;
  }

  module _ (ann bob : User) (is_ann : IsUser daemon near link ann)
      (is_bob : IsUser daemon near link bob) (a b : Provider N) (s r : Session (Handler W) N)
      (quiet : Quiet daemon near link [] a s) (quiet' : Quiet daemon near link [] b r)
      (free : IsFree daemon near link s.handler) where
    -- The handler after Ann has connected, and the message that names her, up to its first zero.
    abbrev pub taken : Handler W
    taken = connected setup ann.user_name ann.user_pid s.handler

    abbrev pub naming : List ℕ
    naming = refusal taken

    -- Of two clients that connect to a free port, each through a thread of its own, the first is given
    -- the port's path, and the second is told the message with the name and PID of the first, who keeps
    -- the port; of that message, what stands before its first zero byte. The chip runs, the port can be
    -- cleared, its path can be sent, and nothing is on the way to either client before. The packed users
    -- and the message have sizes that a `char` can count, and the PIDs are 32-bit patterns.
    pub second_told :
        length naming ≤ max_text char_signed
        → (a' b' : Provider N) × (s' r' : Session (Handler W) N) × (p : ByteString) × ConnectReturns
            daemon near link ann a s
            (ok p)
            a'
            s'
            taken
            []
          × Carries char_signed p s.handler.mb_port
          × ConnectReturns daemon near link bob b
              (sharing taken r)
              (throw (runtime_error (proc_message (str "Connect") naming)))
              b'
              r'
              taken
              (packed 0 naming)
    second_told short =
        let (a', s', p, first, path) = path_given daemon near link ann is_ann a s quiet free in
        let (b', r', second) =
          port_refused daemon near link bob is_bob b (sharing taken r) (shared taken [] b r quiet')
            (refl, short) in
        (a', b', s', r', p, first, path, second)

    -- After the first has disconnected, the second connects once more through the same connection. The
    -- server grants it, and the port is held in the second's name; but the second is told, again, the
    -- message that names the first, up to its first zero byte, since the error is sent twice. The chip
    -- runs, the port can be cleared each time, its path can be sent, and nothing is on the way to either
    -- client before the first connects. The packed users and the message have sizes that a `char` can
    -- count, and the PIDs are 32-bit patterns.
    pub second_locks :
        length naming ≤ max_text char_signed
        → let freed = record taken { acquired = false } in
          IsFree daemon near link freed
          → (a' a'' b' b'' : Provider N) × (s' s'' r' r'' : Session (Handler W) N)
            × (p : ByteString) × ConnectReturns daemon near link ann a s (ok p) a' s' taken []
            × ConnectReturns daemon near link bob b
                (sharing taken r)
                (throw (runtime_error (proc_message (str "Connect") naming)))
                b'
                r'
                taken
                (packed 0 naming)
            × DisconnectReturns a' s' (ok tt) a'' s'' freed []
            × ConnectReturns daemon near link bob b'
                (sharing freed r')
                (throw (runtime_error (proc_message (str "Connect") naming)))
                b''
                r''
                (connected setup bob.user_name bob.user_pid freed)
                (packed ProcIds.connect (text_bytes freed.mb_port))
    second_locks short free' =
        let freed : Handler W = record taken { acquired = false } in
        let (a', b', s', r', p, first, path, second) = second_told short in
        let (a'', s'', left) = port_freed a' s' first.1 (ap (λ h. h.acquired) first.2) in
        let (b'', r'', third) =
          granted_unaware daemon near link bob is_bob b' (sharing freed r') naming
            (shared freed (packed 0 naming) b' r' second.1) free'
            (omega (arith, short, max_text-le char_signed)) in
        (
          a',
          a'',
          b',
          b'',
          s',
          s'',
          r',
          r'',
          p,
          first,
          second,
          subst (λ h. DisconnectReturns a' s' (ok tt) a'' s'' (record h { acquired = false }) [])
              first.2 left,
          third,
        )
