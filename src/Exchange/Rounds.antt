-- ===== src/Exchange/Rounds.antt =====
-- Src/Client.cpp and Src/Server.cpp: what a call returns to the client that makes it, by what the server
-- answers and by what an earlier answer left on the connection.
use roki_mb_daemon.Base.{
  ℕ, ◌≤◌, ◌<◌, ◌≡◌, ◌≢◌, refl, sym, ap, ◌∙◌, Bool, false, List, [], ◌++◌, Outcome, ok, throw,
  runtime_error, arith, length, ◌==◌,
}
use roki_mb_daemon.Memory.{Memory}
use roki_mb_daemon.Memory.Laws.{Holds}
use roki_mb_daemon.Streams.{Network}
use roki_mb_daemon.RpcDefs.{to_str}
use roki_mb_daemon.RpcDefs.Encoding.{max_text}
use roki_mb_daemon.Rpc.{buf_size, Provider}
use roki_mb_daemon.Rpc.Receive.{header_of, recv_package_lem}
use roki_mb_daemon.Rpc.Send.{packed, Writes, pack_send}
use roki_mb_daemon.Server.{Session, Server, again}
use roki_mb_daemon.Server.Rounds.{IsReady, Answers}
use roki_mb_daemon.Client.{proc_message, proc_exception, request, await, after_reply}
use roki_mb_daemon.Client.Calls.{IsClient}
use roki_mb_daemon.Exchange.{Link, plug, exchange}

module _ {H N : Type 0} (server : Server H N) (near : Network N) (link : Link near server.net)
    (signed : Bool) where
  open link use {near_end, far_end}

  -- Between two calls: nothing is on its way to the server, and these bytes are on their way to the
  -- client.
  pub record Between (lag : List ℕ) (c : Provider N) (s : Session H N) : Type 0 where
    pub client : IsClient near near_end signed c
    pub ready : IsReady server far_end s
    pub asked : far_end.pending c.network ≡ []
    pub left : near_end.pending c.network ≡ lag

  -- What the server makes of a request: it answers with these bytes, and its handler is then this one.
  abbrev pub Serves : ℕ → List ℕ → Session H N → H → List ℕ → Type 0
  Serves id bs s h wire =
      (n : N) → far_end.pending n ≡ packed id bs → Answers server far_end (plug n s) h wire []

  -- What a call comes to: its result, the client and the session after it, the
  -- handler after it, and what is then on
  -- its way to the client. The server serves on.
  abbrev pub Returns :
      {A : Type 0}
      → ℕ
      → ℕ
      → (Memory → ℕ → Outcome Memory)
      → (Memory → ℕ → Outcome A)
      → Provider N
      → Session H N
      → Outcome A
      → Provider N
      → Session H N
      → H
      → List ℕ
      → Type 0
  Returns id size serialize deserialize c s result c' t h rest =
      (exchange server near signed id size serialize deserialize c s ≡ ((result, c'), (again, t)))
      × Between rest c' t
      × (t.handler ≡ h)
      × (t.do_shutdown ≡ s.do_shutdown)

  module _ {A : Type 0} (id : ℕ) (bs : List ℕ) (serialize : Memory → ℕ → Outcome Memory)
      (deserialize : Memory → ℕ → Outcome A) (small : length bs ≤ max_text signed)
      (writes : Writes serialize bs) where
    -- After a round that goes on, the client reads the package that comes first: one that was left, or
    -- the answer.
    pub exchange_reads :
        (id' : ℕ) (payload rest lag wire : List ℕ) (h : H) (c : Provider N) (s : Session H N)
        → Between lag c s
        → Serves id bs s h wire
        → length payload < buf_size
        → lag ++ wire ≡ packed id' payload ++ rest
        → (c' : Provider N) × (t : Session H N) × (exchange server near signed id
              (length bs)
              serialize
              deserialize
              c
              s
            ≡ (after_reply near signed id deserialize (header_of 0 id' payload) c', (again, t)))
          × Holds c'.buffer.cells 0 payload
          × Between rest c' t
          × (t.handler ≡ h)
          × (t.do_shutdown ≡ s.do_shutdown)
    unfolding request await
    exchange_reads id' payload rest lag wire h c s between serves fits first =
        let (n, d, went, at_n, order, quiet, full, code) =
          pack_send near near_end signed id bs serialize c small between.client.0 writes in
        let (t, ran, now, told, taken, ready, quiet_flag) = serves d.network (
          sym (link.up d.network)
          ∙ ap near_end.sent at_n
          ∙ order
          ∙ ap (λ b. b ++ packed id bs) (link.up c.network ∙ between.asked)) in
        let there : near_end.pending t.provider.network ≡ packed id' payload ++ rest =
          sym (link.down t.provider.network)
          ∙ told
          ∙ ap (λ b. b ++ wire)
              (link.down d.network ∙ ap near_end.pending at_n ∙ quiet ∙ between.left)
          ∙ first in
        let (u, got, (left, order', held, full', code')) =
          recv_package_lem near near_end id' payload rest
            (record d { network = t.provider.network }) fits full there in
        let zero_code : d.err_code ≡ 0 = code ∙ between.client.1 in
        (
          u,
          t,
          rw (went, ran, got, zero_code) refl,
          held,
          record {
            client = (full' ∙ full, code' ∙ zero_code);
            ready = ready;
            asked = sym (link.up u.network) ∙ order' ∙ link.up t.provider.network ∙ taken;
            left = left;
          },
          now,
          quiet_flag,
        )

    -- The package that comes first is an error.
    pub exchange_throws :
        (name msg rest lag wire : List ℕ) (h : H) (c : Provider N) (s : Session H N)
        → to_str signed id ≡ ok name
        → Between lag c s
        → Serves id bs s h wire
        → length msg < buf_size
        → lag ++ wire ≡ packed 0 msg ++ rest
        → (c' : Provider N) × (t : Session H N) × Returns id
            (length bs)
            serialize
            deserialize
            c
            s
            (throw (runtime_error (proc_message name msg)))
            c'
            t
            h
            rest
    unfolding after_reply proc_exception
    exchange_throws name msg rest lag wire h c s named between serves fits first =
        let (c', t, ran, held, after, now, flag) =
          exchange_reads 0 msg rest lag wire h c s between serves fits first in
        (c', t, (ran ∙ rw named refl, after, now, flag))

    -- The package that comes first is a reply that is unpacked.
    pub exchange_unpacks :
        (id' : ℕ) (payload rest lag wire : List ℕ) (Good : A → Type 0) (h : H) (c : Provider N)
        (s : Session H N)
        → id' ≢ 0
        → ((m : Memory)
            → Holds m.cells 0 payload
            → m.size ≡ buf_size
            → (a : A) × (deserialize m 0 ≡ ok a) × Good a)
        → Between lag c s
        → Serves id bs s h wire
        → length payload < buf_size
        → lag ++ wire ≡ packed id' payload ++ rest
        → (c' : Provider N) × (t : Session H N) × (a : A) × Returns id
            (length bs)
            serialize
            deserialize
            c
            s
            (ok a)
            c'
            t
            h
            rest
          × Good a
    unfolding after_reply
    exchange_unpacks id' payload rest lag wire Good h c s n unpacks between serves fits first =
        let (c', t, ran, held, after, now, flag) =
          exchange_reads id' payload rest lag wire h c s between serves fits first in
        let test : (id' == 0) ≡ false = ground arith in
        let (a, e, good) = unpacks c'.buffer held after.client.0 in
        (c', t, a, (ran ∙ rw (test, e) refl, after, now, flag), good)
