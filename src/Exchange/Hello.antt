-- ===== src/Exchange/Hello.antt =====
-- Src/Server.cpp and Src/Client.cpp together: the hello, from the server's end of a connection to the
-- client's.
use roki_mb_daemon.Base.{ℕ, ◌^◌, ◌<◌, ◌≡◌, sym, ap, ◌∙◌, [], ◌++◌, ok}
use mathlib.Core.List.{append-nil}
use roki_mb_daemon.Streams.{Network}
use roki_mb_daemon.Server.Hello.{le16, hello_message, hello_send, hello_recv}
use roki_mb_daemon.Server.Hello.RoundTrip.{hello_send_lem, hello_round_trip}
use roki_mb_daemon.Exchange.{Link}

module _ {N : Type 0} (near far : Network N) (link : Link near far) where
  open link use {near_end, far_end}

  -- The port that the server sends at one end of a connection, in as many parts as the connection likes,
  -- is the port that the client receives at the other, and nothing is left on the way, where nothing was
  -- before. The port has 16 bits.
  pub hello_send-hello_recv :
      (port : ℕ) (garbage : ℕ → ℕ) (n : N)
      → port < 2 ^ 16
      → near_end.pending n ≡ []
      → (n' n'' : N) × ((hello_send far (hello_message port n)).0 ≡ ok tt)
        × ((hello_send far (hello_message port n)).1.conn ≡ n')
        × (hello_recv near garbage n' ≡ (ok port, n''))
        × (near_end.pending n'' ≡ [])
  hello_send-hello_recv port garbage n small quiet =
      let (n', sent, told) = hello_send_lem far far_end port n in
      let arrived : near_end.pending n' ≡ le16 port ++ [] =
        sym (link.down n')
        ∙ told
        ∙ ap (λ b. b ++ le16 port) (link.down n ∙ quiet)
        ∙ sym (append-nil (le16 port)) in
      let (n'', got, left) = hello_round_trip near near_end port [] garbage n' small arrived in
      (n', n'', ap (λ x. x.0) sent, ap (λ x. x.1.conn) sent, got, left)
