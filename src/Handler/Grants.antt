-- ===== src/Handler/Grants.antt =====
-- Src/HandlerImpl.cpp: how the grants of the port and its releases alternate, where the requests are
-- handled one at a time.
use roki_mb_daemon.Base.{ℕ, ◌+◌, ◌≡◌, refl, Bool, true, false, List, [], ◌∷◌, arith, str}
use roki_mb_daemon.Handler.{
  Handler, Setup, Request, asks_status, asks_start, asks_reset, asks_disconnect, asks_flash,
  asks_connect, handle, disconnect,
}
use roki_mb_daemon.Handler.Holder.{is_ok, held_refuses, handle-hold}

module _ {W : Type 0} (setup : Setup W) where
  -- Handling a sequence of requests, and how many grants and releases it makes.
  unfoldable pub serve : List Request → Handler W → Handler W
  serve [] h = h
  serve (r ∷ rs) h = serve rs (handle setup r h).1

  abbrev granted_one : Request → Bool → ℕ
  granted_one (asks_connect user) true = 1
  granted_one _ _ = 0

  abbrev released_one : Request → Bool → ℕ
  released_one asks_disconnect true = 1
  released_one _ _ = 0

  pub grants : List Request → Handler W → ℕ
  grants [] h = 0
  grants (r ∷ rs) h = granted_one r (is_ok (handle setup r h).0) + grants rs (handle setup r h).1

  pub releases : List Request → Handler W → ℕ
  releases [] h = 0
  releases (r ∷ rs) h =
      released_one r (is_ok (handle setup r h).0) + releases rs (handle setup r h).1

  abbrev pub held_count : Bool → ℕ
  held_count true = 1
  held_count false = 0

  -- A grant finds the port free, and a release finds it held.
  handle-count :
      (r : Request) (h : Handler W)
      → granted_one r (is_ok (handle setup r h).0) + held_count h.acquired
        ≡ released_one r (is_ok (handle setup r h).0) + held_count (handle setup r h).1.acquired
  handle-count (asks_connect user) h =
      let r : Request = asks_connect user in
      ground (arith, handle-hold setup r h, held_refuses setup r (str "Connect") h refl)
  handle-count asks_disconnect h = unfold handle disconnect in ground arith
  handle-count asks_status h = ground (arith, handle-hold setup asks_status h)
  handle-count (asks_flash path) h = ground (arith, handle-hold setup (asks_flash path) h)
  handle-count asks_start h = ground (arith, handle-hold setup asks_start h)
  handle-count asks_reset h = ground (arith, handle-hold setup asks_reset h)

  -- The port is granted to one client at a time: over any sequence of requests, from any state, the
  -- grants and the holds before it are as many as the releases and the holds after it (a hold is 0 or 1).
  pub grants-releases :
      (rs : List Request) (h : Handler W)
      → grants rs h + held_count h.acquired ≡ releases rs h + held_count (serve rs h).acquired
  unfolding grants releases serve
  grants-releases [] h = refl
  grants-releases (r ∷ rs) h =
      omega (arith, handle-count r h, grants-releases rs (handle setup r h).1)
