-- ===== src/Server/Requests.antt =====
-- Src/Server.cpp, Src/RPCDefs.cpp: the packages of the requests, and what the `switch` makes of them.
use roki_mb_daemon.Base.{ℕ, ◌^◌, ◌≤◌, ◌<◌, ◌≡◌, refl, Bool, List, [], arith, length, str}
use roki_mb_daemon.RpcDefs.ProcIds
use roki_mb_daemon.RpcDefs.{ByteString, UserData, to_str}
use roki_mb_daemon.RpcDefs.Encoding.{max_text, User, text_bytes, user_bytes, length-user_bytes}
use roki_mb_daemon.RpcDefs.RoundTrip.{Carries, CarriesUser, string_decodes, user_decodes}
use roki_mb_daemon.Streams.{Healthy}
use roki_mb_daemon.Rpc.Send.{max_text-le}
use roki_mb_daemon.Handler.{
  Request, asks_status, asks_start, asks_reset, asks_disconnect, asks_flash, asks_connect,
}
use roki_mb_daemon.Server.{Server, decode}
use roki_mb_daemon.Server.Rounds.{Asks}

-- The requests with nothing in them, and their ids.
pub data Plain : ℕ → Request → Type 0 where
  status : Plain ProcIds.get_status asks_status
  start : Plain ProcIds.start asks_start
  reset : Plain ProcIds.reset asks_reset
  disconnect : Plain ProcIds.disconnect asks_disconnect

-- A request to connect in this user's name.
abbrev pub ConnectAs : Bool → User → Request → Type 0
ConnectAs char_signed u q = (d : UserData) × (q ≡ asks_connect d) × CarriesUser char_signed d u

-- A request to flash the firmware at this path.
abbrev pub FlashOf : Bool → List ℕ → Request → Type 0
FlashOf char_signed path q = (s : ByteString) × (q ≡ asks_flash s) × Carries char_signed s path

module _ {H N : Type 0} (server : Server H N) (healthy : Healthy server.net) where
  open server use {char_signed}

  pub plain-Asks : {id : ℕ} {r : Request} → Plain id r → Asks server healthy id [] (λ q. q ≡ r)
  unfolding decode to_str
  plain-Asks status = (
    (λ e. absurd (omega arith)),
    omega arith,
    (λ m held full. (asks_status, refl, refl)),
    (str "GetStatus", refl),
  )
  plain-Asks start = (
    (λ e. absurd (omega arith)),
    omega arith,
    (λ m held full. (asks_start, refl, refl)),
    (str "Start", refl),
  )
  plain-Asks reset = (
    (λ e. absurd (omega arith)),
    omega arith,
    (λ m held full. (asks_reset, refl, refl)),
    (str "Reset", refl),
  )
  plain-Asks disconnect = (
    (λ e. absurd (omega arith)),
    omega arith,
    (λ m held full. (asks_disconnect, refl, refl)),
    (str "Disconnect", refl),
  )

  pub connect-Asks :
      (u : User)
      → length (user_bytes u) ≤ max_text char_signed
      → u.user_pid < 2 ^ 32
      → Asks server healthy ProcIds.connect (user_bytes u) (ConnectAs char_signed u)
  unfolding decode to_str
  connect-Asks u small is_pid = (
    (λ e. absurd (omega arith)),
    omega (arith, max_text-le char_signed),
    (λ m held full.
        let (d, e, c) =
          user_decodes char_signed m 0 u (omega (arith, length-user_bytes u)) is_pid held
            (omega (arith, max_text-le char_signed)) in
        (asks_connect d, rw e, (d, refl, c))),
    (str "Connect", refl),
  )

  pub flash-Asks :
      (path : List ℕ)
      → length path < max_text char_signed
      → Asks server healthy ProcIds.flash (text_bytes path) (FlashOf char_signed path)
  unfolding decode to_str text_bytes
  flash-Asks path small = (
    (λ e. absurd (omega arith)),
    omega (arith, max_text-le char_signed),
    (λ m held full.
        let (d, e, c) =
          string_decodes char_signed m 0 path (omega arith) held
            (omega (arith, max_text-le char_signed)) in
        (asks_flash d, rw e, (d, refl, c))),
    (str "Flash", refl),
  )
