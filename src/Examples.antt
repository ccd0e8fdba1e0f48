-- ===== src/Examples.antt =====
-- Concrete inputs: a small operating system, a port, a connection, and states of the daemon.
pub mod Chip
pub mod Port
pub mod Wire
pub mod Launch
pub mod Calls
pub mod CommandLine
pub mod Pool
pub mod Sockets
pub mod Links
pub mod Terminal
pub mod Daemon
pub mod Rivals
pub mod Routine
pub mod Start
use roki_mb_daemon.Base.{
  ℕ, zero, suc, ◌+◌, ◌≤◌, ◌<◌, ◌≡◌, refl, Bool, true, false, List, [], ◌∷◌, ◌++◌, none, some, arith,
  length, take, take-length, take-append-drop, str, ap, sym,
}
use roki_mb_daemon.HwUtils.{Os, exited}
use roki_mb_daemon.Firmware.{FwState, boot, running, in_fault, empty, Firmware}
use roki_mb_daemon.Memory.{Memory}
use roki_mb_daemon.Streams.{Network, RecvResult, received, accepted, Healthy}
use roki_mb_daemon.Rpc.{Provider}
use roki_mb_daemon.Rpc.Send.{packed}
use roki_mb_daemon.Handler.{Handler, Setup, Device, count}
use roki_mb_daemon.Server.{Server, Session}
use roki_mb_daemon.Server.Handlers.{ChipDaemon, as_server}

-- The world counts the scripts that have run; every script succeeds.
abbrev pub os : Os ℕ
os = record {
  fork = λ w. (none, w);
  dup2 = λ fd w. (none, w);
  wait = λ w. (none, w);
  sh = λ cmd w. (some (exited 0), w + 1);
  close = λ fd w. w;
}

abbrev pub dir : List ℕ
dir = str "scripts/"

abbrev pub device : Device ℕ
device = record { open_file = λ path w. (none, w); read_file = λ w. (count 0, w) }

abbrev pub setup : Setup ℕ
setup = record { os = os; device = device; scripts_dir = dir; char_signed = true; max_reads = 4 }

abbrev pub firmware : FwState → Firmware ℕ
firmware s = record { state = s; routine_name = empty; mb_port = str "/dev/ttyAMA0"; world = 0 }

abbrev pub handler : FwState → Bool → List ℕ → Handler ℕ
handler s acquired name = record {
  firmware = firmware s;
  acquired = acquired;
  user_name = name;
  user_pid = 7;
}

-- A connection that delivers one byte at a time and accepts all that is sent.
pub record Connection : Type 0 where
  pub inbox : List ℕ
  pub outbox : List ℕ

abbrev pub recv_one : List ℕ → ℕ → Connection → RecvResult × Connection
recv_one [] k c = (received [], c)
recv_one (b ∷ bs) k c = (received (b ∷ []), record c { inbox = bs })

abbrev pub net : Network Connection
net = record {
  recv = λ k c. recv_one c.inbox k c;
  send = λ bs c. (accepted (length bs), record c { outbox = c.outbox ++ bs });
}

pub recv_one_lem :
    (inbox : List ℕ) (k : ℕ) (c : Connection)
    → c.inbox ≡ inbox
    → 0 < k
    → 0 < length inbox
    → (bs : List ℕ) × (c' : Connection) × (recv_one inbox k c ≡ (received bs, c'))
      × (0 < length bs)
      × (length bs ≤ k)
      × (inbox ≡ bs ++ c'.inbox)
      × (c'.outbox ≡ c.outbox)
recv_one_lem [] k c e h h' = absurd (omega arith)
recv_one_lem (b ∷ bs) k c e h h' =
    (b ∷ [], record c { inbox = bs }, refl, omega arith, omega arith, refl, refl)

abbrev pub net-Healthy : Healthy net
net-Healthy = record {
  pending = λ c. c.inbox;
  sent = λ c. c.outbox;
  recv_prefix = λ k c h h'. recv_one_lem c.inbox k c refl h h';
  send_prefix = λ bs c h. (
    length bs,
    record c { outbox = c.outbox ++ bs },
    refl,
    h,
    omega arith,
    ap (λ xs. c.outbox ++ xs) (sym (take-length bs)),
    refl,
  );
}

abbrev pub provider : List ℕ → Provider Connection
provider bytes = record {
  buffer = record { cells = λ p. 0; size = 256 };
  err_code = 0;
  network = record { inbox = bytes; outbox = [] };
}

abbrev pub daemon : ChipDaemon ℕ Connection
daemon = record { setup = setup; net = net; strerror = λ e. str "error"; null_reply_passes = false }

abbrev pub server : Server (Handler ℕ) Connection
server = as_server daemon

abbrev pub session : Handler ℕ → List ℕ → Session (Handler ℕ) Connection
session h bytes = record { handler = h; provider = provider bytes; do_shutdown = false }
