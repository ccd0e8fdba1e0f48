-- ===== src/Examples/Calls.antt =====
-- Calls of a client on a connection with concrete bytes.
use roki_mb_daemon.Base.{ℕ, ◌≡◌, refl, true, false, List, [], ◌∷◌, ◌++◌, Outcome, ok, str, length}
use roki_mb_daemon.Memory.{Memory, write, le32}
use roki_mb_daemon.RpcDefs.{to_str}
use roki_mb_daemon.RpcDefs.ProcIds
use roki_mb_daemon.RpcDefs.Encoding.{Status, text_bytes, user_bytes, status_bytes}
use roki_mb_daemon.Rpc.{Provider}
use roki_mb_daemon.Rpc.Send.{packed, Writes}
use roki_mb_daemon.Examples.{Connection, provider}

-- A message with nothing in it.
abbrev nothing : Memory → ℕ → Outcome Memory
nothing m p = ok m

abbrev no_reply : Memory → ℕ → Outcome (Unit {0})
no_reply m p = ok tt

nothing-Writes : Writes nothing []
unfolding write
nothing-Writes m h = refl

reset_named : to_str true ProcIds.reset ≡ ok (str "Reset")
unfolding to_str
reset_named = refl

abbrev error : List ℕ
error = 110 ∷ 111 ∷ []

abbrev twice : Provider Connection
twice = provider (packed 0 error ++ (packed 0 error ++ []))

abbrev idle_status : Status
idle_status = record {
  text = 66 ∷ 111 ∷ [];
  is_acquired = false;
  holder = record { user_name = 97 ∷ []; user_pid = 42 };
}

length-idle_status : length (status_bytes idle_status) ≡ 10
unfolding status_bytes user_bytes text_bytes le32
length-idle_status = refl

abbrev answered : Provider Connection
answered = provider (packed ProcIds.get_status (status_bytes idle_status) ++ [])
