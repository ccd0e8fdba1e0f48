-- ===== src/Examples/Launch.antt =====
-- The handshake of a launch, and attempts to connect, on concrete inputs.
use roki_mb_daemon.Base.{
  ℕ, ◌+◌, [], ok, throw, runtime_error, errno_exception, Exec, str, ltb, if◌then◌else◌,
}

-- The daemon's port is in use, and connections succeed from the world 2 on.
abbrev dummy : Exec ℕ (Unit {0})
dummy w = (throw (errno_exception (str "bind") 98), w)

abbrev attempt : Exec ℕ ℕ
attempt w = if ltb w 2 then (throw (runtime_error []), w + 1) else (ok 5, w)
