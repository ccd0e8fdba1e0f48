-- ===== src/RpcDefs/ProcIds.antt =====
-- Inc/roki-mb-daemon/RPCDefs.hpp: `struct ProcIDs`, used qualified.
use roki_mb_daemon.Base.{ℕ}

abbrev pub error : ℕ
error = 0

abbrev pub flash : ℕ
flash = 1

abbrev pub start : ℕ
start = 2

abbrev pub connect : ℕ
connect = 3

abbrev pub disconnect : ℕ
disconnect = 4

abbrev pub reset : ℕ
reset = 5

abbrev pub get_status : ℕ
get_status = 8

abbrev pub shutdown : ℕ
shutdown = 9

abbrev pub ping : ℕ
ping = 10

abbrev pub debug_throw : ℕ
debug_throw = 11

abbrev pub debug_block : ℕ
debug_block = 12
