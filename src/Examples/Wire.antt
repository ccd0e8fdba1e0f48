-- ===== src/Examples/Wire.antt =====
-- Messages, packages and rounds of the server on concrete bytes.
use roki_mb_daemon.Base.{
  ◌↔◌, inr, ℕ, zero, suc, ◌≡◌, refl, true, false, List, [], ◌∷◌, ◌++◌, ok, fault, str, arith,
  length, to_string_int, then_do,
}
use roki_mb_daemon.Memory.{Memory, le32}
use roki_mb_daemon.Firmware.{running}
use roki_mb_daemon.RpcDefs.ProcIds
use roki_mb_daemon.RpcDefs.{
  to_str, ChipStatus, serialize_status, deserialize_status, serialize_string,
}
use roki_mb_daemon.RpcDefs.Encoding.{
  User, Status, of_text, of_status, text_bytes, user_bytes, status_bytes, serialize_string_lem,
}
use roki_mb_daemon.RpcDefs.RoundTrip.{CarriesStatus, status_round_trip}
use roki_mb_daemon.Rpc.{Provider, recv_package, pack_msg, send_package, pack_error}
use roki_mb_daemon.Rpc.Receive.{header_of, Unpacked, recv_package_lem}
use roki_mb_daemon.Rpc.Send.{packed, Writes, pack_send}
use roki_mb_daemon.Rpc.Limits.{pack_error-overflow}
use roki_mb_daemon.Handler.{Handler, acquired_message, clear_port}
use roki_mb_daemon.Handler.Holder.{connected}
use roki_mb_daemon.Server.{decode, unknown, faulted, Session, serve_round}
use roki_mb_daemon.Handler.Holder.{is_ok}
use roki_mb_daemon.Server.Own.{ping, own_faults}
use roki_mb_daemon.Server.Unknown.{decode-to_str, foreign_echoed}
use roki_mb_daemon.Server.Rounds.{Answers, IsReady}
use roki_mb_daemon.Server.Answers.{refusal, connect_answer, connect_refused}
use roki_mb_daemon.Examples.{
  setup, device, handler, net, net-Healthy, Connection, provider, daemon, server, session,
}

abbrev ann : User
ann = record { user_name = str "ann"; user_pid = 42 }

abbrev status : Status
status = record { text = str "Running"; is_acquired = true; holder = ann }

abbrev memory : Memory
memory = record { cells = λ p. 0; size = 256 }

length-ann : length ann.user_name ≡ 3
unfolding str
length-ann = refl

length-status : length status.text ≡ 7
unfolding str
length-status = refl

length-ann_bytes : length (user_bytes ann) ≡ 8
unfolding user_bytes text_bytes str le32
length-ann_bytes = refl

length-status_bytes : length (status_bytes status) ≡ 17
unfolding status_bytes user_bytes text_bytes str le32
length-status_bytes = refl

status_round_trip_example :
    (m' : Memory) × (d : ChipStatus) × (serialize_status true (of_status status) memory 2 ≡ ok m')
    × (deserialize_status true m' 2 ≡ ok d)
    × CarriesStatus true d status
status_round_trip_example =
    status_round_trip true memory 2 status (omega (arith, length-status))
      (omega (arith, length-ann)) (omega arith) (omega (arith, length-status_bytes))

recv_package_lem_example :
    (t : Provider Connection) × (recv_package net (provider (4 ∷ 2 ∷ 65 ∷ 66 ∷ 5 ∷ []))
      ≡ (ok (header_of 0 4 (65 ∷ 66 ∷ [])), t))
    × Unpacked net net-Healthy (65 ∷ 66 ∷ []) (5 ∷ []) (provider (4 ∷ 2 ∷ 65 ∷ 66 ∷ 5 ∷ [])) t
recv_package_lem_example =
    recv_package_lem net net-Healthy 4 (65 ∷ 66 ∷ []) (5 ∷ []) (provider (4 ∷ 2 ∷ 65 ∷ 66 ∷ 5 ∷ []))
      (omega arith) refl refl

text-Writes : Writes (serialize_string true (of_text (str "tty"))) (text_bytes (str "tty"))
unfolding str
text-Writes m fits = serialize_string_lem true (str "tty") m 2 (omega arith) fits

length-text_bytes : length (text_bytes (str "tty")) ≡ 4
unfolding text_bytes str
length-text_bytes = refl

pack_send_example :
    (n : Connection) × (t : Provider Connection) × (then_do
        (pack_msg 5 (length (text_bytes (str "tty"))) (serialize_string true (of_text (str "tty"))))
        (λ _. send_package net true)
        (provider [])
      ≡ (ok tt, t))
    × (t.network ≡ n)
    × (n.outbox ≡ [] ++ packed 5 (text_bytes (str "tty")))
    × (n.inbox ≡ [])
    × (t.buffer.size ≡ 256)
    × (t.err_code ≡ 0)
pack_send_example =
    pack_send net net-Healthy true 5 (text_bytes (str "tty"))
      (serialize_string true (of_text (str "tty"))) (provider []) (omega (arith, length-text_bytes))
      refl text-Writes

abbrev copies : ℕ → List ℕ
copies zero = []
copies (suc n) = 97 ∷ copies n

length-copies : (n : ℕ) → length (copies n) ≡ n
length-copies zero = refl
length-copies (suc n) = omega (arith, length-copies n)

pack_error-overflow_example : (pack_error net (copies 255) (provider [])).0 ≡ fault
pack_error-overflow_example =
    pack_error-overflow net (copies 255) (provider []) (length-copies 255) refl

abbrev full_package : Provider Connection
full_package = record (provider []) { buffer = record { cells = λ p. 200; size = 256 } }

abbrev asking_status : Session (Handler ℕ) Connection
asking_status = session (handler running true (str "bob")) (packed ProcIds.get_status [] ++ [])

ready : (h : Handler ℕ) (bs : List ℕ) → IsReady server net-Healthy (session h bs)
ready h bs = record { full = refl; code = refl }

length-bob : length (str "bob") ≡ 3
unfolding str
length-bob = refl

abbrev asking_connect : Handler ℕ → Session (Handler ℕ) Connection
asking_connect h = session h (packed ProcIds.connect (user_bytes ann) ++ [])

cleared : (clear_port device 4 (handler running false []).mb_port 0).0 ≡ ok tt
unfolding clear_port
cleared = refl

length-mb_port : length (handler running false []).mb_port ≡ 12
unfolding str
length-mb_port = refl

connect_answer_example :
    Answers server net-Healthy
      (asking_connect (handler running false []))
      (connected setup (str "ann") 42 (handler running false []))
      (packed ProcIds.connect (text_bytes (handler running false []).mb_port))
      []
connect_answer_example =
    connect_answer daemon net-Healthy [] (asking_connect (handler running false [])) (ready _ _) ann
      (omega (arith, length-ann_bytes)) (omega arith) refl refl refl cleared
      (omega (arith, length-mb_port))

abbrev held : Handler ℕ
held = handler running true (str "bob")

length-held_message : length (refusal held) ≡ 50
unfolding acquired_message str to_string_int
length-held_message = refl

connect_refused_example :
    let error = packed 0 (refusal held) in
    Answers server net-Healthy (asking_connect held) held (error ++ error) []
connect_refused_example =
    connect_refused daemon net-Healthy [] (asking_connect held) (ready _ _) ann
      (omega (arith, length-ann_bytes)) (omega arith) refl refl (omega (arith, length-held_message))

decode-to_str_example : (decode true 13 memory ≡ unknown) ↔ (is_ok (to_str true 13) ≡ false)
decode-to_str_example = decode-to_str true 13 memory (λ e. absurd (omega arith))

abbrev idle : Handler ℕ
idle = handler running false (str "bob")

foreign_echoed_example :
    Answers server net-Healthy (session idle (packed 13 [] ++ [])) idle (packed 13 []) []
foreign_echoed_example =
    foreign_echoed server net-Healthy 13 [] (session idle (packed 13 [] ++ []))
      (inr (inr (omega arith))) (ready _ _) refl

own_faults_example : (serve_round server (session idle (packed ProcIds.ping [] ++ []))).0 ≡ faulted
own_faults_example =
    own_faults server net-Healthy ping [] (session idle (packed ProcIds.ping [] ++ [])) (ready _ _)
      refl refl
