-- ===== src/Cli/Commands.antt =====
-- Src/CLI.cpp: what each command of `mbctl` calls and prints.
use roki_mb_daemon.Base.{
  ℕ, ◌%◌, Bool, List, [], ◌∷◌, ◌++◌, some, if◌then◌else◌, Outcome, ok, Exec, then_do, str,
  to_string_int, length,
}
use roki_mb_daemon.Memory.{Memory}
use roki_mb_daemon.RpcDefs.ProcIds
use roki_mb_daemon.RpcDefs.{
  ByteString, UserData, ChipStatus, string_packed_size, user_packed_size, serialize_string,
  serialize_user, deserialize_string, deserialize_status, to_cxx_str,
}
use roki_mb_daemon.Streams.{Network}
use roki_mb_daemon.Rpc.{Provider}
use roki_mb_daemon.Client.{call, soft_disconnect}
use roki_mb_daemon.Cli.Output.{endl}

-- What has been printed, and the world; with a client, also its connection.
pub record Terminal (W : Type 0) : Type 0 where
  pub output : List ℕ
  pub world : W

pub record Attached (W : Type 0) : Type 0 where
  pub output : List ℕ
  pub provider : Provider W

module _ {W : Type 0} where
  abbrev pub put : List ℕ → Exec (Terminal W) (Unit {0})
  put text t = (ok tt, record t { output = t.output ++ text })

  abbrev pub show : List ℕ → Exec (Attached W) (Unit {0})
  show text a = (ok tt, record a { output = a.output ++ text })

  abbrev pub on_world : {A : Type 0} → Exec W A → Exec (Terminal W) A
  on_world m t = let (r, w) = m t.world in (r, record t { world = w })

  abbrev pub on_provider : {A : Type 0} → Exec (Provider W) A → Exec (Attached W) A
  on_provider m a = let (r, p) = m a.provider in (r, record a { provider = p })

  abbrev pub with_result : {A : Type 0} → Outcome A → Exec (Attached W) A
  with_result r a = (r, a)

-- What is done with a client on the connection `net`.
module _ {W : Type 0} (net : Network W) (signed : Bool) where
  abbrev pub empty_message : Memory → ℕ → Outcome Memory
  empty_message m p = ok m

  abbrev pub no_reply : Memory → ℕ → Outcome (Unit {0})
  no_reply m p = ok tt

  unfoldable pub goodbye : Exec (Attached W) (Unit {0})
  goodbye = on_provider (soft_disconnect net signed)

  -- A call of a procedure without arguments and without a reply, and `SoftDisconnect`.
  unfoldable pub plain : ℕ → Exec (Attached W) (Unit {0})
  unfolding goodbye
  plain id = then_do (on_provider (call net signed id 0 empty_message no_reply)) (λ _. goodbye)

  -- `req.Data = path.c_str()`.
  path_request : List ℕ → ByteString
  path_request path = record { bytes = some (path ++ 0 ∷ []); size = length path % 256 }

  unfoldable pub flash : List ℕ → Exec (Attached W) (Unit {0})
  unfolding path_request goodbye
  flash path =
      let req = path_request path in
      then_do
        (on_provider (
          call net signed ProcIds.flash (string_packed_size req) (serialize_string signed req)
            no_reply))
        (λ _. goodbye)

  -- `std::cout << label << s.ToCxxStr() << std::endl`, from left to right.
  unfoldable pub show_string : List ℕ → ByteString → Exec (Attached W) (Unit {0})
  show_string label s =
      then_do (show label)
        (λ _. then_do (with_result (to_cxx_str signed s)) (λ text. show (text ++ endl)))

  unfoldable pub answer : Bool → List ℕ
  answer acquired = if acquired then str "Yes" else str "No"

  unfoldable pub show_user : UserData → Exec (Attached W) (Unit {0})
  unfolding show_string
  show_user user =
      then_do (show_string (str "User name:  ") user.name)
        (λ _. show (str "User PID:   " ++ (to_string_int user.pid ++ endl)))

  unfoldable pub show_status : ChipStatus → Exec (Attached W) (Unit {0})
  unfolding show_string answer show_user
  show_status c = then_do (show_string (str "Chip status: ") c.description) (λ _.
      then_do (show (str "Is acquired: " ++ (answer c.acquired ++ endl)))
        (λ _ a. if c.acquired then show_user c.user a else (ok tt, a)))

  unfoldable pub status : Exec (Attached W) (Unit {0})
  unfolding show_status goodbye
  status =
      then_do
        (on_provider
          (call net signed ProcIds.get_status 0 empty_message (deserialize_status signed)))
        (λ c. then_do (show_status c) (λ _. goodbye))

  debug_user : ℕ → UserData
  debug_user pid = record {
    name = record { bytes = some (str "CLI Debug" ++ 0 ∷ []); size = 9 };
    pid = pid;
  }

  unfoldable pub connect_user : ℕ → Exec (Attached W) (Unit {0})
  unfolding debug_user show_string goodbye
  connect_user pid =
      let user = debug_user pid in
      then_do
        (on_provider (
          call net signed ProcIds.connect (user_packed_size user) (serialize_user signed user)
            (deserialize_string signed)))
        (λ port. then_do (show_string (str "Motherboard port is ") port) (λ _. goodbye))
