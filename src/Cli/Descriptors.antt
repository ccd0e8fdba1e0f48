-- ===== src/Cli/Descriptors.antt =====
-- Src/CLI.cpp: what a command does with a client keeps the connection's descriptors, and the client's
-- connection is closed behind it.
use roki_mb_daemon.Base.{
  ℕ, ◌≡◌, refl, Bool, true, false, if◌then◌else◌, List, Outcome, ok, Exec, then_do, Keeps,
  then_do-Keeps,
}
use roki_mb_daemon.Memory.{Memory}
use roki_mb_daemon.Streams.{Network}
use roki_mb_daemon.RpcDefs.{ByteString, UserData, ChipStatus}
use roki_mb_daemon.Rpc.{Provider}
use roki_mb_daemon.Rpc.Keeps.{Still}
use roki_mb_daemon.Client.Keeps.{call-Still, soft_disconnect-Still}
use roki_mb_daemon.Client.{call, soft_disconnect}
use roki_mb_daemon.Cli.Commands.{
  Attached, show, on_provider, with_result, goodbye, plain, flash, show_string, show_user,
  show_status, status, connect_user,
}

-- A call that keeps a view of the state.
pub record Leaves {S X A : Type 0} (view : S → X) (m : Exec S A) : Type 0 where
  pub at : Keeps view m

module _ {S X : Type 0} (view : S → X) where
  pub Leaves-then :
      {A B : Type 0} (m : Exec S A) (f : A → Exec S B)
      → Leaves view m
      → ((a : A) → Leaves view (f a))
      → Leaves view (then_do m f)
  Leaves-then m f h k = record { at = then_do-Keeps view m f h.at (λ a. (k a).at) }

module _ {W X : Type 0} (net : Network W) (signed : Bool) (view : W → X)
    (recv_still : (k : ℕ) (n : W) → view (net.recv k n).1 ≡ view n)
    (send_still : (bs : List ℕ) (n : W) → view (net.send bs n).1 ≡ view n) where
  abbrev pub wire : Attached W → X
  wire a = view a.provider.network

  pub Leaves-show : (text : List ℕ) → Leaves wire (show text)
  Leaves-show text = record { at = λ a. refl }

  pub Leaves-result : {A : Type 0} (r : Outcome A) → Leaves wire (with_result r)
  Leaves-result r = record { at = λ a. refl }

  pub Leaves-provider :
      {A : Type 0} (m : Exec (Provider W) A) → Still net view m → Leaves wire (on_provider m)
  Leaves-provider m k = record { at = λ a. k a.provider }

  pub Leaves-goodbye : Leaves wire (goodbye net signed)
  unfolding goodbye
  Leaves-goodbye =
      Leaves-provider (soft_disconnect net signed)
        (soft_disconnect-Still net view signed recv_still send_still)

  pub Leaves-call :
      {A : Type 0} (id size : ℕ) (serialize : Memory → ℕ → Outcome Memory)
      (deserialize : Memory → ℕ → Outcome A)
      → Leaves wire (on_provider (call net signed id size serialize deserialize))
  Leaves-call id size serialize deserialize =
      Leaves-provider (call net signed id size serialize deserialize)
        (call-Still net view signed recv_still send_still id size serialize deserialize)

  pub ruleset steps = (Leaves-then, Leaves-show, Leaves-result, Leaves-goodbye, Leaves-call)

  pub plain-Leaves : (id : ℕ) → Leaves wire (plain net signed id)
  unfolding plain
  plain-Leaves id = search steps

  pub flash-Leaves : (path : List ℕ) → Leaves wire (flash net signed path)
  unfolding flash
  flash-Leaves path = search steps

  show_string-Leaves :
      (label : List ℕ) (s : ByteString) → Leaves wire (show_string net signed label s)
  unfolding show_string
  show_string-Leaves label s = search steps

  show_user-Leaves : (user : UserData) → Leaves wire (show_user net signed user)
  unfolding show_user
  show_user-Leaves user = search (steps, show_string-Leaves)

  pub Leaves-if :
      (b : Bool) (m : Exec (Attached W) (Unit {0}))
      → Leaves wire m
      → Leaves wire (λ a. if b then m a else (ok tt, a))
  Leaves-if true m h = h
  Leaves-if false m h = record { at = λ a. refl }

  show_status-Leaves : (c : ChipStatus) → Leaves wire (show_status net signed c)
  unfolding show_status
  show_status-Leaves c = search (steps, show_string-Leaves, show_user-Leaves, Leaves-if)

  pub status-Leaves : Leaves wire (status net signed)
  unfolding status
  status-Leaves = search (steps, show_status-Leaves)

  pub connect_user-Leaves : (pid : ℕ) → Leaves wire (connect_user net signed pid)
  unfolding connect_user
  connect_user-Leaves pid = search (steps, show_string-Leaves)
