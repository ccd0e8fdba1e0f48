-- ===== src/Cli/Runs.antt =====
-- Src/CLI.cpp: what a command sends and prints, by what the daemon answers.
use mathlib.Core.List.{append_assoc, append-nil}
use roki_mb_daemon.Base.{
  ℕ, ◌^◌, ◌<◌, ◌≡◌, ◌≢◌, refl, sym, ap, ◌∙◌, Bool, List, [], ◌++◌, if◌then◌else◌, ok, str, arith,
  length, to_string_int, Bool-cases, inl, inr,
}
use roki_mb_daemon.Memory.{write}
use roki_mb_daemon.RpcDefs.{ByteString, ChipStatus, UserData, to_cxx_str}
use roki_mb_daemon.RpcDefs.ProcIds
use roki_mb_daemon.RpcDefs.Encoding.{max_text, User, Status, status_bytes}
use roki_mb_daemon.RpcDefs.RoundTrip.{CarriesUser, CarriesStatus}
use roki_mb_daemon.Streams.{Network, Healthy}
use roki_mb_daemon.Rpc.{buf_size}
use roki_mb_daemon.Rpc.Send.{packed}
use roki_mb_daemon.Client.Calls.{IsClient, Called, call_unpacks, call_status}
use roki_mb_daemon.Client.Farewell.{farewell, soft_disconnect-twice}
use roki_mb_daemon.Cli.Output.{endl}
use roki_mb_daemon.Cli.Commands.{
  Attached, goodbye, plain, empty_message, no_reply, show_string, answer, show_user, show_status,
  status,
}

-- The text that describes a status.
user_text : User → List ℕ
user_text u =
    (str "User name:  " ++ (u.user_name ++ endl))
    ++ (str "User PID:   " ++ (to_string_int u.user_pid ++ endl))

unfoldable pub status_text : Status → List ℕ
unfolding user_text
status_text st =
    (str "Chip status: " ++ (st.text ++ endl))
    ++ ((str "Is acquired: " ++ ((if st.is_acquired then str "Yes" else str "No") ++ endl))
        ++ (if st.is_acquired then user_text st.holder else []))

module _ {W : Type 0} (net : Network W) (signed : Bool) where
  abbrev printed : Attached W → List ℕ → Attached W
  printed a text = record a { output = a.output ++ text }

  show_string_lem :
      (label text : List ℕ) (s : ByteString) (a : Attached W)
      → to_cxx_str signed s ≡ ok text
      → show_string net signed label s a ≡ (ok tt, printed a (label ++ (text ++ endl)))
  unfolding show_string
  show_string_lem label text s a h = rw (h, append_assoc a.output label (text ++ endl)) refl

  show_user_lem :
      (d : UserData) (u : User) (a : Attached W)
      → CarriesUser signed d u
      → show_user net signed d a ≡ (ok tt, printed a (user_text u))
  unfolding show_user user_text
  show_user_lem d u a h = let ((name, size), pid) = h in rw (name, pid) (simp append_assoc refl)

  show_status_lem :
      (d : ChipStatus) (st : Status) (a : Attached W)
      → CarriesStatus signed d st
      → show_status net signed d a ≡ (ok tt, printed a (status_text st))
  unfolding show_status status_text answer
  show_status_lem d st a h =
      let ((text, size), flag, ((name, size'), pid)) = h in
      elim (Bool-cases st.is_acquired) [
        | inl e ↦ rw (text, flag ∙ e, e, name, pid) (simp append_assoc refl)
        | inr e ↦ rw (text, flag ∙ e, e) (simp (append_assoc, append-nil) refl)
      ]

  module _ (healthy : Healthy net) where
    open healthy use {pending, sent}

    -- A finished command: what it printed and sent, and the answer is taken from the connection.
    abbrev pub Finished : List ℕ → List ℕ → List ℕ → Attached W → Attached W → Type 0
    Finished text wire rest a b =
        (b.output ≡ a.output ++ text) × Called net healthy signed wire rest a.provider b.provider

    goodbye_lem :
        (a : Attached W)
        → IsClient net healthy signed a.provider
        → (b : Attached W) × (goodbye net signed a ≡ (ok tt, b))
          × Finished [] (farewell ++ farewell) (pending a.provider.network) a b
    unfolding goodbye
    goodbye_lem a h =
        let (t, ran, after) = soft_disconnect-twice net healthy signed a.provider h in
        (record a { provider = t }, rw ran refl, (sym (append-nil a.output), after))

    -- The farewell after a call.
    finished :
        (text wire rest : List ℕ) (a b c : Attached W)
        → b.output ≡ a.output ++ text
        → Called net healthy signed wire rest a.provider b.provider
        → Finished [] (farewell ++ farewell) (pending b.provider.network) b c
        → Finished text (wire ++ (farewell ++ farewell)) rest a c
    finished text wire rest a b c out (went, left, is_client) (out', (went', left', is_client')) = (
      out' ∙ append-nil b.output ∙ out,
      (
        went'
            ∙ ap (λ xs. xs ++ (farewell ++ farewell)) went
            ∙ append_assoc (sent a.provider.network) wire (farewell ++ farewell),
        left' ∙ left,
        is_client',
      ),
    )

    -- A command without arguments, on a healthy connection on which a package arrives that is no error,
    -- returns, prints nothing, and sends the empty request and then the farewell, twice.
    pub plain_lem :
        (id id' : ℕ) (payload rest : List ℕ) (a : Attached W)
        → id' ≢ 0
        → length payload < buf_size
        → IsClient net healthy signed a.provider
        → pending a.provider.network ≡ packed id' payload ++ rest
        → (b : Attached W) × (plain net signed id a ≡ (ok tt, b))
          × Finished [] (packed id [] ++ (farewell ++ farewell)) rest a b
    unfolding plain write
    plain_lem id id' payload rest a n fits is_client p =
        let (t, ran, after, held) =
          call_unpacks net healthy signed id [] (empty_message net signed) (no_reply net signed)
            (omega arith) (λ m h. refl) id' payload rest a.provider n fits is_client p in
        let (b, bye, ends) = goodbye_lem (record a { provider = t }) after.2 in
        (
          b,
          rw (ran, bye) refl,
          finished [] (packed id []) rest a (record a { provider = t }) b (sym (append-nil _)) after
              ends,
        )

    -- `mbctl chip status`, on a healthy connection on which the package of a status arrives, prints the
    -- text of that status and nothing else, and sends the request and then the farewell, twice. The
    -- conditions on the status are those of the call.
    pub status_prints :
        (st : Status) (rest : List ℕ) (a : Attached W)
        → length st.text < max_text signed
        → length st.holder.user_name < max_text signed
        → st.holder.user_pid < 2 ^ 32
        → length (status_bytes st) < buf_size
        → IsClient net healthy signed a.provider
        → pending a.provider.network ≡ packed ProcIds.get_status (status_bytes st) ++ rest
        → (b : Attached W) × (status net signed a ≡ (ok tt, b))
          × Finished
              (status_text st)
              (packed ProcIds.get_status [] ++ (farewell ++ farewell))
              rest
              a
              b
    unfolding status
    status_prints st rest a small small' is_pid fits is_client p =
        let (t, d, ran, carries, after) =
          call_status net healthy signed st rest a.provider small small' is_pid fits is_client p in
        let c : Attached W = printed (record a { provider = t }) (status_text st) in
        let (b, bye, ends) = goodbye_lem c after.2 in
        (
          b,
          rw (ran, show_status_lem d st (record a { provider = t }) carries, bye) refl,
          finished (status_text st) (packed ProcIds.get_status []) rest a c b refl after ends,
        )
