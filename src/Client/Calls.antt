-- ===== src/Client/Calls.antt =====
-- Src/Client.cpp: what a call returns, by what arrives on the connection.
use roki_mb_daemon.Base.{
  ℕ, ◌^◌, ◌≤◌, ◌<◌, ◌≡◌, ◌≢◌, refl, ap, ◌∙◌, Bool, false, List, [], ◌++◌, Outcome, ok, throw,
  runtime_error, arith, length, ◌==◌,
}
use roki_mb_daemon.Memory.{Memory, write}
use roki_mb_daemon.Memory.Laws.{Holds}
use roki_mb_daemon.RpcDefs.{ChipStatus, to_str, deserialize_status}
use roki_mb_daemon.RpcDefs.ProcIds
use roki_mb_daemon.RpcDefs.Encoding.{max_text, Status, status_bytes}
use roki_mb_daemon.RpcDefs.RoundTrip.{CarriesStatus, status_decodes}
use roki_mb_daemon.Streams.{Network, Healthy}
use roki_mb_daemon.Rpc.{buf_size, Provider}
use roki_mb_daemon.Rpc.Receive.{header_of, recv_package_lem}
use roki_mb_daemon.Rpc.Send.{packed, Writes, pack_send}
use roki_mb_daemon.Client.{proc_message, proc_exception, after_reply, request, await, call}

module _ {N : Type 0} (net : Network N) (healthy : Healthy net) (signed : Bool) where
  open healthy use {pending, sent}

  -- The buffer and the error code of a client.
  abbrev pub IsClient : Provider N → Type 0
  IsClient s = (s.buffer.size ≡ buf_size) × (s.err_code ≡ 0)

  -- After a call with this package, with so much not yet received.
  abbrev pub Called : List ℕ → List ℕ → Provider N → Provider N → Type 0
  Called wire rest s t =
      (sent t.network ≡ sent s.network ++ wire) × (pending t.network ≡ rest) × IsClient t

  module _ {A : Type 0} (id : ℕ) (bs : List ℕ) (serialize : Memory → ℕ → Outcome Memory)
      (deserialize : Memory → ℕ → Outcome A) (small : length bs ≤ max_text signed)
      (writes : Writes serialize bs) where
    call_receives :
        (id' : ℕ) (payload rest : List ℕ) (s : Provider N)
        → length payload < buf_size
        → IsClient s
        → pending s.network ≡ packed id' payload ++ rest
        → (t : Provider N) × (call net signed id (length bs) serialize deserialize s
            ≡ after_reply net signed id deserialize (header_of 0 id' payload) t)
          × Called (packed id bs) rest s t
          × Holds t.buffer.cells 0 payload
    unfolding call request await
    call_receives id' payload rest s fits is_client p =
        let (n, t, went, at_n, order, quiet, full, code) =
          pack_send net healthy signed id bs serialize s small is_client.0 writes in
        let arrived : pending t.network ≡ packed id' payload ++ rest =
          ap pending at_n ∙ quiet ∙ p in
        let (u, got, (left, order', held, full', code')) =
          recv_package_lem net healthy id' payload rest t fits full arrived in
        let zero_code : t.err_code ≡ 0 = code ∙ is_client.1 in
        (
          u,
          rw (went, got, zero_code) refl,
          (order' ∙ ap sent at_n ∙ order, left, (full' ∙ full, code' ∙ zero_code)),
          held,
        )

    -- A call on a healthy connection on which an error arrives throws it with the name of the procedure,
    -- whatever request the error was an answer to.
    pub call_throws :
        (name msg rest : List ℕ) (s : Provider N)
        → to_str signed id ≡ ok name
        → length msg < buf_size
        → IsClient s
        → pending s.network ≡ packed 0 msg ++ rest
        → (t : Provider N) × (call net signed id (length bs) serialize deserialize s
            ≡ (throw (runtime_error (proc_message name msg)), t))
          × Called (packed id bs) rest s t
    unfolding after_reply proc_exception
    call_throws name msg rest s named fits is_client p =
        let (t, ran, after, held) = call_receives 0 msg rest s fits is_client p in
        (t, ran ∙ rw named refl, after)

    -- A call on a healthy connection on which any other package arrives unpacks the reply from its
    -- payload.
    pub call_unpacks :
        (id' : ℕ) (payload rest : List ℕ) (s : Provider N)
        → id' ≢ 0
        → length payload < buf_size
        → IsClient s
        → pending s.network ≡ packed id' payload ++ rest
        → (t : Provider N) × (call net signed id (length bs) serialize deserialize s
            ≡ (deserialize t.buffer 0, t))
          × Called (packed id bs) rest s t
          × Holds t.buffer.cells 0 payload
    unfolding after_reply
    call_unpacks id' payload rest s n fits is_client p =
        let (t, ran, after, held) = call_receives id' payload rest s fits is_client p in
        let test : (id' == 0) ≡ false = ground arith in (t, ran ∙ rw test refl, after, held)

    -- Where an error arrives twice, two calls of the same procedure on a healthy
    -- connection both throw it: the second takes the copy for its own answer.
    pub second_call_throws :
        (name msg rest : List ℕ) (s : Provider N)
        → to_str signed id ≡ ok name
        → length msg < buf_size
        → IsClient s
        → pending s.network ≡ packed 0 msg ++ (packed 0 msg ++ rest)
        → (t u : Provider N) × (call net signed id (length bs) serialize deserialize s
            ≡ (throw (runtime_error (proc_message name msg)), t))
          × (call net signed id (length bs) serialize deserialize t
              ≡ (throw (runtime_error (proc_message name msg)), u))
          × Called (packed id bs) rest t u
    second_call_throws name msg rest s named fits is_client p =
        let (t, first, after) =
          call_throws name msg (packed 0 msg ++ rest) s named fits is_client p in
        let (u, second, after') = call_throws name msg rest t named fits after.2 after.1 in
        (t, u, first, second, after')

  -- A call of `GetStatus` on a healthy connection on which the package of a status arrives returns that
  -- status: its description, its flag, and the name and PID of the user. Both texts are shorter than the
  -- longest that a `char` can count, the status fits a package, and the PID is a 32-bit pattern.
  pub call_status :
      (st : Status) (rest : List ℕ) (s : Provider N)
      → length st.text < max_text signed
      → length st.holder.user_name < max_text signed
      → st.holder.user_pid < 2 ^ 32
      → length (status_bytes st) < buf_size
      → IsClient s
      → pending s.network ≡ packed ProcIds.get_status (status_bytes st) ++ rest
      → (t : Provider N) × (d : ChipStatus) × (call net signed ProcIds.get_status 0
            (λ m p. ok m)
            (deserialize_status signed)
            s
          ≡ (ok d, t))
        × CarriesStatus signed d st
        × Called (packed ProcIds.get_status []) rest s t
  unfolding write
  call_status st rest s small small' is_pid fits is_client p =
      let (t, ran, after, held) =
        call_unpacks ProcIds.get_status [] (λ m p. ok m) (deserialize_status signed) (omega arith)
          (λ m h. refl) ProcIds.get_status (status_bytes st) rest s (λ e. absurd (omega arith)) fits
          is_client p in
      let (d, e, c) =
        status_decodes signed t.buffer 0 st small small' is_pid held (rw after.2.0 (omega arith)) in
      (t, d, ran ∙ ap (λ r. (r, t)) e, c, after)
