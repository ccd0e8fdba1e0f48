-- ===== src/Server/Hello/Ends.antt =====
-- Src/Server.cpp: `HelloMessage::Recv` ends, and touches nothing but its connection.
use roki_mb_daemon.Base.{
  ℕ, zero, suc, ◌+◌, ◌-◌, ◌≤◌, ◌<◌, ◌≡◌, refl, ◌∙◌, inl, inr, true, false, List, [], ◌∷◌, ltb, leb,
  Outcome, ok, throw, fault, hang, Exec, length, arith, Bool-cases,
}
use roki_mb_daemon.Memory.{Memory, write, write_bytes}
use roki_mb_daemon.Streams.{Network, RecvResult, received, recv_failed}
use roki_mb_daemon.Server.Hello.{Hello, hello_recv, hello_recv_loop, take_part, finish_recv}

-- What is documented of `recv`: it gives at most as many bytes as it was asked for.
abbrev pub IsBounded : {N : Type 0} → Network N → Type 0
IsBounded {N} net = (k : ℕ) (n : N) (bs : List ℕ) → (net.recv k n).0 ≡ received bs → length bs ≤ k

module _ {N V : Type 0} (keeps : N → V) where
  -- A call that returns or throws, and keeps `v`.
  abbrev pub Ends : {A : Type 0} → V → Outcome A × N → Type 0
  Ends v (ok a, n) = keeps n ≡ v
  Ends v (throw e, n) = keeps n ≡ v
  Ends v (fault, n) = ⊥
  Ends v (hang, n) = ⊥

  abbrev EndsIn : V → Outcome (Unit {0}) × Hello N → Type 0
  EndsIn v (r, s) = Ends v (r, s.conn)

  part-EndsIn :
      (again : ℕ → Exec (Hello N) (Unit {0})) (total size : ℕ) (r : RecvResult) (s : Hello N)
      (v : V)
      → total < size
      → size ≤ s.port.size
      → ((bs : List ℕ) → r ≡ received bs → length bs ≤ size - total)
      → keeps s.conn ≡ v
      → ((k : ℕ) (m : Memory)
          → 0 < k
          → m.size ≡ s.port.size
          → EndsIn v (again (total + k) (record s { port = m })))
      → EndsIn v (take_part again total r s)
  unfolding take_part write_bytes
  part-EndsIn again total size (recv_failed e) s v h fits most same step = same
  part-EndsIn again total size (received []) s v h fits most same step = same
  part-EndsIn again total size (received (b ∷ bs)) s v h fits most same step =
      let few : length (b ∷ bs) ≤ size - total = most (b ∷ bs) refl in
      let room : leb (total + suc (length bs)) s.port.size ≡ true = ground arith in
      rw room (
        step (suc (length bs)) (record s.port { cells = write s.port.cells total (b ∷ bs) })
          (omega arith) refl)

  module _ (net : Network N) (bounded : IsBounded net)
      (kept : (k : ℕ) (n : N) → keeps (net.recv k n).1 ≡ keeps n) where
    loop-EndsIn :
        (fuel total size : ℕ) (s : Hello N) (v : V)
        → size - total ≤ fuel
        → size ≤ s.port.size
        → keeps s.conn ≡ v
        → EndsIn v (hello_recv_loop net fuel total size s)
    unfolding hello_recv_loop
    loop-EndsIn zero total size s v enough fits same =
        let done : ltb total size ≡ false = ground arith in rw done same
    loop-EndsIn (suc fuel) total size s v enough fits same = elim (Bool-cases (ltb total size)) [
      | inl more ↦ rw more (
          part-EndsIn (λ i. hello_recv_loop net fuel i size) total size
            (net.recv (size - total) s.conn).0
            (record s { conn = (net.recv (size - total) s.conn).1 }) v (ground arith) fits
            (bounded (size - total) s.conn) (kept (size - total) s.conn ∙ same)
            (λ k m positive wide.
              loop-EndsIn fuel (total + k) size
                (record s { port = m; conn = (net.recv (size - total) s.conn).1 }) v (omega arith)
                (omega arith) (kept (size - total) s.conn ∙ same)))
      | inr done ↦ rw done same
    ]

    finish : (x : Outcome (Unit {0}) × Hello N) (v : V) → EndsIn v x → Ends v (finish_recv net x)
    unfolding finish_recv
    finish (ok u, s) v h = h
    finish (throw e, s) v h = h
    finish (fault, s) v h = h
    finish (hang, s) v h = h

    -- Whatever arrives, `Recv` returns or throws: two rounds are enough, no byte is written outside of
    -- the port, and what `recv` keeps is kept.
    pub hello_recv-Ends : (garbage : ℕ → ℕ) (n : N) → Ends (keeps n) (hello_recv net garbage n)
    unfolding hello_recv
    hello_recv-Ends garbage n =
        finish _ (keeps n) (loop-EndsIn 2 0 2 _ (keeps n) (omega arith) (omega arith) refl)
