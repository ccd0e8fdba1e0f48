-- ===== src/RpcDefs/Encoding.antt =====
-- Src/RPCDefs.cpp: the bytes that each message is packed into.
use roki_mb_daemon.Base.{
  ℕ, suc, ◌+◌, ◌%◌, ◌≤◌, ◌<◌, ◌≡◌, refl, ap, ◌∙◌, Bool, true, false, List, [], ◌∷◌, ◌++◌, some, ok,
  arith, length, take, length-append,
}
use roki_mb_daemon.Memory.{Memory, write, write_bytes, load, as_size, advance, le32}
use roki_mb_daemon.Memory.Laws.{write-append}
use roki_mb_daemon.RpcDefs.{
  ByteString, UserData, ChipStatus, string_packed_size, serialize_string, serialize_user,
  serialize_status, bool_byte, assert_size,
}

-- The longest text that fits a message: 127 bytes where `char` is signed, 254 where it is not.
abbrev pub max_text : Bool → ℕ
max_text true = 127
max_text false = 254

-- Plain values of the messages, and the messages that carry them.
pub record User : Type 0 where
  pub user_name : List ℕ
  pub user_pid : ℕ

pub record Status : Type 0 where
  pub text : List ℕ
  pub is_acquired : Bool
  pub holder : User

abbrev pub of_text : List ℕ → ByteString
of_text t = record { bytes = some t; size = length t }

abbrev pub of_user : User → UserData
of_user u = record { name = of_text u.user_name; pid = u.user_pid }

abbrev pub of_status : Status → ChipStatus
of_status s = record {
  description = of_text s.text;
  acquired = s.is_acquired;
  user = of_user s.holder;
}

-- The packed bytes.
unfoldable pub text_bytes : List ℕ → List ℕ
text_bytes t = length t ∷ t

unfoldable pub user_bytes : User → List ℕ
unfolding text_bytes
user_bytes u = text_bytes u.user_name ++ le32 u.user_pid

unfoldable pub status_bytes : Status → List ℕ
unfolding text_bytes user_bytes
status_bytes s = text_bytes s.text ++ (bool_byte s.is_acquired ∷ user_bytes s.holder)

pub length-le32 : (w : ℕ) → length (le32 w) ≡ 4
unfolding le32
length-le32 w = refl

pub length-user_bytes : (u : User) → length (user_bytes u) ≡ length u.user_name + 5
unfolding user_bytes
length-user_bytes u =
    omega (arith, length-append u.user_name (le32 u.user_pid), length-le32 u.user_pid)

pub length-status_bytes :
    (s : Status) → length (status_bytes s) ≡ length s.text + length s.holder.user_name + 7
unfolding status_bytes
length-status_bytes s = omega (
  arith,
  length-append s.text (bool_byte s.is_acquired ∷ user_bytes s.holder),
  length-user_bytes s.holder,
)

pub as_size_lem : (signed : Bool) (n : ℕ) → n ≤ max_text signed → as_size signed n ≡ n
unfolding as_size
as_size_lem true n h = ground arith
as_size_lem false n h = refl

pub advance_lem : (signed : Bool) (p n : ℕ) → n ≤ max_text signed → advance signed p n ≡ ok (p + n)
unfolding advance
advance_lem true p n h = ground arith
advance_lem false p n h = refl

assert_size_lem : (signed : Bool) (n : ℕ) → n ≤ max_text signed → assert_size signed n ≡ ok tt
unfolding assert_size
assert_size_lem true n h = refl
assert_size_lem false n h = ground arith

-- Writing bytes that fit, and then more bytes behind them.
pub write_bytes_lem :
    (m : Memory) (p : ℕ) (bs : List ℕ)
    → p + length bs ≤ m.size
    → write_bytes m p bs ≡ ok (record m { cells = write m.cells p bs })
unfolding write_bytes
write_bytes_lem m p bs h = ground arith

take-all : (t : List ℕ) → take (length t) t ≡ t
take-all [] = refl
take-all (x ∷ t) = ap (◌∷◌ x) (take-all t)

pub load_lem : (t : List ℕ) → load (some t) (length t) ≡ ok t
unfolding load
load_lem t = ground (arith, take-all t)

module _ (signed : Bool) where
  pub serialize_string_lem :
      (t : List ℕ) (m : Memory) (p : ℕ)
      → length t ≤ max_text signed
      → p + length (text_bytes t) ≤ m.size
      → serialize_string signed (of_text t) m p
        ≡ ok (record m { cells = write m.cells p (text_bytes t) })
  unfolding text_bytes serialize_string write
  serialize_string_lem t m p h fits =
      rw
        (
          assert_size_lem signed (length t) h,
          write_bytes_lem m p (length t ∷ []) (omega arith),
          as_size_lem signed (length t) h,
          load_lem t,
        )
        (write_bytes_lem _ (p + 1) t (omega arith))

  -- The first part of a message, its text, is followed at the packed size.
  pub advance-text :
      (t : List ℕ) (p : ℕ)
      → length t < max_text signed
      → advance signed p (string_packed_size (of_text t)) ≡ ok (p + length (text_bytes t))
  unfolding string_packed_size text_bytes
  advance-text t p h = packed signed h
    where
      packed :
          (b : Bool)
          → length t < max_text b
          → advance b p ((length t + 1) % 256) ≡ ok (p + suc (length t))
      packed true h =
          let e : (length t + 1) % 256 ≡ suc (length t) = omega arith in
          rw e (advance_lem true p (suc (length t)) h)
      packed false h =
          let e : (length t + 1) % 256 ≡ suc (length t) = omega arith in
          rw e (advance_lem false p (suc (length t)) h)

  pub serialize_user_lem :
      (u : User) (m : Memory) (p : ℕ)
      → length u.user_name < max_text signed
      → p + length (user_bytes u) ≤ m.size
      → serialize_user signed (of_user u) m p
        ≡ ok (record m { cells = write m.cells p (user_bytes u) })
  unfolding serialize_user user_bytes
  serialize_user_lem u m p h fits =
      let t : List ℕ = u.user_name in
      let room : p + length (text_bytes t) + 4 ≤ m.size =
        omega (arith, length-append (text_bytes t) (le32 u.user_pid), length-le32 u.user_pid) in
      rw (serialize_string_lem t m p (omega arith) (omega arith), advance-text t p h)
        (write_bytes_lem _ (p + length (text_bytes t)) (le32 u.user_pid)
            (omega (arith, length-le32 u.user_pid))
          ∙ ap (λ c. ok (record m { cells = c }))
              (write-append m.cells p (text_bytes t) (le32 u.user_pid)))

  pub serialize_status_lem :
      (s : Status) (m : Memory) (p : ℕ)
      → length s.text < max_text signed
      → length s.holder.user_name < max_text signed
      → p + length (status_bytes s) ≤ m.size
      → serialize_status signed (of_status s) m p
        ≡ ok (record m { cells = write m.cells p (status_bytes s) })
  unfolding serialize_status status_bytes
  serialize_status_lem s m p h k fits =
      let t : List ℕ = s.text in
      let q : ℕ = p + length (text_bytes t) in
      let flag : List ℕ = bool_byte s.is_acquired ∷ [] in
      let rest : List ℕ = user_bytes s.holder in
      let room : q + 1 + length rest ≤ m.size =
        omega (arith, length-append (text_bytes t) (bool_byte s.is_acquired ∷ rest)) in
      rw
        (
          serialize_string_lem t m p (omega arith) (omega arith),
          advance-text t p h,
          write_bytes_lem (record m { cells = write m.cells p (text_bytes t) }) q flag
              (omega arith),
        )
        (serialize_user_lem s.holder _ (q + 1) k (omega arith)
          ∙ ap (λ c. ok (record m { cells = c }))
              (write-append (write m.cells p (text_bytes t)) q flag rest
                ∙ write-append m.cells p (text_bytes t) (flag ++ rest)))
