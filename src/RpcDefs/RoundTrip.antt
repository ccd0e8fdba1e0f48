-- ===== src/RpcDefs/RoundTrip.antt =====
-- Src/RPCDefs.cpp: what is packed is read back.
use roki_mb_daemon.Base.{
  ℕ, ◌+◌, ◌-◌, ◌^◌, ◌≤◌, ◌<◌, ◌≡◌, refl, ap, ◌∙◌, Bool, true, false, List, ◌∷◌, ok, arith, length,
  length-append,
}
use roki_mb_daemon.Memory.{Memory, write, read, read_bytes, load, pointer_to, advance, le32}
use roki_mb_daemon.Memory.Laws.{
  Holds, Holds-write, Holds-head, Holds-tail, Holds-left, Holds-right, take-read, length-read,
  from_le32-le32,
}
use roki_mb_daemon.RpcDefs.{
  ByteString, UserData, ChipStatus, string_packed_size, serialize_user, serialize_status,
  deserialize_string, deserialize_user, deserialize_status, to_cxx_str, bool_byte, read_bool,
}
use roki_mb_daemon.RpcDefs.Encoding.{
  max_text, User, Status, of_user, of_status, text_bytes, user_bytes, status_bytes, length-le32,
  serialize_user_lem, serialize_status_lem, advance-text,
}

pub read_bytes_lem :
    (m : Memory) (p n : ℕ) → p + n ≤ m.size → read_bytes m p n ≡ ok (read m.cells p n)
unfolding read_bytes
read_bytes_lem m p n h = ground arith

read_pid : (c : ℕ → ℕ) (q w : ℕ) → Holds c q (le32 w) → read c q 4 ≡ le32 w
unfolding le32
read_pid c q w h = h.at

read_flag : (c : ℕ → ℕ) (q : ℕ) (b : Bool) → c q ≡ bool_byte b → read_bool (read c q 1) ≡ ok b
unfolding read read_bool
read_flag c q true h = rw h
read_flag c q false h = rw h

load_pointer :
    (m : Memory) (p n : ℕ) → p + n ≤ m.size → load (pointer_to m p) n ≡ ok (read m.cells p n)
unfolding load pointer_to
load_pointer m p n h =
    ground (arith, length-read m.cells p (m.size - p), take-read m.cells p n (m.size - p))

module _ (signed : Bool) where
  -- The text that a received string stands for.
  abbrev pub Carries : ByteString → List ℕ → Type 0
  Carries s t = (to_cxx_str signed s ≡ ok t) × (s.size ≡ length t)

  to_cxx_str_lem :
      (m : Memory) (p : ℕ) (t : List ℕ)
      → Holds m.cells p t
      → p + length t ≤ m.size
      → length t ≤ max_text signed
      → to_cxx_str signed (record { bytes = pointer_to m p; size = length t }) ≡ ok t
  unfolding to_cxx_str pointer_to
  to_cxx_str_lem m p t h fits small = by_sign signed small
    where
      by_sign :
          (b : Bool)
          → length t ≤ max_text b
          → to_cxx_str b (record { bytes = pointer_to m p; size = length t }) ≡ ok t
      by_sign true small = ground (arith, load_pointer m p (length t) fits, h.at)
      by_sign false small = load_pointer m p (length t) fits ∙ ap ok h.at

  decode_string_lem :
      (m : Memory) (p : ℕ) (t : List ℕ)
      → Holds m.cells p (text_bytes t)
      → p + length (text_bytes t) ≤ m.size
      → deserialize_string signed m p
        ≡ ok (record { bytes = pointer_to m (p + 1); size = length t })
  unfolding deserialize_string text_bytes read
  decode_string_lem m p t h fits =
      rw (read_bytes_lem m p 1 (omega arith), Holds-head m.cells p (length t) t h)

  -- A text in memory is read back.
  pub string_decodes :
      (m : Memory) (p : ℕ) (t : List ℕ)
      → length t ≤ max_text signed
      → Holds m.cells p (text_bytes t)
      → p + length (text_bytes t) ≤ m.size
      → (s : ByteString) × (deserialize_string signed m p ≡ ok s) × Carries s t
  unfolding text_bytes
  string_decodes m p t small h fits = (
    record { bytes = pointer_to m (p + 1); size = length t },
    decode_string_lem m p t h fits,
    (to_cxx_str_lem m (p + 1) t (Holds-tail m.cells p (length t) t h) (omega arith) small, refl),
  )

  advance_received :
      (s : ByteString) (t : List ℕ) (p : ℕ)
      → s.size ≡ length t
      → length t < max_text signed
      → advance signed p (string_packed_size s) ≡ ok (p + length (text_bytes t))
  unfolding string_packed_size
  advance_received s t p e small = rw e (advance-text signed t p small)

  abbrev pub CarriesUser : UserData → User → Type 0
  CarriesUser d u = Carries d.name u.user_name × (d.pid ≡ u.user_pid)

  pub user_decodes :
      (m : Memory) (p : ℕ) (u : User)
      → length u.user_name < max_text signed
      → u.user_pid < 2 ^ 32
      → Holds m.cells p (user_bytes u)
      → p + length (user_bytes u) ≤ m.size
      → (d : UserData) × (deserialize_user signed m p ≡ ok d) × CarriesUser d u
  unfolding user_bytes deserialize_user
  user_decodes m p u small is_pid h fits =
      let t : List ℕ = u.user_name in
      let q : ℕ = p + length (text_bytes t) in
      let room : q + 4 ≤ m.size =
        omega (arith, length-append (text_bytes t) (le32 u.user_pid), length-le32 u.user_pid) in
      let (s, e, c) =
        string_decodes m p t (omega arith) (Holds-left m.cells p (text_bytes t) (le32 u.user_pid) h)
          (omega arith) in
      let pid_bytes : Holds m.cells q (le32 u.user_pid) =
        Holds-right m.cells p (text_bytes t) (le32 u.user_pid) h in
      (
        record { name = s; pid = u.user_pid },
        rw (
          e,
          advance_received s t p c.1 small,
          read_bytes_lem m q 4 room,
          read_pid m.cells q u.user_pid pid_bytes,
          from_le32-le32 u.user_pid is_pid,
        ),
        (c, refl),
      )

  abbrev pub CarriesStatus : ChipStatus → Status → Type 0
  CarriesStatus d s =
      Carries d.description s.text × (d.acquired ≡ s.is_acquired) × CarriesUser d.user s.holder

  pub status_decodes :
      (m : Memory) (p : ℕ) (s : Status)
      → length s.text < max_text signed
      → length s.holder.user_name < max_text signed
      → s.holder.user_pid < 2 ^ 32
      → Holds m.cells p (status_bytes s)
      → p + length (status_bytes s) ≤ m.size
      → (d : ChipStatus) × (deserialize_status signed m p ≡ ok d) × CarriesStatus d s
  unfolding status_bytes deserialize_status
  status_decodes m p s small small' is_pid h fits =
      let t : List ℕ = s.text in
      let u : List ℕ = user_bytes s.holder in
      let b : ℕ = bool_byte s.is_acquired in
      let q : ℕ = p + length (text_bytes t) in
      let room : q + 1 + length u ≤ m.size = omega (arith, length-append (text_bytes t) (b ∷ u)) in
      let (d, e, c) =
        string_decodes m p t (omega arith) (Holds-left m.cells p (text_bytes t) (b ∷ u) h)
          (omega arith) in
      let behind : Holds m.cells q (b ∷ u) = Holds-right m.cells p (text_bytes t) (b ∷ u) h in
      let (v, e', c') =
        user_decodes m (q + 1) s.holder small' is_pid (Holds-tail m.cells q b u behind) room in
      (
        record { description = d; acquired = s.is_acquired; user = v },
        rw (
          e,
          advance_received d t p c.1 small,
          read_bytes_lem m q 1 (omega arith),
          read_flag m.cells q s.is_acquired (Holds-head m.cells q b u behind),
          e',
        ),
        (c, refl, c'),
      )

  -- A status that is packed anywhere in a buffer with room for it is unpacked from there as the same
  -- description, flag, user name and PID. Both texts are shorter than the longest that a `char` can
  -- count, and the PID is a 32-bit pattern.
  pub status_round_trip :
      (m : Memory) (p : ℕ) (s : Status)
      → length s.text < max_text signed
      → length s.holder.user_name < max_text signed
      → s.holder.user_pid < 2 ^ 32
      → p + length (status_bytes s) ≤ m.size
      → (m' : Memory) × (d : ChipStatus) × (serialize_status signed (of_status s) m p ≡ ok m')
        × (deserialize_status signed m' p ≡ ok d)
        × CarriesStatus d s
  status_round_trip m p s small small' is_pid fits =
      let m' : Memory = record m { cells = write m.cells p (status_bytes s) } in
      let (d, e, c) =
        status_decodes m' p s small small' is_pid (Holds-write m.cells p (status_bytes s)) fits in
      (m', d, serialize_status_lem signed s m p small small' fits, e, c)

  -- A user that is packed anywhere in a buffer with room is unpacked from there with the same name and
  -- PID, where the name is shorter than the longest that a `char` can count and the PID is a 32-bit
  -- pattern.
  pub user_round_trip :
      (m : Memory) (p : ℕ) (u : User)
      → length u.user_name < max_text signed
      → u.user_pid < 2 ^ 32
      → p + length (user_bytes u) ≤ m.size
      → (m' : Memory) × (d : UserData) × (serialize_user signed (of_user u) m p ≡ ok m')
        × (deserialize_user signed m' p ≡ ok d)
        × CarriesUser d u
  user_round_trip m p u small is_pid fits =
      let m' : Memory = record m { cells = write m.cells p (user_bytes u) } in
      let (d, e, c) =
        user_decodes m' p u small is_pid (Holds-write m.cells p (user_bytes u)) fits in
      (m', d, serialize_user_lem signed u m p small fits, e, c)
