-- ===== src/RpcDefs.antt =====
-- Src/RPCDefs.cpp and Inc/roki-mb-daemon/RPCDefs.hpp: the procedures and the messages of the RPC
-- protocol. A message is packed into a char buffer and read back through raw pointers.
pub mod ProcIds
pub mod Encoding
pub mod RoundTrip
use roki_mb_daemon.Base.{
  ℕ, zero, suc, ◌+◌, ◌%◌, Bool, true, false, not, ◌&&◌, List, [], ◌∷◌, ◌++◌, Option, none, some,
  leb, ltb, ◌==◌, if◌then◌else◌, Exception, runtime_error, Outcome, ok, throw, fault, hang, ◌>>=◌,
  ◌>>◌, length, str, to_string, to_string_int, ◌-◌, ◌^◌,
}
use roki_mb_daemon.Memory.{
  Memory, Pointer, write_bytes, read_bytes, load, pointer_to, as_size, advance, le32, from_le32,
}

-- `Messages::String`: `size` is a `char`.
pub record ByteString : Type 0 where
  pub bytes : Pointer
  pub size : ℕ

pub record UserData : Type 0 where
  pub name : ByteString
  pub pid : ℕ

pub record ChipStatus : Type 0 where
  pub description : ByteString
  pub acquired : Bool
  pub user : UserData

-- `GetPackedSize` of each message, a `char`.
unfoldable pub string_packed_size : ByteString → ℕ
string_packed_size s = (s.size + 1) % 256

unfoldable pub user_packed_size : UserData → ℕ
unfolding string_packed_size
user_packed_size u = (string_packed_size u.name + 4) % 256

unfoldable pub status_packed_size : ChipStatus → ℕ
unfolding string_packed_size user_packed_size
status_packed_size c = (string_packed_size c.description + 1 + user_packed_size c.user) % 256

abbrev bool_byte : Bool → ℕ
bool_byte true = 1
bool_byte false = 0

-- Reading a `bool` other than 0 and 1 is undefined.
read_bool : List ℕ → Outcome Bool
read_bool (zero ∷ []) = ok false
read_bool (suc zero ∷ []) = ok true
read_bool _ = fault

first_byte : List ℕ → Outcome ℕ
first_byte (b ∷ []) = ok b
first_byte _ = fault

module _ (signed : Bool) where
  -- `assert(Size < 255)`, which a signed char cannot fail.
  assert_size : ℕ → Outcome (Unit {0})
  assert_size n = if not signed && leb 255 n then fault else ok tt

  unfoldable pub serialize_string : ByteString → Memory → ℕ → Outcome Memory
  unfolding assert_size
  serialize_string s m p = do
    assert_size s.size
    m' ← write_bytes m p (s.size ∷ [])
    d ← load s.bytes (as_size signed s.size)
    write_bytes m' (p + 1) d

  unfoldable pub deserialize_string : Memory → ℕ → Outcome ByteString
  unfolding first_byte
  deserialize_string m p = do
    bs ← read_bytes m p 1
    n ← first_byte bs
    ok (record { bytes = pointer_to m (p + 1); size = n })

  -- `String::ToCxxStr`. A negative size makes `std::string` throw `std::length_error`.
  unfoldable pub to_cxx_str : ByteString → Outcome (List ℕ)
  to_cxx_str s = elim s.bytes [
    | none ↦ throw (runtime_error (str "ToCxxStr: String data is not defined"))
    | some d ↦
        if signed && leb 128 s.size
        then throw (runtime_error (str "basic_string::_M_create"))
        else load s.bytes s.size
  ]

  unfoldable pub serialize_user : UserData → Memory → ℕ → Outcome Memory
  serialize_user u m p = do
    m' ← serialize_string u.name m p
    q ← advance signed p (string_packed_size u.name)
    write_bytes m' q (le32 u.pid)

  unfoldable pub deserialize_user : Memory → ℕ → Outcome UserData
  deserialize_user m p = do
    name ← deserialize_string m p
    q ← advance signed p (string_packed_size name)
    bs ← read_bytes m q 4
    pid ← from_le32 bs
    ok (record { name = name; pid = pid })

  unfoldable pub serialize_status : ChipStatus → Memory → ℕ → Outcome Memory
  serialize_status c m p = do
    m' ← serialize_string c.description m p
    q ← advance signed p (string_packed_size c.description)
    m'' ← write_bytes m' q (bool_byte c.acquired ∷ [])
    serialize_user c.user m'' (q + 1)

  unfoldable pub deserialize_status : Memory → ℕ → Outcome ChipStatus
  unfolding read_bool
  deserialize_status m p = do
    description ← deserialize_string m p
    q ← advance signed p (string_packed_size description)
    bs ← read_bytes m q 1
    acquired ← read_bool bs
    user ← deserialize_user m (q + 1)
    ok (record { description = description; acquired = acquired; user = user })

char_to_string : Bool → ℕ → List ℕ
char_to_string signed id =
    if signed && leb 128 id then to_string_int (2 ^ 32 - 256 + id) else to_string id

-- `ProcIDs::ToStr`; `std::to_string` shows a `char`.
unfoldable pub to_str : Bool → ℕ → Outcome (List ℕ)
unfolding char_to_string
to_str signed id =
    if id == ProcIds.error
    then ok (str "Error")
    else if id == ProcIds.flash
    then ok (str "Flash")
    else if id == ProcIds.start
    then ok (str "Start")
    else if id == ProcIds.connect
    then ok (str "Connect")
    else if id == ProcIds.disconnect
    then ok (str "Disconnect")
    else if id == ProcIds.reset
    then ok (str "Reset")
    else if id == ProcIds.get_status
    then ok (str "GetStatus")
    else if id == ProcIds.shutdown
    then ok (str "Shutdown")
    else if id == ProcIds.ping
    then ok (str "Ping")
    else if id == ProcIds.debug_throw
    then ok (str "DebugThrow")
    else if id == ProcIds.debug_block
    then ok (str "DebugBlock")
    else throw (runtime_error (str "Unknown procedure id: " ++ char_to_string signed id))
