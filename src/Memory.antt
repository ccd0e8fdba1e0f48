-- ===== src/Memory.antt =====
-- Raw memory behind the pointers of Src/RPCDefs.cpp and the buffers of Src/RPC.cpp and
-- Src/DaemonTools.cpp: an array of bytes, with every access outside of it undefined behaviour.
pub mod Laws
use roki_mb_daemon.Base.{
  ℕ, zero, suc, ◌+◌, ◌-◌, ◌*◌, ◌/◌, ◌%◌, ◌^◌, Bool, true, false, ◌&&◌, List, [], ◌∷◌, Option, none,
  some, leb, ◌==◌, if◌then◌else◌, Outcome, ok, fault, length, take,
}

pub record Memory : Type 0 where
  pub cells : ℕ → ℕ
  pub size : ℕ

unfoldable pub store : (ℕ → ℕ) → ℕ → ℕ → ℕ → ℕ
store c p b q = if q == p then b else c q

-- `memcpy(p, bytes, …)`, byte by byte.
unfoldable pub write : (ℕ → ℕ) → ℕ → List ℕ → ℕ → ℕ
unfolding store
write c p [] = c
write c p (b ∷ bs) = write (store c p b) (p + 1) bs

-- The `n` bytes from `p` on.
unfoldable pub read : (ℕ → ℕ) → ℕ → ℕ → List ℕ
read c p zero = []
read c p (suc n) = c p ∷ read c (p + 1) n

unfoldable pub write_bytes : Memory → ℕ → List ℕ → Outcome Memory
write_bytes m p bs =
    if leb (p + length bs) m.size then ok (record m { cells = write m.cells p bs }) else fault

unfoldable pub read_bytes : Memory → ℕ → ℕ → Outcome (List ℕ)
read_bytes m p n = if leb (p + n) m.size then ok (read m.cells p n) else fault

-- What a pointer into other memory reaches: `none` is a null pointer.
abbrev pub Pointer : Type 0
Pointer = Option (List ℕ)

-- The source of a `memcpy` of `n` bytes.
unfoldable pub load : Pointer → ℕ → Outcome (List ℕ)
load none n = fault
load (some d) n = if leb n (length d) then ok (take n d) else fault

-- A pointer to the byte at `p`.
unfoldable pub pointer_to : Memory → ℕ → Pointer
pointer_to m p = some (read m.cells p (m.size - p))

-- `char` is signed on some targets and unsigned on others. A `char` is its bit pattern, below 256.
module _ (signed : Bool) where
  -- Its conversion to `size_t`.
  unfoldable pub as_size : ℕ → ℕ
  as_size b = if signed && leb 128 b then 2 ^ 64 - 256 + b else b

  -- `ptr += b`; a step to before the array is undefined.
  unfoldable pub advance : ℕ → ℕ → Outcome ℕ
  advance p b =
      if signed && leb 128 b
      then (if leb (256 - b) p then ok (p - (256 - b)) else fault)
      else ok (p + b)

-- The bytes of a 32-bit integer, the least significant first, and back.
unfoldable pub le32 : ℕ → List ℕ
le32 w = (w % 256) ∷ (w / 256 % 256) ∷ (w / 65536 % 256) ∷ (w / 16777216 % 256) ∷ []

unfoldable pub from_le32 : List ℕ → Outcome ℕ
from_le32 (a ∷ b ∷ c ∷ d ∷ []) = ok (a + 256 * b + 65536 * c + 16777216 * d)
from_le32 _ = fault

-- The text at a `char` pointer: the bytes before the first zero.
unfoldable pub c_string : List ℕ → List ℕ
c_string [] = []
c_string (zero ∷ bs) = []
c_string (suc b ∷ bs) = suc b ∷ c_string bs
