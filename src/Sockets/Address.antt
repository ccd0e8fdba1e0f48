-- ===== src/Sockets/Address.antt =====
-- Src/Helpers.cpp: `IpFromString`. The C library's `inet_pton` is a parameter.
use roki_mb_daemon.Base.{
  ℕ, ◌≡◌, refl, List, inr, runtime_error, errno_exception, Outcome, ok, throw, ◌>>=◌, str, ◌++◌,
  c_str,
}
use roki_mb_daemon.Sockets.{Kernel, address, ip_to_string}

-- What `inet_pton` gives: the address, 0 for a text that is none, or -1 with the error's number.
pub data PtonResult : Type 0 where
  parsed : ℕ → PtonResult
  not_an_address : PtonResult
  failed : ℕ → PtonResult

abbrev pub parse_failed : List ℕ
parse_failed = str "IpFromString: Failed to parse addr from string via inet_pton()"

abbrev read_address : PtonResult → Outcome ℕ
read_address (parsed a) = ok a
read_address not_an_address =
    throw (runtime_error (parse_failed ++ str ": Invalid address, inet_pton returned 0"))
read_address (failed e) = throw (errno_exception parse_failed e)

unfoldable pub ip_from_string : (List ℕ → PtonResult) → List ℕ → Outcome ℕ
ip_from_string inet_pton text = read_address (inet_pton (c_str text))

-- Where `inet_pton` reads what `inet_ntop` has written, up to the first zero of its 16 bytes, the two
-- helpers undo each other.
pub ip_from_string-ip_to_string :
    {W : Type 0} (kernel : Kernel W) (inet_pton : List ℕ → PtonResult) (addr : ℕ) (text : List ℕ)
    → kernel.inet_ntop addr ≡ inr text
    → inet_pton (c_str text) ≡ parsed addr
    → (ip_to_string kernel addr >>= ip_from_string inet_pton) ≡ ok addr
unfolding ip_to_string address ip_from_string
ip_from_string-ip_to_string kernel inet_pton addr text e f = rw (e, f) refl
