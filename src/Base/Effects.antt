-- ===== src/Base/Effects.antt =====
-- What a C++ call does: it returns, it throws, it has undefined behaviour (or aborts), or it never
-- returns. Text is a list of bytes.
use Prim.Native.Nat.{ℕ, zero, suc, ◌+◌, ◌-◌, ◌/◌, ◌%◌, ◌^◌, ◌<◌}
use Prim.Native.Char.{code}
use Prim.Native.String.{String}
use mathlib.Core.Path.{◌≡◌, refl, ap}
use mathlib.Core.Logic.{◌⊎◌, inl, inr}
use mathlib.Core.List.{List, [], ◌∷◌, ◌++◌}
use native.Mathlib.Omega.{arith}
use roki_mb_daemon.Base.Tests.{ltb, if◌then◌else◌}
use roki_mb_daemon.Base.Lists.{All}

abbrev codes : String → List ℕ
codes String.[] = []
codes (String.◌∷◌ c s) = code c ∷ codes s

-- A string literal.
unfoldable pub str : String → List ℕ
str s = codes s

-- The decimal digits of `n`, most significant first; each round divides by ten.
decimal : ℕ → ℕ → List ℕ → List ℕ
decimal zero n rest = rest
decimal (suc fuel) n rest =
    let digit = (b'0' + n % 10) ∷ rest in
    let more = decimal fuel (n / 10) digit in if ltb n 10 then digit else more

-- `std::to_string` of an unsigned value; twenty digits hold every 64-bit number.
unfoldable pub to_string : ℕ → List ℕ
unfolding decimal
to_string n = decimal 20 n []

-- `std::to_string` of an `int` given by its 32-bit pattern.
unfoldable pub to_string_int : ℕ → List ℕ
unfolding to_string
to_string_int w = if ltb w (2 ^ 31) then to_string w else b'-' ∷ to_string (2 ^ 32 - w)

-- `std::runtime_error` with its message, and `ErrnoException` with its message and number. The
-- prefix that `FEXCEPT` puts in front is part of the message.
pub data Exception : Type 0 where
  runtime_error : List ℕ → Exception
  errno_exception : List ℕ → ℕ → Exception

-- A text as a C string, which ends before its first zero.
abbrev pub c_str : List ℕ → List ℕ
c_str [] = []
c_str (zero ∷ bs) = []
c_str (suc b ∷ bs) = suc b ∷ c_str bs

pub c_str-whole : (bs : List ℕ) → All (λ b. 0 < b) bs → c_str bs ≡ bs
c_str-whole [] h = refl
c_str-whole (zero ∷ bs) h = absurd (omega (arith, h.0))
c_str-whole (suc b ∷ bs) h = ap (◌∷◌ (suc b)) (c_str-whole bs h.1)

-- `what()`, as the C string that it is. The texts of `strerror` are the C library's.
unfoldable pub what : (ℕ → List ℕ) → Exception → List ℕ
what strerror (runtime_error msg) = c_str msg
what strerror (errno_exception msg error) =
    c_str (msg ++ (str ": errno #" ++ (to_string error ++ (str ": " ++ strerror error))))

pub data Outcome {ℓ} (A : Type ℓ) : Type ℓ where
  ok : A → Outcome A
  throw : Exception → Outcome A
  fault hang : Outcome A

infixl 10 ◌>>=◌ ◌>>◌
abbrev pub ◌>>=◌ {ℓ κ} : {A : Type ℓ} {B : Type κ} → Outcome A → (A → Outcome B) → Outcome B
ok a >>= f = f a
throw e >>= f = throw e
fault >>= f = fault
hang >>= f = hang

abbrev pub ◌>>◌ {ℓ κ} : {A : Type ℓ} {B : Type κ} → Outcome A → Outcome B → Outcome B
m >> k = m >>= λ _. k

-- A call that changes a state: what was written before a throw stays written.
abbrev pub Exec {ℓ} : Type ℓ → Type ℓ → Type ℓ
Exec S A = S → Outcome A × S

-- Sequencing of such calls: what follows a result, and what follows a call.
abbrev pub resume {ℓ} : {S A B : Type ℓ} → Outcome A → (A → Exec S B) → Exec S B
resume (ok a) f s = f a s
resume (throw e) f s = (throw e, s)
resume fault f s = (fault, s)
resume hang f s = (hang, s)

abbrev pub then_do {ℓ} : {S A B : Type ℓ} → Exec S A → (A → Exec S B) → Exec S B
then_do m f s = resume (m s).0 f (m s).1

pub Outcome-cases {ℓ} :
    {A : Type ℓ} (r : Outcome A)
    → ((a : A) × (r ≡ ok a)) ⊎ ((e : Exception) × (r ≡ throw e)) ⊎ (r ≡ fault) ⊎ (r ≡ hang)
Outcome-cases (ok a) = inl (a, refl)
Outcome-cases (throw e) = inr (inl (e, refl))
Outcome-cases fault = inr (inr (inl refl))
Outcome-cases hang = inr (inr (inr refl))
