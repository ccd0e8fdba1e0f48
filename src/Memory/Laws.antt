-- ===== src/Memory/Laws.antt =====
-- What is read back after a write.
use roki_mb_daemon.Base.{
  All, ℕ, zero, suc, ◌+◌, ◌≤◌, ◌<◌, ◌^◌, ◌≡◌, refl, ap, subst, ◌∙◌, ◌⊎◌, List, [], ◌∷◌, ◌++◌, ok,
  arith, length, take,
}
use roki_mb_daemon.Memory.{c_string, store, write, read, le32, from_le32}

pub write-below : (c : ℕ → ℕ) (p q : ℕ) (bs : List ℕ) → q < p → write c p bs q ≡ c q
unfolding write
write-below c p q [] h = refl
write-below c p q (b ∷ bs) h = write-below (store c p b) (p + 1) q bs (omega arith) ∙ ground arith

pub write-above : (c : ℕ → ℕ) (p q : ℕ) (bs : List ℕ) → p + length bs ≤ q → write c p bs q ≡ c q
unfolding write
write-above c p q [] h = refl
write-above c p q (b ∷ bs) h = write-above (store c p b) (p + 1) q bs (omega arith) ∙ ground arith

pub read-write : (c : ℕ → ℕ) (p : ℕ) (bs : List ℕ) → read (write c p bs) p (length bs) ≡ bs
unfolding read write
read-write c p [] = refl
read-write c p (b ∷ bs) =
    ground (arith, write-below (store c p b) (p + 1) p bs, read-write (store c p b) (p + 1) bs)

pub read-write_ne :
    (c : ℕ → ℕ) (p q n : ℕ) (bs : List ℕ)
    → (q + n ≤ p) ⊎ (p + length bs ≤ q)
    → read (write c p bs) q n ≡ read c q n
unfolding read
read-write_ne c p q zero bs h = refl
read-write_ne c p q (suc n) bs h =
    ground (arith, write-below c p q bs, write-above c p q bs, read-write_ne c p (q + 1) n bs)

pub write-append :
    (c : ℕ → ℕ) (p : ℕ) (xs ys : List ℕ)
    → write (write c p xs) (p + length xs) ys ≡ write c p (xs ++ ys)
unfolding write
write-append c p [] ys = ap (λ q. write c q ys) (omega arith)
write-append c p (x ∷ xs) ys =
    let e : p + suc (length xs) ≡ p + 1 + length xs = omega arith in
    rw e (write-append (store c p x) (p + 1) xs ys)

pub length-read : (c : ℕ → ℕ) (p n : ℕ) → length (read c p n) ≡ n
unfolding read
length-read c p zero = refl
length-read c p (suc n) = ap suc (length-read c (p + 1) n)

pub take-read : (c : ℕ → ℕ) (p k n : ℕ) → k ≤ n → take k (read c p n) ≡ read c p k
unfolding read
take-read c p zero n h = refl
take-read c p (suc k) zero h = absurd (omega arith)
take-read c p (suc k) (suc n) h = ap (◌∷◌ (c p)) (take-read c (p + 1) k n (omega arith))

pub from_le32-le32 : (w : ℕ) → w < 2 ^ 32 → from_le32 (le32 w) ≡ ok w
unfolding from_le32 le32
from_le32-le32 w h = ap ok (omega arith)

-- The memory holds these bytes at `p`.
pub record Holds (c : ℕ → ℕ) (p : ℕ) (bs : List ℕ) : Type 0 where
  pub at : read c p (length bs) ≡ bs

pub Holds-write : (c : ℕ → ℕ) (p : ℕ) (bs : List ℕ) → Holds (write c p bs) p bs
Holds-write c p bs = record { at = read-write c p bs }

pub Holds-head : (c : ℕ → ℕ) (p b : ℕ) (bs : List ℕ) → Holds c p (b ∷ bs) → c p ≡ b
unfolding read
Holds-head c p b bs h = cc (h.at)

pub Holds-tail : (c : ℕ → ℕ) (p b : ℕ) (bs : List ℕ) → Holds c p (b ∷ bs) → Holds c (p + 1) bs
unfolding read
Holds-tail c p b bs h = record { at = cc (h.at) }

pub Holds-left : (c : ℕ → ℕ) (p : ℕ) (xs ys : List ℕ) → Holds c p (xs ++ ys) → Holds c p xs
unfolding read
Holds-left c p [] ys h = record { at = refl }
Holds-left c p (x ∷ xs) ys h =
    let rest = Holds-left c (p + 1) xs ys (Holds-tail c p x (xs ++ ys) h) in
    record { at = cc (Holds-head c p x (xs ++ ys) h, rest.at) }

pub Holds-right :
    (c : ℕ → ℕ) (p : ℕ) (xs ys : List ℕ) → Holds c p (xs ++ ys) → Holds c (p + length xs) ys
Holds-right c p [] ys h = subst (λ q. Holds c q ys) (omega arith) h
Holds-right c p (x ∷ xs) ys h =
    let e : p + suc (length xs) ≡ p + 1 + length xs = omega arith in
    rw e (Holds-right c (p + 1) xs ys (Holds-tail c p x (xs ++ ys) h))

pub c_string_lem : (msg rest : List ℕ) → All (λ b. 0 < b) msg → c_string (msg ++ (0 ∷ rest)) ≡ msg
unfolding c_string
c_string_lem [] rest h = refl
c_string_lem (zero ∷ msg) rest h = absurd (omega (arith, h.0))
c_string_lem (suc b ∷ msg) rest h = ap (◌∷◌ (suc b)) (c_string_lem msg rest h.1)

pub read-append : (c : ℕ → ℕ) (p n m : ℕ) → read c p (n + m) ≡ read c p n ++ read c (p + n) m
unfolding read
read-append c p zero m =
    let e : p + 0 ≡ p = omega arith in let e' : 0 + m ≡ m = omega arith in rw (e, e') refl
read-append c p (suc n) m =
    let e : p + suc n ≡ p + 1 + n = omega arith in
    let e' : suc n + m ≡ suc (n + m) = omega arith in
    rw (e, e') (ap (◌∷◌ (c p)) (read-append c (p + 1) n m))
