-- ===== src/HwUtils/FindLaws.antt =====
-- Src/HwUtils.cpp: what `FillStringFromFd` makes of the output of a script.
use roki_mb_daemon.Base.{
  ℕ, suc, ◌+◌, ◌-◌, ◌≤◌, ◌<◌, ◌≡◌, refl, sym, Bool, List, [], ◌∷◌, ◌++◌, ok, throw, length,
  length-append, All, arith, ap, ◌∙◌, true, false,
}
use mathlib.Core.List.{append-nil, append_assoc}
use roki_mb_daemon.Memory.{Memory, write, write_bytes, read, as_size, c_string}
use roki_mb_daemon.Memory.Laws.{Holds-write, write-append, read-append, c_string_lem}
use roki_mb_daemon.Streams.{RecvResult, received}
use roki_mb_daemon.HwUtils.Find.{
  fill_size, back, out_of_range, insert, Filling, fill_round, fill_with, fill_loop,
  fill_string_from_fd,
}

write_fits :
    (m : Memory) (p : ℕ) (bs : List ℕ)
    → p + length bs ≤ m.size
    → write_bytes m p bs ≡ ok (record m { cells = write m.cells p bs })
unfolding write_bytes
write_fits m p bs h = ground arith

-- The text in a buffer into which it has been written with a zero behind it.
c_string-write :
    (c : ℕ → ℕ) (bs : List ℕ) (size : ℕ)
    → All (λ b. 0 < b) bs
    → length bs < size
    → c_string (read (write (write c 0 bs) (0 + length bs) (0 ∷ [])) 0 size) ≡ bs
c_string-write c bs size text fits =
    let all : List ℕ = bs ++ (0 ∷ []) in
    let n : ℕ = length bs + 1 in
    let parts : size ≡ n + (size - n) = omega arith in
    let count : length all ≡ n = length-append bs (0 ∷ []) in
    let rest : List ℕ = read (write c 0 all) (0 + n) (size - n) in
    let front : read (write c 0 all) 0 n ≡ all =
      ap (λ k. read (write c 0 all) 0 k) (sym count) ∙ (Holds-write c 0 all).at in
    ap (λ d. c_string (read d 0 size)) (write-append c 0 bs (0 ∷ []))
    ∙ ap (λ k. c_string (read (write c 0 all) 0 k)) parts
    ∙ ap c_string (read-append (write c 0 all) 0 n (size - n))
    ∙ ap (λ xs. c_string (xs ++ rest)) front
    ∙ ap c_string (append_assoc bs (0 ∷ []) rest)
    ∙ c_string_lem bs rest text

as_size-zero : (signed : Bool) → as_size signed 0 ≡ 0
unfolding as_size
as_size-zero true = refl
as_size-zero false = refl

as_size-small : (signed : Bool) (b : ℕ) → b < 128 → as_size signed b ≡ b
unfolding as_size
as_size-small true b h = ground arith
as_size-small false b h = refl

insert-empty : (text : List ℕ) → insert 0 text [] ≡ ok text
unfolding insert
insert-empty text = ap ok (append-nil text)

insert-beyond :
    (pos : ℕ) (text dst : List ℕ)
    → length dst < pos
    → insert pos text dst ≡ throw (out_of_range pos (length dst))
unfolding insert
insert-beyond pos text dst h = ground arith

-- The loop before its first read.
abbrev empty : Filling
empty = record { n_read = 0; buf = record { cells = λ p. 0; size = fill_size + 1 }; dst = [] }

abbrev after_one : List ℕ → Filling
after_one bs = record {
  n_read = 0 + length bs;
  buf = record {
    cells = write (write (λ p. 0) 0 bs) (0 + length bs) (0 ∷ []);
    size = fill_size + 1;
  };
  dst = bs;
}

module _ (signed : Bool) where
  first_round :
      (bs : List ℕ)
      → length bs ≤ fill_size
      → All (λ b. 0 < b) bs
      → fill_round signed 0 bs empty ≡ ok (after_one bs)
  unfolding fill_round back
  first_round bs fits text =
      rw
        (
          write_fits empty.buf 0 bs (omega arith),
          write_fits (record empty.buf { cells = write (λ p. 0) 0 bs }) (0 + length bs) (0 ∷ [])
              (omega arith),
          c_string-write (λ p. 0) bs (fill_size + 1) text (omega arith),
          as_size-zero signed,
          insert-empty bs,
        )
        refl

  -- A round that appends to what has been read inserts at the position that the last character is.
  late_round :
      (cs : List ℕ) (f : Filling)
      → f.buf.size ≡ fill_size + 1
      → f.n_read + length cs ≤ fill_size
      → length f.dst < back 0 f.dst
      → back 0 f.dst < 128
      → fill_round signed 0 cs f ≡ throw (out_of_range (back 0 f.dst) (length f.dst))
  unfolding fill_round
  late_round cs f full fits beyond small =
      rw
        (
          write_fits f.buf 0 cs (omega arith),
          write_fits (record f.buf { cells = write f.buf.cells 0 cs }) (f.n_read + length cs)
              (0 ∷ []) (omega arith),
          as_size-small signed (back 0 f.dst) small,
          insert-beyond (back 0 f.dst) _ f.dst beyond,
        )
        refl

  module _ {W : Type 0} (read_end : ℕ → W → RecvResult × W) (fuel b : ℕ) (bs : List ℕ) (w w' : W)
      (fits : length (b ∷ bs) ≤ fill_size) (text : All (λ c. 0 < c) (b ∷ bs))
      (first : read_end (fill_size + 1) w ≡ (received (b ∷ bs), w')) where
    -- An output that arrives in one read, of at most 64 bytes and none of them zero, is the string, where
    -- the byte in front of an empty string is zero.
    pub fill_one_read :
        (w'' : W)
        → read_end (fill_size + 1) w' ≡ (received [], w'')
        → fill_string_from_fd signed 0 read_end (suc (suc fuel)) w ≡ (ok (b ∷ bs), w'')
    unfolding fill_string_from_fd fill_loop fill_with
    fill_one_read w'' second = rw (first, first_round (b ∷ bs) fits text, second) refl

    -- Where the output arrives in two reads of together at most 64 bytes, and the last character of the
    -- first read is an ASCII character whose code is larger than the number of bytes before it, the
    -- string's `insert` throws `std::out_of_range`.
    pub fill_two_reads :
        (c : ℕ) (cs : List ℕ) (w'' : W)
        → read_end (fill_size + 1) w' ≡ (received (c ∷ cs), w'')
        → length (b ∷ bs) + length (c ∷ cs) ≤ fill_size
        → length (b ∷ bs) < back 0 (b ∷ bs)
        → back 0 (b ∷ bs) < 128
        → fill_string_from_fd signed 0 read_end (suc (suc fuel)) w
          ≡ (throw (out_of_range (back 0 (b ∷ bs)) (length (b ∷ bs))), w'')
    unfolding fill_string_from_fd fill_loop fill_with
    fill_two_reads c cs w'' second few beyond small =
        rw
          (
            first,
            first_round (b ∷ bs) fits text,
            second,
            late_round (c ∷ cs) (after_one (b ∷ bs)) refl (omega arith) beyond small,
          )
          refl
