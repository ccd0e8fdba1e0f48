-- ===== src/HwUtils/Find.antt =====
-- Src/HwUtils.cpp: `FillStringFromFd` and `BootloaderFind`, which reads the chip's port from the output of
-- a script.
pub mod Descriptors
use roki_mb_daemon.Base.{
  ℕ, zero, suc, ◌+◌, ◌⊎◌, inl, inr, Bool, true, List, [], ◌∷◌, ◌++◌, ltb, if◌then◌else◌,
  runtime_error, errno_exception, Outcome, ok, throw, fault, hang, ◌>>=◌, Exec, resume, then_do,
  str, to_string, length, take, drop, Exception,
}
use roki_mb_daemon.Memory.{Memory, write_bytes, read, as_size, c_string}
use roki_mb_daemon.Streams.{RecvResult, received, recv_failed}
use roki_mb_daemon.HwUtils.{Os, execute, python_run}

abbrev pub fill_size : ℕ
fill_size = 64

-- `dst.back()`; `before` is the byte that stands in front of an empty string.
unfoldable pub back : ℕ → List ℕ → ℕ
back before [] = before
back before (b ∷ bs) = back b bs

-- What `std::string::insert` throws.
pub out_of_range : ℕ → ℕ → Exception
out_of_range pos size = runtime_error (
    str "basic_string::insert: __pos (which is "
    ++ (to_string pos ++ (str ") > this->size() (which is " ++ (to_string size ++ str ")"))))

-- `dst.insert(pos, text)`.
unfoldable pub insert : ℕ → List ℕ → List ℕ → Outcome (List ℕ)
insert pos text dst =
    if ltb (length dst) pos
    then throw (out_of_range pos (length dst))
    else ok (take pos dst ++ (text ++ drop pos dst))

-- The variables of the loop of `FillStringFromFd`.
pub record Filling : Type 0 where
  pub n_read : ℕ
  pub buf : Memory
  pub dst : List ℕ

module _ (signed : Bool) (before : ℕ) where
  -- `ret` bytes have been read into the buffer.
  unfoldable pub fill_round : List ℕ → Filling → Outcome Filling
  fill_round bs f = do
    filled ← write_bytes f.buf 0 bs
    ended ← write_bytes filled (f.n_read + length bs) (0 ∷ [])
    dst ←
        insert (as_size signed (back before f.dst)) (c_string (read ended.cells 0 ended.size)) f.dst
    ok (record { n_read = f.n_read + length bs; buf = ended; dst = dst })

  module _ {W : Type 0} (read_end : ℕ → W → RecvResult × W) where
    unfoldable pub fill_with : (Filling → Exec W (List ℕ)) → RecvResult → Filling → Exec W (List ℕ)
    fill_with again (recv_failed e) f w =
        (throw (errno_exception (str "FillStringFromFd: read() failed") e), w)
    fill_with again (received []) f w = (ok f.dst, w)
    fill_with again (received (b ∷ bs)) f w = resume (fill_round (b ∷ bs) f) again w

    -- The loop, for at most `fuel` reads.
    unfoldable pub fill_loop : ℕ → Filling → Exec W (List ℕ)
    unfolding fill_with
    fill_loop zero f w = (hang, w)
    fill_loop (suc fuel) f w =
        let (result, w') = read_end (fill_size + 1) w in fill_with (fill_loop fuel) result f w'

    unfoldable pub fill_string_from_fd : ℕ → Exec W (List ℕ)
    fill_string_from_fd fuel =
        fill_loop fuel
          (record { n_read = 0; buf = record { cells = λ p. 0; size = fill_size + 1 }; dst = [] })

  module _ {W : Type 0} (read_end : ℕ → ℕ → W → RecvResult × W) where
    -- `close(readFd)` after the string has been filled; an exception passes it by.
    finish_find : Os W → ℕ → Outcome (List ℕ) × W → Outcome (List ℕ) × W
    finish_find os read_fd (ok dst, w) = (ok dst, os.close read_fd w)
    finish_find os read_fd (throw e, w) = (throw e, w)
    finish_find os read_fd (fault, w) = (fault, w)
    finish_find os read_fd (hang, w) = (hang, w)

    -- With the two ends of the pipe: the one for writing is closed by `Execute`.
    find_in : Os W → List ℕ → ℕ → ℕ ⊎ (ℕ × ℕ) → Exec W (List ℕ)
    unfolding finish_find
    find_in os dir fuel (inl e) w =
        (throw (errno_exception (str "BootloaderFind: Failed to create pipe") e), w)
    find_in os dir fuel (inr (read_fd, write_fd)) w = finish_find os read_fd (
        then_do (execute os (python_run dir (str "BootloaderFind.py")) write_fd true)
          (λ _. fill_string_from_fd (read_end read_fd) fuel) w)

    -- `pipe` gives its two ends, or the number of its error.
    unfoldable pub bootloader_find : Os W → List ℕ → ℕ → (W → (ℕ ⊎ (ℕ × ℕ)) × W) → Exec W (List ℕ)
    unfolding find_in
    bootloader_find os dir fuel open_pipe w =
        let (opened, w') = open_pipe w in find_in os dir fuel opened w'
