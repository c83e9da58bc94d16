-- ===== src/Posix.antt =====
-- The operating system as the program calls it: files and descriptors are not code of the
-- repository, so their operations are a parameter, and the laws that a property needs are named.
use hvac_checkpoint.Common.{ℕ, ◌≤◌, ◌≡◌, ◌⊎◌, List, [], Bool, length}
use hvac_checkpoint.Common.Int.{ℤ, pos, minus_one}
use hvac_checkpoint.Common.Text.{Text}

-- The calls, each on a state of the system. A number that is -1 is a failure.
pub record Posix : Type 1 where
  pub Fs : Type 0
  pub open_file : Text → ℕ → Fs → ℤ × Fs
  pub close_file : ℤ → Fs → ℤ × Fs
  pub read_file : ℤ → ℕ → Fs → ℤ × List ℕ × Fs
  pub pread_file : ℤ → ℕ → ℤ → Fs → ℤ × List ℕ × Fs
  pub seek_file : ℤ → ℤ → ℤ → Fs → ℤ × Fs
  -- `std::filesystem::copy`: false when it throws.
  pub copy_file : Text → Text → Fs → Bool × Fs
  -- `mkdtemp`, as the text that its argument holds afterwards.
  pub make_temp_dir : Text → Fs → Text × Fs

-- What a read hands over: -1 and nothing, or a number of bytes up to the count, and those bytes.
abbrev pub ReadsUpTo : ℕ → ℤ → List ℕ → Type 0
ReadsUpTo count result bytes =
    ((result ≡ minus_one) × (bytes ≡ []))
    ⊎ ((n : ℕ) × (result ≡ pos n) × (n ≤ count) × (length bytes ≡ n))

-- The documented results of `read` and `pread`.
pub record ReadLaws (os : Posix) : Type 0 where
  pub read_result :
      (fd : ℤ) (count : ℕ) (fs : os.Fs)
      → ReadsUpTo count (os.read_file fd count fs).0 (os.read_file fd count fs).1
  pub pread_result :
      (fd : ℤ) (count : ℕ) (offset : ℤ) (fs : os.Fs)
      → ReadsUpTo count (os.pread_file fd count offset fs).0 (os.pread_file fd count offset fs).1
