-- ===== src/Tests/Disk.antt =====
-- A file system for the tests: files by name. An open answers the descriptor 3; a read of a valid
-- descriptor finds the bytes 1, 2 and 3, and one of a negative descriptor fails. A fresh directory
-- has a name longer than that of any file.
use hvac_checkpoint.Common.{
  ℕ, zero, suc, ◌+◌, ◌≤◌, ◌<◌, ◌≡◌, ◌≢◌, refl, ap, inl, inr, Bool, true, false, Option, none, some,
  List, [], ◌∷◌, ◌++◌, Bool-cases, length, take, replicate, length-append, length-replicate, arith,
}
use hvac_checkpoint.Common.Int.{ℤ, pos, negsuc, minus_one}
use hvac_checkpoint.Common.Maps.{Map, lookup, insert, lookup-insert, lookup-insert_self}
use hvac_checkpoint.Common.Text.{Text, text_eq, text_beq, text_beq_iff, codes}
use hvac_checkpoint.Posix.{Posix, ReadLaws, ReadsUpTo}
use hvac_checkpoint.Server.Cache.{FileLaws}

abbrev pub Files : Type 0
Files = Map Text (List ℕ)

-- A length that no name of a file exceeds.
unfoldable pub longest : Files → ℕ
longest [] = 0
longest ((p, bytes) ∷ fs) = length p + longest fs

unfoldable pub fresh : Files → Text
fresh fs = replicate (suc (longest fs)) b'x'

abbrev bytes_read : ℕ → List ℕ
bytes_read n = take n (1 ∷ 2 ∷ 3 ∷ [])

unfoldable pub read_from : ℤ → ℕ → ℤ × List ℕ
read_from (pos fd) n = (pos (length (bytes_read n)), bytes_read n)
read_from (negsuc fd) n = (minus_one, [])

unfoldable pub copy_to : Option (List ℕ) → Text → Files → Bool × Files
copy_to none q fs = (false, fs)
copy_to (some bytes) q fs = (true, insert q bytes fs)

abbrev pub disk : Posix
disk = record {
  Fs = Files;
  open_file = λ p flags fs. (pos 3, fs);
  close_file = λ fd fs. (pos 0, fs);
  read_file = λ fd n fs. let (r, bytes) = read_from fd n in (r, bytes, fs);
  pread_file = λ fd n offset fs. let (r, bytes) = read_from fd n in (r, bytes, fs);
  seek_file = λ fd offset whence fs. (offset, fs);
  copy_file = λ p q fs. copy_to (lookup p fs) q fs;
  make_temp_dir = λ template fs. (fresh fs, fs);
}

pub length-take_le : (n : ℕ) (l : List ℕ) → length (take n l) ≤ n
length-take_le zero l = omega arith
length-take_le (suc n) [] = omega arith
length-take_le (suc n) (x ∷ l) = omega (arith, length-take_le n l)

read_from-ReadsUpTo : (fd : ℤ) (n : ℕ) → ReadsUpTo n (read_from fd n).0 (read_from fd n).1
unfolding read_from
read_from-ReadsUpTo (pos fd) n =
    inr (length (bytes_read n), refl, length-take_le n (1 ∷ 2 ∷ 3 ∷ []), refl)
read_from-ReadsUpTo (negsuc fd) n = inl (refl, refl)

pub disk-ReadLaws : ReadLaws disk
disk-ReadLaws = record {
  read_result = λ fd n fs. read_from-ReadsUpTo fd n;
  pread_result = λ fd n offset fs. read_from-ReadsUpTo fd n;
}

lookup-long : (p : Text) (fs : Files) → longest fs < length p → lookup p fs ≡ none
unfolding longest lookup
lookup-long p [] h = refl
lookup-long p ((q, bytes) ∷ fs) h = elim (Bool-cases (text_beq q p)) [
  | inl same ↦ let e = ap length ((text_beq_iff q p).0 same) in absurd (omega (arith, e, h))
  | inr other ↦ rw other (lookup-long p fs (omega arith))
]

pub lookup-fresh : (name : Text) (fs : Files) → lookup (fresh fs ++ (codes "/" ++ name)) fs ≡ none
unfolding fresh
lookup-fresh name fs = lookup-long (fresh fs ++ (codes "/" ++ name)) fs (
    rw
      (
        length-append (fresh fs) (codes "/" ++ name),
        length-replicate {A = ℕ} (suc (longest fs)) b'x',
      )
      (omega arith))

pub copy_to-target :
    (p q : Text) (fs : Files) (found : Option (List ℕ))
    → lookup p fs ≡ found
    → (copy_to found q fs).0 ≡ true
    → (bytes : List ℕ) × (lookup p fs ≡ some bytes) × (lookup q (copy_to found q fs).1 ≡ some bytes)
unfolding copy_to
copy_to-target p q fs none e h = absurd (cc h)
copy_to-target p q fs (some bytes) e h = (bytes, e, lookup-insert_self q bytes fs)

pub copy_to-other :
    (q r : Text) (fs : Files) (found : Option (List ℕ))
    → r ≢ q
    → lookup r (copy_to found q fs).1 ≡ lookup r fs
unfolding copy_to
copy_to-other q r fs none ne = refl
copy_to-other q r fs (some bytes) ne =
    ground (arith, lookup-insert q r bytes fs, text_beq_iff q r, ne)

pub disk-FileLaws : FileLaws disk
disk-FileLaws = record {
  content = λ p fs. lookup p fs;
  open_content = λ q p flags fs. refl;
  close_content = λ q fd fs. refl;
  read_content = λ q fd n fs. refl;
  pread_content = λ q fd n offset fs. refl;
  seek_content = λ q fd offset whence fs. refl;
  temp_content = λ q template fs. refl;
  temp_fresh = λ template name fs. lookup-fresh name fs;
  copy_target = λ p q fs h. copy_to-target p q fs (lookup p fs) refl h;
  copy_other = λ p q r fs ne. copy_to-other q r fs (lookup p fs) ne;
}
