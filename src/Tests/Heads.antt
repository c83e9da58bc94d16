-- ===== src/Tests/Heads.antt =====
-- A second file system for the tests, which reads what was opened: the files, and the bytes of the
-- file that was opened last, under the descriptor 3.
use hvac_checkpoint.Common.{
  ℕ, zero, suc, ◌≡◌, refl, sym, inl, inr, Option, none, some, List, [], ◌∷◌, length, take,
}
use hvac_checkpoint.Common.Int.{ℤ, pos, negsuc, minus_one}
use hvac_checkpoint.Common.Maps.{lookup}
use hvac_checkpoint.Common.Text.{text_eq}
use hvac_checkpoint.Posix.{Posix, ReadLaws, ReadsUpTo}
use hvac_checkpoint.Server.Cache.{FileLaws}
use hvac_checkpoint.Cluster.Content.{OpenLaws}
use hvac_checkpoint.Tests.Disk.{
  Files, fresh, copy_to, lookup-fresh, copy_to-target, copy_to-other, length-take_le,
}

pub record Heads : Type 0 where
  pub files : Files
  pub opened : List ℕ

abbrev pub bytes_of : Option (List ℕ) → List ℕ
bytes_of none = []
bytes_of (some bytes) = bytes

abbrev pub read_head : ℤ → ℕ → List ℕ → ℤ × List ℕ
read_head (pos fd) n bytes = (pos (length (take n bytes)), take n bytes)
read_head (negsuc fd) n bytes = (minus_one, [])

abbrev pub heads : Posix
heads = record {
  Fs = Heads;
  open_file = λ p flags fs. (pos 3, record fs { opened = bytes_of (lookup p fs.files) });
  close_file = λ fd fs. (pos 0, fs);
  read_file = λ fd n fs. let (r, bytes) = read_head fd n fs.opened in (r, bytes, fs);
  pread_file = λ fd n offset fs. let (r, bytes) = read_head fd n fs.opened in (r, bytes, fs);
  seek_file = λ fd offset whence fs. (offset, fs);
  copy_file = λ p q fs.
      let (done, files) = copy_to (lookup p fs.files) q fs.files in
      (done, record fs { files = files });
  make_temp_dir = λ template fs. (fresh fs.files, fs);
}

pub read_head-ReadsUpTo :
    (fd : ℤ) (n : ℕ) (bytes : List ℕ)
    → ReadsUpTo n (read_head fd n bytes).0 (read_head fd n bytes).1
read_head-ReadsUpTo (pos fd) n bytes =
    inr (length (take n bytes), refl, length-take_le n bytes, refl)
read_head-ReadsUpTo (negsuc fd) n bytes = inl (refl, refl)

pub heads-ReadLaws : ReadLaws heads
heads-ReadLaws = record {
  read_result = λ fd n fs. read_head-ReadsUpTo fd n fs.opened;
  pread_result = λ fd n offset fs. read_head-ReadsUpTo fd n fs.opened;
}

unfoldable pub heads-FileLaws : FileLaws heads
heads-FileLaws = record {
  content = λ p fs. lookup p fs.files;
  open_content = λ q p flags fs. refl;
  close_content = λ q fd fs. refl;
  read_content = λ q fd n fs. refl;
  pread_content = λ q fd n offset fs. refl;
  seek_content = λ q fd offset whence fs. refl;
  temp_content = λ q template fs. refl;
  temp_fresh = λ template name fs. lookup-fresh name fs.files;
  copy_target = λ p q fs h. copy_to-target p q fs.files (lookup p fs.files) refl h;
  copy_other = λ p q r fs ne. copy_to-other q r fs.files (lookup p fs.files) ne;
}

pub take-length-take : (n : ℕ) (l : List ℕ) → take (length (take n l)) l ≡ take n l
take-length-take zero l = refl
take-length-take (suc n) [] = refl
take-length-take (suc n) (x ∷ l) = rw (take-length-take n l) refl

take-back :
    (n k : ℕ) (bytes : List ℕ) (found : Option (List ℕ))
    → found ≡ some bytes
    → pos (length (take n (bytes_of found))) ≡ pos k
    → take n (bytes_of found) ≡ take k bytes
take-back n k bytes none has got = absurd (cc has)
take-back n k bytes (some here) has got =
    let same : here ≡ bytes = cc has in
    let size : length (take n here) ≡ k = cc got in
    rw (← same, ← size) (sym (take-length-take n here))

pub heads-OpenLaws : OpenLaws heads heads-FileLaws
unfolding lookup heads-FileLaws
heads-OpenLaws = record {
  open_read = λ p fs d n k bytes has fd got. take-back n k bytes (lookup p fs.files) has got;
}
