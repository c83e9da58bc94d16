-- ===== src/Tests/Streams.antt =====
-- A third file system for the tests: every open gives a new descriptor, with what is left to read.
use hvac_checkpoint.Common.{
  ℕ, zero, suc, ◌<◌, ◌≡◌, ◌≢◌, refl, sym, ap, ◌∙◌, true, inl, inr, Option, none, some, List, [],
  ◌∷◌, length, take, drop, arith, nat_eq, Option-cases,
}
use hvac_checkpoint.Common.Int.{ℤ, pos, negsuc, minus_one}
use hvac_checkpoint.Common.Maps.{Map, lookup, insert, lookup-insert, lookup-insert_self}
use hvac_checkpoint.Common.Text.{Text, text_eq}
use hvac_checkpoint.Posix.{Posix, ReadLaws, ReadsUpTo}
use hvac_checkpoint.Server.{HgCalls}
use hvac_checkpoint.Server.Cache.{FileLaws}
use hvac_checkpoint.Cluster.Stream.{StreamLaws, NothingFails}
use hvac_checkpoint.Tests.Disk.{
  Files, fresh, copy_to, lookup-fresh, copy_to-target, copy_to-other, length-take_le,
}
use hvac_checkpoint.Tests.Heads.{bytes_of, take-length-take}

pub record Positions : Type 0 where
  pub files : Files
  pub next : ℕ
  pub left : Map ℕ (List ℕ)

abbrev pub read_left : ℕ → ℕ → Option (List ℕ) → Positions → ℤ × List ℕ × Positions
read_left fd n none fs = (minus_one, [], fs)
read_left fd n (some bytes) fs = (
  pos (length (take n bytes)),
  take n bytes,
  record fs { left = insert fd (drop n bytes) fs.left },
)

abbrev pub read_at : ℤ → ℕ → Positions → ℤ × List ℕ × Positions
read_at (pos fd) n fs = read_left fd n (lookup fd fs.left) fs
read_at (negsuc fd) n fs = (minus_one, [], fs)

abbrev pub positions : Posix
positions = record {
  Fs = Positions;
  open_file = λ p flags fs. (
    pos fs.next,
    record fs { next = suc fs.next; left = insert fs.next (bytes_of (lookup p fs.files)) fs.left },
  );
  close_file = λ fd fs. (pos 0, fs);
  read_file = λ fd n fs. read_at fd n fs;
  pread_file = λ fd n offset fs. (minus_one, [], fs);
  seek_file = λ fd offset whence fs. (offset, fs);
  copy_file = λ p q fs.
      let (done, files) = copy_to (lookup p fs.files) q fs.files in
      (done, record fs { files = files });
  make_temp_dir = λ template fs. (fresh fs.files, fs);
}

read_left-ReadsUpTo :
    (fd n : ℕ) (found : Option (List ℕ)) (fs : Positions)
    → ReadsUpTo n (read_left fd n found fs).0 (read_left fd n found fs).1
read_left-ReadsUpTo fd n none fs = inl (refl, refl)
read_left-ReadsUpTo fd n (some bytes) fs =
    inr (length (take n bytes), refl, length-take_le n bytes, refl)

read_at-ReadsUpTo :
    (fd : ℤ) (n : ℕ) (fs : Positions) → ReadsUpTo n (read_at fd n fs).0 (read_at fd n fs).1
read_at-ReadsUpTo (pos fd) n fs = read_left-ReadsUpTo fd n (lookup fd fs.left) fs
read_at-ReadsUpTo (negsuc fd) n fs = inl (refl, refl)

pub positions-ReadLaws : ReadLaws positions
positions-ReadLaws = record {
  read_result = read_at-ReadsUpTo;
  pread_result = λ fd n offset fs. inl (refl, refl);
}

pub read_at-files : (fd : ℤ) (n : ℕ) (fs : Positions) → (read_at fd n fs).2.files ≡ fs.files
read_at-files (pos fd) n fs = elim (Option-cases (lookup fd fs.left)) [
  | inl closed ↦ rw closed refl
  | inr (bytes, is_open) ↦ rw is_open refl
]
read_at-files (negsuc fd) n fs = refl

unfoldable pub positions-FileLaws : FileLaws positions
positions-FileLaws = record {
  content = λ p fs. lookup p fs.files;
  open_content = λ q p flags fs. refl;
  close_content = λ q fd fs. refl;
  read_content = λ q fd n fs. ap (lookup q) (read_at-files fd n fs);
  pread_content = λ q fd n offset fs. refl;
  seek_content = λ q fd offset whence fs. refl;
  temp_content = λ q template fs. refl;
  temp_fresh = λ template name fs. lookup-fresh name fs.files;
  copy_target = λ p q fs h. copy_to-target p q fs.files (lookup p fs.files) refl h;
  copy_other = λ p q r fs ne. copy_to-other q r fs.files (lookup p fs.files) ne;
}

abbrev pub HasLeft : Positions → ℤ → List ℕ → Type 0
HasLeft fs (pos fd) bytes = lookup fd fs.left ≡ some bytes
HasLeft fs (negsuc fd) bytes = ⊥

drop-length-take : (n : ℕ) (l : List ℕ) → drop (length (take n l)) l ≡ drop n l
drop-length-take zero l = refl
drop-length-take (suc n) [] = refl
drop-length-take (suc n) (x ∷ l) = drop-length-take n l

pub read_some :
    (fd n k : ℕ) (found : Option (List ℕ)) (fs : Positions) (left : List ℕ)
    → found ≡ some left
    → (read_left fd n found fs).0 ≡ pos k
    → ((read_left fd n found fs).1 ≡ take k left)
      × (lookup fd (read_left fd n found fs).2.left ≡ some (drop k left))
read_some fd n k none fs left e got = absurd (cc e)
read_some fd n k (some here) fs left e got =
    let same : here ≡ left = cc e in
    let size : length (take n here) ≡ k = cc got in
    (
      rw (← same, ← size) (sym (take-length-take n here)),
      lookup-insert_self fd (drop n here) fs.left
          ∙ rw (← same, ← size) (ap some (sym (drop-length-take n here))),
    )

nothing_left : (n : ℕ) (l : List ℕ) → 0 < n → length (take n l) ≡ 0 → l ≡ []
nothing_left zero l some_bytes e = absurd (omega arith)
nothing_left (suc n) [] some_bytes e = refl
nothing_left (suc n) (x ∷ l) some_bytes e = absurd (omega (arith, e))

pub read_none :
    (fd n : ℕ) (found : Option (List ℕ)) (fs : Positions) (left : List ℕ)
    → found ≡ some left
    → 0 < n
    → (read_left fd n found fs).0 ≡ pos 0
    → left ≡ []
read_none fd n none fs left e some_bytes got = absurd (cc e)
read_none fd n (some here) fs left e some_bytes got =
    let same : here ≡ left = cc e in
    let size : length (take n here) ≡ 0 = cc got in
    rw (← same) (nothing_left n here some_bytes size)

pub read_apart :
    (fd other n : ℕ) (found : Option (List ℕ)) (fs : Positions)
    → fd ≢ other
    → lookup other (read_left fd n found fs).2.left ≡ lookup other fs.left
read_apart fd other n none fs ne = refl
read_apart fd other n (some here) fs ne =
    ground (arith, lookup-insert fd other (drop n here) fs.left)

unfoldable pub positions-StreamLaws : StreamLaws positions positions-FileLaws
unfolding positions-FileLaws
positions-StreamLaws = record {
  Left = HasLeft;
  open_left = left_after_open;
  read_left = left_after_read;
  read_end = end_of_read;
  read_other = left_by_other;
}
  where
    left_after_open :
        (p : Text) (fs : Positions) (d : ℕ) (bytes : List ℕ)
        → lookup p fs.files ≡ some bytes
        → pos fs.next ≡ pos d
        → HasLeft (positions.open_file p 0 fs).1 (pos d) bytes
    left_after_open p fs d bytes has opened =
        let same : fs.next ≡ d = cc opened in
        rw (← same)
          (lookup-insert_self fs.next (bytes_of (lookup p fs.files)) fs.left ∙ rw has refl)

    left_after_read :
        (fd : ℤ) (n k : ℕ) (fs : Positions) (left : List ℕ)
        → HasLeft fs fd left
        → (read_at fd n fs).0 ≡ pos k
        → ((read_at fd n fs).1 ≡ take k left) × HasLeft (read_at fd n fs).2 fd (drop k left)
    left_after_read (pos fd) n k fs left h got = read_some fd n k (lookup fd fs.left) fs left h got
    left_after_read (negsuc fd) n k fs left h got = absurd h

    end_of_read :
        (fd : ℤ) (n : ℕ) (fs : Positions) (left : List ℕ)
        → HasLeft fs fd left
        → 0 < n
        → (read_at fd n fs).0 ≡ pos 0
        → left ≡ []
    end_of_read (pos fd) n fs left h some_bytes got =
        read_none fd n (lookup fd fs.left) fs left h some_bytes got
    end_of_read (negsuc fd) n fs left h some_bytes got = absurd h

    left_by_other :
        (fd other : ℤ) (n : ℕ) (fs : Positions) (left : List ℕ)
        → fd ≢ other
        → HasLeft fs other left
        → HasLeft (read_at fd n fs).2 other left
    left_by_other (pos fd) (pos other) n fs left ne h =
        read_apart fd other n (lookup fd fs.left) fs (λ e. ne (ap pos e)) ∙ h
    left_by_other (negsuc fd) (pos other) n fs left ne h = h
    left_by_other fd (negsuc other) n fs left ne h = absurd h

pub reads_open :
    (fd n : ℕ) (found : Option (List ℕ)) (fs : Positions) (left : List ℕ)
    → found ≡ some left
    → (k : ℕ) × ((read_left fd n found fs).0 ≡ pos k)
reads_open fd n none fs left e = absurd (cc e)
reads_open fd n (some here) fs left e = (length (take n here), refl)

-- Mercury with every call accepted.
abbrev pub quiet : HgCalls
quiet = record {
  get_input = 0;
  allocated = true;
  info = true;
  bulk_create = 0;
  transfer = λ n. 0;
  addr_to_string = some 0;
}

pub nothing_fails : NothingFails positions positions-FileLaws positions-StreamLaws quiet
unfolding positions-StreamLaws
nothing_fails = record {
  set_up = record { got_input = refl; allocated = refl; info = refl; registered = refl };
  transferred = λ n. refl;
  reads = read_open_file;
}
  where
    read_open_file :
        (fd : ℤ) (n : ℕ) (fs : Positions) (left : List ℕ)
        → HasLeft fs fd left
        → (k : ℕ) × ((read_at fd n fs).0 ≡ pos k)
    read_open_file (pos fd) n fs left h = reads_open fd n (lookup fd fs.left) fs left h
    read_open_file (negsuc fd) n fs left h = absurd h
