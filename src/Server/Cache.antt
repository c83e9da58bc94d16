-- ===== src/Server/Cache.antt =====
-- hvac_data_mover.cpp: the cache of copies and the contents of files, at one step of the data mover.
pub mod Transparent
use hvac_checkpoint.Common.{
  ℕ, ◌≡◌, ◌≢◌, sym, ◌∙◌, ◌⊎◌, inl, inr, Bool, true, Option, some, none, List, ◌∷◌, ◌++◌, arith,
  Bool-cases, Option-cases,
}
use hvac_checkpoint.Common.Int.{ℤ, to_unsigned}
use hvac_checkpoint.Common.Maps.{lookup, lookup-insert}
use hvac_checkpoint.Common.Text.{Text, text_eq, text_beq, text_beq_iff, codes, c_str}
use hvac_checkpoint.Common.Run.{ok}
use hvac_checkpoint.Posix.{Posix}
use hvac_checkpoint.Server.{Server, HgCalls, Handled, start}
use hvac_checkpoint.Server.Read.{RpcIn, rpc_handler, serve_read, start_transfer}
use hvac_checkpoint.Server.Files.{
  OpenIn, CloseIn, SeekIn, redirect, open_rpc_handler, close_rpc_handler, seek_rpc_handler,
  queue_path,
}
use hvac_checkpoint.Server.Mover.{filename, move_file, take_queue}

-- What the file calls do to the contents of files, as documented: only a copy writes, it writes its
-- target alone, and `mkdtemp` makes a directory in which no file exists yet.
pub record FileLaws (os : Posix) : Type 1 where
  pub content : Text → os.Fs → Option (List ℕ)
  pub open_content :
      (q p : Text) (flags : ℕ) (fs : os.Fs) → content q (os.open_file p flags fs).1 ≡ content q fs
  pub close_content :
      (q : Text) (fd : ℤ) (fs : os.Fs) → content q (os.close_file fd fs).1 ≡ content q fs
  pub read_content :
      (q : Text) (fd : ℤ) (n : ℕ) (fs : os.Fs) → content q (os.read_file fd n fs).2 ≡ content q fs
  pub pread_content :
      (q : Text) (fd : ℤ) (n : ℕ) (offset : ℤ) (fs : os.Fs)
      → content q (os.pread_file fd n offset fs).2 ≡ content q fs
  pub seek_content :
      (q : Text) (fd offset whence : ℤ) (fs : os.Fs)
      → content q (os.seek_file fd offset whence fs).1 ≡ content q fs
  pub temp_content :
      (q template : Text) (fs : os.Fs) → content q (os.make_temp_dir template fs).1 ≡ content q fs
  pub temp_fresh :
      (template name : Text) (fs : os.Fs)
      → content ((os.make_temp_dir template fs).0 ++ (codes "/" ++ name)) fs ≡ none
  pub copy_target :
      (p q : Text) (fs : os.Fs)
      → (os.copy_file p q fs).0 ≡ true
      → (bytes : List ℕ) × (content p fs ≡ some bytes)
        × (content q (os.copy_file p q fs).1 ≡ some bytes)
  pub copy_other :
      (p q r : Text) (fs : os.Fs) → r ≢ q → content r (os.copy_file p q fs).1 ≡ content r fs

module _ (os : Posix) (laws : FileLaws os) where
  open laws use {content}

  -- Every cached copy has the content of the file that it stands for.
  abbrev pub IsFaithful : Server os.Fs → Type 0
  IsFaithful s =
      (p copy : Text)
      → lookup p s.path_cache_map ≡ some copy
      → (bytes : List ℕ) × (content p s.fs ≡ some bytes) × (content copy s.fs ≡ some bytes)

  -- The file that a path is redirected to has its content.
  pub redirect-content_of_IsFaithful :
      (path : Text) (s : Server os.Fs)
      → IsFaithful s
      → content (redirect path s.path_cache_map) s.fs ≡ content path s.fs
  unfolding redirect
  redirect-content_of_IsFaithful path s faithful =
      elim (Option-cases (lookup path s.path_cache_map)) [
        | inl absent ↦ rw (absent, redirect)
        | inr (copy, e) ↦
            let (bytes, of_path, of_copy) = faithful path copy e in
            rw (e, redirect) (of_copy ∙ sym of_path)
      ]

  -- The cache is the same and so are the contents of all files.
  abbrev pub KeepsFiles : Server os.Fs → Server os.Fs → Type 0
  KeepsFiles s t =
      (t.path_cache_map ≡ s.path_cache_map) × ((q : Text) → content q t.fs ≡ content q s.fs)

  pub KeepsFiles-IsFaithful : (s t : Server os.Fs) → KeepsFiles s t → IsFaithful s → IsFaithful t
  KeepsFiles-IsFaithful s t (cache, files) faithful p copy e =
      let (bytes, of_path, of_copy) = faithful p copy (rw (← cache) e) in
      (bytes, files p ∙ of_path, files copy ∙ of_copy)

  -- One step of the data mover keeps the cache faithful and every file that there was.
  module _ (nvmepath path : Text) (s : Server os.Fs) where
    abbrev made : Text × os.Fs
    made = os.make_temp_dir (c_str nvmepath) s.fs

    abbrev target : Text
    target = made.0 ++ (codes "/" ++ filename (c_str path))

    abbrev copied : Bool × os.Fs
    copied = os.copy_file path target made.1

    target_fresh : (q : Text) (bytes : List ℕ) → content q s.fs ≡ some bytes → q ≢ target
    target_fresh q bytes e same =
        let absent = laws.temp_fresh (c_str nvmepath) (filename (c_str path)) s.fs in
        cc (e, same, absent)

    move_file-fs : (move_file os nvmepath path s).fs ≡ copied.1
    unfolding move_file
    move_file-fs = elim (Bool-cases copied.0) [
      | inl done ↦ rw (done, move_file)
      | inr failed ↦ rw (failed, move_file)
    ]

    pub move_file-content :
        (q : Text) (bytes : List ℕ)
        → content q s.fs ≡ some bytes
        → content q (move_file os nvmepath path s).fs ≡ some bytes
    move_file-content q bytes e = rw move_file-fs (
        laws.copy_other path target q made.1 (target_fresh q bytes e)
        ∙ laws.temp_content q (c_str nvmepath) s.fs
        ∙ e)

    move_file-cache :
        (p copy : Text)
        → lookup p (move_file os nvmepath path s).path_cache_map ≡ some copy
        → ((copied.0 ≡ true) × (p ≡ path) × (copy ≡ target))
          ⊎ (lookup p s.path_cache_map ≡ some copy)
    unfolding move_file
    move_file-cache p copy e = elim (Bool-cases copied.0) [
      | inr failed ↦ inr (rw (failed, move_file) at e)
      | inl done ↦
          let e₁ = rw (done, move_file) at e in
          let e₂ = sym (lookup-insert path p target s.path_cache_map) ∙ e₁ in
          elim (Bool-cases (text_beq path p)) [
            | inl same ↦
                let hit : some target ≡ some copy = rw same at e₂ in
                inl (done, sym ((text_beq_iff path p).0 same), cc hit)
            | inr other ↦ inr (rw other at e₂)
          ]
    ]

    -- A step of the data mover keeps the cache faithful.
    pub move_file-IsFaithful : IsFaithful s → IsFaithful (move_file os nvmepath path s)
    move_file-IsFaithful faithful p copy e = elim (move_file-cache p copy e) [
      | inr old ↦
          let (bytes, of_path, of_copy) = faithful p copy old in
          (bytes, move_file-content p bytes of_path, move_file-content copy bytes of_copy)
      | inl (done, same, here) ↦
          let (bytes, read, written) = laws.copy_target path target made.1 done in
          let before : content path s.fs ≡ some bytes =
            sym (laws.temp_content path (c_str nvmepath) s.fs) ∙ read in
          (bytes, rw same (move_file-content path bytes before), rw (here, move_file-fs) written)
    ]
