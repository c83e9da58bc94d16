-- ===== src/Server/Mover/Laws.antt =====
-- hvac_data_mover.cpp: what a round of the data mover does to the queue and to the cache.
use hvac_checkpoint.Common.{
  ◌≡◌, refl, sym, ◌∙◌, ◌⊎◌, inl, inr, Bool, true, false, none, some, List, [], ◌∷◌, ◌++◌, arith,
  Bool-cases,
}
use mathlib.Core.Path.{subst}
use hvac_checkpoint.Common.Maps.{insert, lookup, lookup-insert, lookup-insert_self}
use hvac_checkpoint.Common.Text.{Text, text_eq, text_beq, text_beq_iff, codes, c_str}
use hvac_checkpoint.Common.Run.{ok, fault, blocked}
use hvac_checkpoint.Posix.{Posix}
use hvac_checkpoint.Server.{Server}
use hvac_checkpoint.Server.Mover.{filename, move_file, move_list, take_queue, move_round}

-- Whether a path is in a list.
abbrev pub In : Text → List Text → Type 0
In p [] = ⊥
In p (q ∷ ps) = (p ≡ q) ⊎ In p ps

module _ (os : Posix) (nvmepath : Text) where
  move_file-queue :
      (path : Text) (s : Server os.Fs)
      → ((move_file os nvmepath path s).data_queue ≡ s.data_queue)
        × ((move_file os nvmepath path s).fd_to_path ≡ s.fd_to_path)
        × ((move_file os nvmepath path s).local_list ≡ s.local_list)
  unfolding move_file
  move_file-queue path s = ground arith

  -- A copy of the path to a fresh directory that succeeded, or that failed.
  abbrev pub Copied : Bool → Text → Text → Type 0
  Copied done path copy =
      (before : os.Fs) × (copy
        ≡ (os.make_temp_dir (c_str nvmepath) before).0 ++ (codes "/" ++ filename (c_str path)))
      × ((os.copy_file path copy (os.make_temp_dir (c_str nvmepath) before).1).0 ≡ done)

  move_file-Copied :
      (path : Text) (s : Server os.Fs)
      → (copy : Text) × ((Copied true path copy
            × ((move_file os nvmepath path s).path_cache_map ≡ insert path copy s.path_cache_map))
          ⊎ (Copied false path copy
              × ((move_file os nvmepath path s).path_cache_map ≡ s.path_cache_map)))
  unfolding move_file
  move_file-Copied path s =
      let (dirpath, fs) = os.make_temp_dir (c_str nvmepath) s.fs in
      let target = dirpath ++ (codes "/" ++ filename (c_str path)) in
      elim (Bool-cases (os.copy_file path target fs).0) [
        | inl done ↦ (target, inl ((s.fs, refl, done), rw (done, move_file)))
        | inr failed ↦ (target, inr ((s.fs, refl, failed), rw (failed, move_file)))
      ]

  -- A step of the mover takes no path out of the cache.
  move_file-kept :
      (path p copy : Text) (s : Server os.Fs)
      → lookup p s.path_cache_map ≡ some copy
      → (copy' : Text) × (lookup p (move_file os nvmepath path s).path_cache_map ≡ some copy')
  move_file-kept path p copy s e =
      let (target, outcome) = move_file-Copied path s in
      elim outcome [
        | inr (_, same) ↦ (copy, rw same e)
        | inl (_, entry) ↦ elim (Bool-cases (text_beq path p)) [
          | inl hit ↦ (target, rw entry (lookup-insert path p target s.path_cache_map ∙ rw hit))
          | inr miss ↦ (copy, rw entry (lookup-insert path p target s.path_cache_map ∙ rw miss e))
        ]
      ]

  -- What a step of the mover has in the cache it had before, or it is a copy made now.
  move_file-entered :
      (path p copy : Text) (s : Server os.Fs)
      → lookup p (move_file os nvmepath path s).path_cache_map ≡ some copy
      → ((p ≡ path) × Copied true path copy) ⊎ (lookup p s.path_cache_map ≡ some copy)
  move_file-entered path p copy s e =
      let (target, outcome) = move_file-Copied path s in
      elim outcome [
        | inr (_, same) ↦ inr (rw same at e)
        | inl (made, entry) ↦
            let e₁ = sym (lookup-insert path p target s.path_cache_map) ∙ (rw entry at e) in
            elim (Bool-cases (text_beq path p)) [
              | inl hit ↦
                  let same : target ≡ copy = let e₂ = rw hit at e₁ in cc e₂ in
                  inl (sym ((text_beq_iff path p).0 hit), subst (Copied true path) same made)
              | inr miss ↦ inr (rw miss at e₁)
            ]
      ]

  -- A path that a step of the mover does not enter could not be copied.
  move_file-missed :
      (path : Text) (s : Server os.Fs)
      → ((copy : Text) × (lookup path (move_file os nvmepath path s).path_cache_map ≡ some copy))
        ⊎ ((copy : Text) × Copied false path copy)
  move_file-missed path s =
      let (target, outcome) = move_file-Copied path s in
      elim outcome [
        | inl (_, entry) ↦ inl (target, rw entry (lookup-insert_self path target s.path_cache_map))
        | inr (failed, _) ↦ inr (target, failed)
      ]

  -- What the second half of a round keeps and changes: every entry of the cache that is new is a copy
  -- that succeeded, of a path that was queued, and every queued path without an entry has a copy that
  -- failed.
  pub record Moved (l : List Text) (s t : Server os.Fs) : Type 0 where
    pub queue : t.data_queue ≡ s.data_queue
    pub paths : t.fd_to_path ≡ s.fd_to_path
    pub emptied : t.local_list ≡ []
    pub kept :
        (p copy : Text)
        → lookup p s.path_cache_map ≡ some copy
        → (copy' : Text) × (lookup p t.path_cache_map ≡ some copy')
    pub entered :
        (p copy : Text)
        → lookup p t.path_cache_map ≡ some copy
        → (In p l × Copied true p copy) ⊎ (lookup p s.path_cache_map ≡ some copy)
    pub missed :
        (p : Text) → In p l → lookup p t.path_cache_map ≡ none → (copy : Text) × Copied false p copy

  move_list-Moved :
      (l : List Text) (s : Server os.Fs) → s.local_list ≡ l → Moved l s (move_list os nvmepath l s)
  unfolding move_list
  move_list-Moved [] s taken = record {
    queue = refl;
    paths = refl;
    emptied = taken;
    kept = λ p copy h. (copy, h);
    entered = λ p copy h. inr h;
    missed = λ p among h. absurd among;
  }
  move_list-Moved (path ∷ l) s taken =
      let s₁ : Server os.Fs = record s { local_list = l } in
      let s₂ = move_file os nvmepath path s₁ in
      let (queue, paths, left) = move_file-queue path s₁ in
      let ih = move_list-Moved l s₂ left in
      record {
        queue = ih.queue ∙ queue;
        paths = ih.paths ∙ paths;
        emptied = ih.emptied;
        kept = λ p copy h. let (copy₁, h₁) = move_file-kept path p copy s₁ h in ih.kept p copy₁ h₁;
        entered = λ p copy h. elim (ih.entered p copy h) [
          | inl (later, made) ↦ inl (inr later, made)
          | inr before ↦ elim (move_file-entered path p copy s₁ before) [
            | inl (here, made) ↦ inl (inl here, subst (λ q. Copied true q copy) (sym here) made)
            | inr old ↦ inr old
          ]
        ];
        missed = λ p among h. elim among [
          | inr later ↦ ih.missed p later h
          | inl here ↦ elim (move_file-missed path s₁) [
            | inr (copy, failed) ↦ (copy, subst (λ q. Copied false q copy) (sym here) failed)
            | inl (copy, entry) ↦
                let (copy', still) = ih.kept path copy entry in
                absurd (let h' = rw here at h in cc (h', still))
          ]
        ];
      }

  take_queue-cons :
      (s : Server os.Fs) (p : Text) (ps : List Text)
      → s.local_list ≡ []
      → s.data_queue ≡ p ∷ ps
      → take_queue os s ≡ ok (record s { data_queue = []; local_list = p ∷ ps })
  unfolding take_queue
  take_queue-cons s p ps idle e = ground arith

  round_of :
      (s : Server os.Fs) (q : List Text)
      → s.local_list ≡ []
      → s.data_queue ≡ q
      → ((q ≡ []) × (move_round os nvmepath s ≡ fault blocked))
        ⊎ ((t : Server os.Fs) × (move_round os nvmepath s ≡ ok t)
            × (t.data_queue ≡ [])
            × Moved q (record s { data_queue = []; local_list = q }) t)
  unfolding move_round
  round_of s [] idle e = inl (refl, unfold take_queue in ground arith)
  round_of s (p ∷ ps) idle e =
      let taken : Server os.Fs = record s { data_queue = []; local_list = p ∷ ps } in
      let moved = move_list-Moved (p ∷ ps) taken refl in
      inr (
        move_list os nvmepath (p ∷ ps) taken,
        rw (take_queue-cons s p ps idle e, move_round),
        moved.queue,
        moved,
      )

  -- From an empty local list, a round of the data mover that finds work returns with both queues
  -- empty. It takes no path out of the cache; every entry that is new stands for a path that was queued
  -- and names a copy of it in a fresh directory that succeeded; and every queued path without an entry
  -- has such a copy that failed. With an empty queue the mover waits.
  pub move_round-Moved :
      (s : Server os.Fs)
      → s.local_list ≡ []
      → ((s.data_queue ≡ []) × (move_round os nvmepath s ≡ fault blocked))
        ⊎ ((t : Server os.Fs) × (move_round os nvmepath s ≡ ok t)
            × (t.data_queue ≡ [])
            × Moved s.data_queue (record s { data_queue = []; local_list = s.data_queue }) t)
  move_round-Moved s idle = round_of s s.data_queue idle refl
