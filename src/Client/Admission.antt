-- ===== src/Client/Admission.antt =====
-- hvac_client.cpp: which opened files `hvac_track_file` serves remotely.
use hvac_checkpoint.Common.{
  ℕ, ◌≡◌, ap, ◌∙◌, ◌⊎◌, inl, inr, true, false, some, none, ◌++◌, arith, Option-cases,
}
use hvac_checkpoint.Common.Int.{ℤ}
use hvac_checkpoint.Common.Text.{Text, codes, contains, contains-append, text_beq_iff}
use hvac_checkpoint.Common.Run.{ok}
use hvac_checkpoint.Client.{Client, Env, Rpc}
use hvac_checkpoint.Client.Track.{
  is_write_only, is_append, parent_path, tracked_path, wants_tracking, track_file,
}

-- The open flags and the name that `hvac_track_file` lets through.
pub record IsEligible (path : Text) (flags : ℕ) : Type 0 where
  pub not_ports : contains (codes ".ports.cfg.") path ≡ false
  pub not_write_only : is_write_only flags ≡ false
  pub not_append : is_append flags ≡ false

-- Where the directory of a tracked file lies.
pub IsInside : Env → Text → Type 0
IsInside env real =
    ((env.data_dir ≡ none) × (parent_path real ≡ env.current_path))
    ⊎ ((dir test : Text) × (env.data_dir ≡ some dir)
        × (env.canonical dir ≡ some test)
        × (contains test (parent_path real) ≡ true))

tracked_path-IsInside :
    (env : Env) (path real : Text)
    → tracked_path env path ≡ some real
    → (env.canonical path ≡ some real) × IsInside env real
unfolding tracked_path IsInside
tracked_path-IsInside env path real e = elim (Option-cases (env.canonical path)) [
  | inl no_path ↦ ground arith
  | inr (found, has_path) ↦ elim (Option-cases env.data_dir) [
    | inl no_dir ↦ (
      ground arith,
      inl (no_dir, ground (arith, text_beq_iff (parent_path found) env.current_path)),
    )
    | inr (dir, has_dir) ↦ elim (Option-cases (env.canonical dir)) [
      | inl no_test ↦ ground arith
      | inr (test, has_test) ↦ (ground arith, inr (dir, test, has_dir, has_test, ground arith))
    ]
  ]
]

-- A file that is tracked has an eligible name and eligible flags, it resolves to the path that is
-- tracked, and its directory contains the data directory, or is the current directory where no data
-- directory is set.
pub wants_tracking-IsEligible :
    (env : Env) (path real : Text) (flags : ℕ)
    → wants_tracking env path flags ≡ some real
    → IsEligible path flags × (env.canonical path ≡ some real) × IsInside env real
unfolding wants_tracking
wants_tracking-IsEligible env path real flags e =
    let (resolved, inside) = tracked_path-IsInside env path real (ground arith) in
    (
      record { not_ports = ground arith; not_write_only = ground arith; not_append = ground arith },
      resolved,
      inside,
    )

-- Where the name and the flags are eligible and a data directory is set, a file is tracked as soon
-- as the path of the data directory stands somewhere in the path of its directory, under whatever
-- other directory that is.
pub wants_tracking_anywhere :
    (env : Env) (path real dir test before behind : Text) (flags : ℕ)
    → IsEligible path flags
    → env.canonical path ≡ some real
    → env.data_dir ≡ some dir
    → env.canonical dir ≡ some test
    → parent_path real ≡ before ++ (test ++ behind)
    → wants_tracking env path flags ≡ some real
unfolding wants_tracking tracked_path
wants_tracking_anywhere env path real dir test before behind flags ok_name resolved dir_set dir_real
      parent =
    let inside : contains test (parent_path real) ≡ true =
      ap (contains test) parent ∙ contains-append test before behind in
    rw (
      ok_name.not_ports, ok_name.not_write_only, ok_name.not_append, tracked_path, resolved,
      dir_set, dir_real, inside,
    )

module _ (rpc : Rpc) (env : Env) where
  -- A file whose name has the mark of the file of addresses, that is opened for writing only or
  -- for appending, or that does not resolve, is refused with no remote call, and the client stays
  -- as it was.
  pub track_file_refuses :
      (path : Text) (flags : ℕ) (fd : ℤ) (c : Client rpc.World)
      → (contains (codes ".ports.cfg.") path ≡ true)
        ⊎ (is_write_only flags ≡ true)
        ⊎ (is_append flags ≡ true)
        ⊎ (env.canonical path ≡ none)
      → track_file rpc env path flags fd c ≡ ok (false, c)
  unfolding track_file wants_tracking
  track_file_refuses path flags fd c h = ground arith
