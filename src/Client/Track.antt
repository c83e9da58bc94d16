-- ===== src/Client/Track.antt =====
-- hvac_client.cpp: `hvac_track_file`, which decides whether an opened file is served remotely.
use hvac_checkpoint.Common.{
  ℕ, ◌%◌, ◌/◌, Bool, true, false, Option, some, none, [], ◌∷◌, if◌then◌else◌, ◌==◌,
}
use hvac_checkpoint.Common.Int.{ℤ, int_eq}
use hvac_checkpoint.Common.Maps.{insert}
use hvac_checkpoint.Common.Text.{Text, text_beq, codes, contains}
use hvac_checkpoint.Common.Run.{Run, ok, ◌>>=◌}
use hvac_checkpoint.Client.{Client, Env, Rpc, initialize_hash_ring, virtual_node_cnt}
use hvac_checkpoint.Client.Calls.{remote_open}
use hvac_checkpoint.Client.Remote.{hashed_host}

-- The text before the last slash.
unfoldable pub before_last_slash : Text → Option Text
before_last_slash [] = none
before_last_slash (c ∷ s) = elim (before_last_slash s) [
  | some p ↦ some (c ∷ p)
  | none ↦ if c == b'/' then some [] else none
]

-- `parent_path()` of a canonical path: that of the root is the root.
unfoldable pub parent_path : Text → Text
parent_path p = elim (before_last_slash p) [
  | none ↦ []
  | some q ↦ elim q [ [] ↦ codes "/" | c ∷ s ↦ c ∷ s ]
]

-- `(flags & O_ACCMODE) == O_WRONLY`, and `flags & O_APPEND`
abbrev pub is_write_only : ℕ → Bool
is_write_only flags = flags % 4 == 1

abbrev pub is_append : ℕ → Bool
is_append flags = flags / 1024 % 2 == 1

-- The `try` block: the canonical path of a file that is to be tracked. A throw of
-- `std::filesystem` is caught, and the file is not tracked.
unfoldable pub tracked_path : Env → Text → Option Text
tracked_path env path = elim (env.canonical path) [
  | none ↦ none
  | some real ↦ elim env.data_dir [
    | none ↦ if text_beq (parent_path real) env.current_path then some real else none
    | some dir ↦ elim (env.canonical dir) [
      | none ↦ none
      | some test ↦ if contains test (parent_path real) then some real else none
    ]
  ]
]

-- The checks of `hvac_track_file` before any remote call.
unfoldable pub wants_tracking : Env → Text → ℕ → Option Text
unfolding tracked_path
wants_tracking env path flags =
    if contains (codes ".ports.cfg.") path
    then none
    else if is_write_only flags
    then none
    else if is_append flags
    then none
    else tracked_path env path

-- The first tracked file starts Mercury and sets the ring up once more.
unfoldable pub init_mercury : {World : Type 0} → Env → Client World → Client World
init_mercury env c =
    if c.mercury_init
    then c
    else record (initialize_hash_ring env virtual_node_cnt c) { mercury_init = true }

module _ (rpc : Rpc) (env : Env) where
  unfoldable pub track_file : Text → ℕ → ℤ → Client rpc.World → Run (Bool × Client rpc.World)
  track_file path flags fd c = elim (wants_tracking env path flags) [
    | none ↦ ok (false, c)
    | some real ↦ do
      host ← hashed_host env real
      let c₁ = init_mercury env (record c { fd_map = insert fd real c.fd_map })
      c₂ ← remote_open rpc env host real fd c₁
      ok (true, c₂)
  ]
