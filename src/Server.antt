-- ===== src/Server.antt =====
-- The server's state: hvac_data_mover.cpp's globals `fd_to_path`, `path_cache_map`, `data_queue`
-- and the mover's `local_list`, beside the state of the operating system; and what the handlers of
-- hvac_comm.cpp do with Mercury.
pub mod Read
pub mod Files
pub mod Mover
pub mod Cache
use hvac_checkpoint.Common.{ℕ, Bool, Option, List, [], none, ◌∷◌}
use hvac_checkpoint.Common.Int.{ℤ}
use hvac_checkpoint.Common.Maps.{Map}
use hvac_checkpoint.Common.Text.{Text}

pub record Server (Fs : Type 0) : Type 0 where
  pub fs : Fs
  pub fd_to_path : Map ℤ Text
  pub path_cache_map : Map Text Text
  pub data_queue : List Text
  pub local_list : List Text

abbrev pub start : {Fs : Type 0} → Fs → Server Fs
start fs = record {
  fs = fs;
  fd_to_path = [];
  path_cache_map = [];
  data_queue = [];
  local_list = [];
}

-- How the calls into Mercury and `calloc` end in one run of a handler; 0 is `HG_SUCCESS`.
-- `transfer` is the code of `HG_Bulk_transfer` by the size asked for. `addr_to_string` is what
-- comes of the call that reads the address through the uninitialised `hgi` of the close handler:
-- `none` is a crash.
pub record HgCalls : Type 0 where
  pub get_input : ℕ
  pub allocated : Bool
  pub info : Bool
  pub bulk_create : ℕ
  pub transfer : ℕ → ℕ
  pub addr_to_string : Option ℕ

-- What a handler does, in order: its answer to the client, the bytes that it pushes, and the
-- resources of the call that it gives back.
pub data Event : Type 0 where
  responds : ℤ → Event
  pushes : ℕ → List ℕ → Event
  bulk_freed handle_destroyed buffer_freed state_freed : Event

pub record Handled (Fs : Type 0) : Type 0 where
  pub server : Server Fs
  pub events : List Event
  pub ret : ℕ
