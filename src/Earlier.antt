-- ===== src/Earlier.antt =====
-- backup/: the version of the client and of the server before the ring. Here its messages
-- (hvac_comm.h), the globals of its client (hvac_client.cpp) and what its calls share
-- (hvac_comm_client.cpp).
pub mod Calls
pub mod Remote
pub mod Handlers
pub mod Agrees
pub mod Wrappers
pub mod Mover
pub mod Launch
pub mod Overlap
pub mod Startup
use hvac_checkpoint.Common.{ℕ, ◌+◌, ◌%◌, ◌^◌, Bool, Option, List, []}
use hvac_checkpoint.Common.Int.{ℤ, minus_one, int_eq}
use hvac_checkpoint.Common.Maps.{Map, has_key}
use hvac_checkpoint.Common.Text.{Text}
use hvac_checkpoint.Client.{Reply}

-- `hvac_open_in_t`, `hvac_rpc_in_t`, `hvac_seek_in_t` and `hvac_close_in_t`
pub record OpenIn : Type 0 where
  pub path : Text

pub record RpcIn : Type 0 where
  pub input_val : ℤ
  pub accessfd : ℤ
  pub offset : ℤ

pub record SeekIn : Type 0 where
  pub fd : ℤ
  pub offset : ℤ
  pub whence : ℤ

pub record CloseIn : Type 0 where
  pub fd : ℤ

-- The servers behind Mercury, by address, as in Client.
pub record Rpc : Type 1 where
  pub World : Type 0
  pub open_rpc : Text → OpenIn → World → Reply ℤ × World
  pub read_rpc : Text → RpcIn → World → Reply (ℤ × List ℕ) × World
  pub close_rpc : Text → CloseIn → World → Option World
  pub seek_rpc : Text → SeekIn → World → Reply ℤ × World

pub record Client (World : Type 0) : Type 0 where
  pub world : World
  pub fd_map : Map ℤ Text
  pub fd_redir_map : Map ℤ ℤ
  pub mercury_init : Bool
  pub address_cache : Map ℤ Text

-- `hvac_file_tracked`
abbrev pub file_tracked : {World : Type 0} → ℤ → Client World → Bool
file_tracked fd c = has_key fd c.fd_map

-- `done` and `read_ret`, which all calls of the process share, and as a call sets them first.
pub record Shared : Type 0 where
  pub done : ℕ
  pub read_ret : ℤ

abbrev pub reset : Shared
reset = record { done = 0; read_ret = minus_one }

-- What a callback does at its end: `done` is a `uint8_t`.
abbrev pub signal : ℤ → Shared → Shared
signal ret s = record { done = (s.done + 1) % 2 ^ 8; read_ret = ret }
