-- ===== src/Client.antt =====
-- The client's state: the globals of hvac_client.cpp and hvac_comm_client.cpp, the environment that
-- they are read in, and the servers as the client meets them, through remote calls.
pub mod Calls
pub mod Remote
pub mod Track
pub mod Invariant
pub mod Operations
pub mod Closing
pub mod Serving
pub mod Reach
pub mod Fallback
pub mod Admission
pub mod Seeks
use hvac_checkpoint.Common.{
  ℕ, ◌-◌, Bool, Option, none, some, List, [], ◌++◌, length, take, replicate, if◌then◌else◌,
}
use hvac_checkpoint.Common.Int.{ℤ, int_eq}
use hvac_checkpoint.Common.Maps.{Map, has_key}
use hvac_checkpoint.Common.Text.{Text}
use hvac_checkpoint.Ring.{HashRing, new_ring}
use hvac_checkpoint.Ring.Servers.{server_ring}
use hvac_checkpoint.Server.Files.{OpenIn, CloseIn, SeekIn}
use hvac_checkpoint.Server.Read.{RpcIn}

-- What comes of a forwarded call: an answer within the time limit of a wait, one after it, an answer
-- that does not decode, a failure (a callback that reports an error, or a call that cannot be made,
-- sent or freed, which an assertion tests), or no callback at all.
pub data Reply (A : Type 0) : Type 0 where
  answered late : A → Reply A
  garbled failed silent : Reply A

-- The servers behind Mercury, by address. A read also hands over the bytes that the server pushed. A
-- close, for which no answer is waited for, is `none` where the call cannot be made, sent or freed.
pub record Rpc : Type 1 where
  pub World : Type 0
  pub open_rpc : Text → OpenIn → World → Reply ℤ × World
  pub read_rpc : Text → RpcIn → World → Reply (ℤ × List ℕ) × World
  pub close_rpc : Text → CloseIn → World → Option World
  pub seek_rpc : Text → SeekIn → World → Reply ℤ × World

-- Environment variables, `std::hash<std::string>`, the file of addresses, and what
-- `std::filesystem` says of paths; `none` is a throw.
pub record Env : Type 0 where
  pub server_count : ℕ
  pub data_dir : Option Text
  pub client_rank : ℤ
  pub hash : Text → ℕ
  pub ports : Text
  pub canonical : Text → Option Text
  pub current_path : Text

pub record Client (World : Type 0) : Type 0 where
  pub world : World
  pub fd_map : Map ℤ Text
  pub fd_redir_map : Map ℤ ℤ
  pub ring : HashRing
  pub timeout_counters : List ℕ
  pub failure_flags : List Bool
  pub mercury_init : Bool
  pub address_cache : Map ℤ Text

abbrev pub virtual_node_cnt : ℕ
virtual_node_cnt = 100

-- `v.resize(n, d)`
abbrev pub resize {ℓ} : {A : Type ℓ} → ℕ → A → List A → List A
resize n d v = take n v ++ replicate (n - length v) d

-- `initialize_hash_ring`
unfoldable pub initialize_hash_ring : {World : Type 0} → Env → ℕ → Client World → Client World
initialize_hash_ring env vnodes c = record c {
  ring = server_ring env.hash env.server_count vnodes;
  timeout_counters = resize env.server_count 0 c.timeout_counters;
  failure_flags = resize env.server_count Bool.false c.failure_flags;
}

-- The state that the loader leaves, before and after `hvac_client_init`.
abbrev pub unloaded : {World : Type 0} → World → Client World
unloaded w = record {
  world = w;
  fd_map = [];
  fd_redir_map = [];
  ring = new_ring 0;
  timeout_counters = [];
  failure_flags = [];
  mercury_init = Bool.false;
  address_cache = [];
}

unfoldable pub loaded : {World : Type 0} → Env → World → Client World
loaded env w = initialize_hash_ring env virtual_node_cnt (unloaded w)

-- `hvac_file_tracked`; on the empty map it is false as on any map without the descriptor.
abbrev pub file_tracked : {World : Type 0} → ℤ → Client World → Bool
file_tracked fd c = has_key fd c.fd_map
