-- ===== src/Startup.antt =====
-- hvac_client.cpp, hvac_comm_client.cpp and hvac_comm.cpp: how a client and a server start.
-- `hvac_client_init` runs when the library is loaded; it takes a mutex, reads the environment, sets the
-- ring up and lets the wrappers redirect calls. `hvac_get_addr` finds the client's own address and
-- rank, `hvac_init_comm` the rank of a server.
pub mod Laws
use hvac_checkpoint.Common.{
  ℕ, ◌<◌, ◌≡◌, refl, ◌⊎◌, inl, inr, Bool, true, false, Option, some, none, List, [], ◌∷◌,
  if◌then◌else◌, arith, Option-cases, length, All, ◌≢◌, take,
}
use hvac_checkpoint.Common.Int.{ℤ, pos, minus_one, to_unsigned, to_int32}
use hvac_checkpoint.Common.Text.{Text, c_str}
use hvac_checkpoint.Common.Run.{Run, ok, fault, blocked, undefined, ◌>>=◌, >>=-eq-ok}
use hvac_checkpoint.Ports.{skip_space, scan_signed}
use hvac_checkpoint.Ring.{HashRing, new_ring}
use hvac_checkpoint.Ring.Servers.{server_ring}
use hvac_checkpoint.Address.{extract_ip_portion}
use hvac_checkpoint.Client.{virtual_node_cnt}

-- `atoi`: white space, a sign and digits; 0 where there is no number. A number outside `int` is taken
-- modulo 2^32, as the C library of the platform does.
unfoldable pub atoi : Text → ℤ
atoi s = elim (scan_signed (skip_space s)) [ none ↦ pos 0 | some (n, rest) ↦ to_int32 n ]

-- What the process finds: environment variables; its own address as Mercury prints it with a class,
-- where that succeeds; and what stands in the uninitialised buffer for it, up to the first zero byte,
-- where there is one.
pub record Surroundings : Type 0 where
  pub hvac_server_count : Option Text
  pub hvac_data_dir : Option Text
  pub horovod_rank : Option Text
  pub self_address : Option Text
  pub leftover : Option Text

-- The globals that start-up sets, and whether `hvac_init_comm` has made a class (`hg_class`), which it
-- does at the first file that is tracked.
pub record Startup : Type 0 where
  pub init_mutex_held : Bool
  pub initialized : Bool
  pub disable_redirect : Bool
  pub server_count : ℕ
  pub data_dir : Option Text
  pub ring : HashRing
  pub has_class : Bool
  pub my_address : Option Text
  pub client_address : Text
  pub client_rank : ℤ

abbrev pub before_init : Startup
before_init = record {
  init_mutex_held = Bool.false;
  initialized = Bool.false;
  disable_redirect = Bool.true;
  server_count = 0;
  data_dir = none;
  ring = new_ring 0;
  has_class = Bool.false;
  my_address = none;
  client_address = [];
  client_rank = pos 0;
}

-- The rank that the job gives the process, or -1.
unfoldable pub rank_of : Option Text → ℤ
rank_of none = minus_one
rank_of (some rank_str) = atoi rank_str

-- The buffer for the own address after `HG_Addr_to_string`: without a class, or where Mercury fails,
-- it is as it was, and is read all the same.
unfoldable pub addr_buffer : Surroundings → Option Text → Run Text
addr_buffer env (some address) = ok address
addr_buffer env none = elim env.leftover [ none ↦ fault undefined | some bytes ↦ ok bytes ]

-- The own address, as Mercury prints it with a class.
unfoldable pub own_address : Surroundings → Startup → Option Text
own_address env s = if s.has_class then env.self_address else none

-- `hvac_get_addr`. Without the printed address `my_address` stays null; the buffer for the part before
-- the port has 128 bytes.
unfoldable pub get_addr : Surroundings → Startup → Run Startup
get_addr env s = elim s.my_address [
  | some address ↦ ok s
  | none ↦ do
    buffer ← addr_buffer env (own_address env s)
    written ← extract_ip_portion buffer 128
    ok (record s {
      my_address = own_address env s;
      client_address = c_str written;
      client_rank = rank_of env.horovod_rank;
    })
]

-- The part of `hvac_client_init` after the number of servers is known.
unfoldable pub set_up : (Text → ℕ) → Surroundings → Text → Startup → Run Startup
set_up hash env count s = do
  let servers = to_unsigned 32 (atoi count)
  let dir : Option Text = elim env.hvac_data_dir [ none ↦ s.data_dir | some d ↦ some (c_str d) ]
  let ring = server_ring hash servers virtual_node_cnt
  s' ← get_addr env (record s { server_count = servers; data_dir = dir; ring = ring })
  ok (record s' {
    initialized = Bool.true;
    init_mutex_held = Bool.false;
    disable_redirect = Bool.false;
  })

-- `hvac_client_init`. The second of its two early returns leaves the mutex locked.
unfoldable pub client_init : (Text → ℕ) → Surroundings → Startup → Run Startup
client_init hash env s =
    if s.init_mutex_held
    then fault blocked
    else if s.initialized
    then ok s
    else elim env.hvac_server_count [
      | none ↦ ok (record s { init_mutex_held = Bool.true })
      | some count ↦ set_up hash env count (record s { init_mutex_held = Bool.true })
    ]

-- The rank of a server in `hvac_init_comm`: `atoi` is called before the variable is found missing.
unfoldable pub server_rank : Option Text → Run ℤ
server_rank none = fault undefined
server_rank (some rank_str) = ok (atoi rank_str)
