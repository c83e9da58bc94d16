-- ===== src/Launch.antt =====
-- hvac_server.cpp, and the set-up in hvac_comm.cpp and hvac_comm_client.cpp: how a server process comes
-- to serve, and how a client process makes itself known to Mercury. Mercury is a parameter.
pub mod Laws
pub mod Registers
pub mod Meets
use hvac_checkpoint.Common.{
  ℕ, Bool, true, false, Option, none, some, List, [], ◌∷◌, ◌++◌, if◌then◌else◌, ◌==◌,
}
use hvac_checkpoint.Common.Int.{ℤ, minus_one, to_unsigned}
use hvac_checkpoint.Common.Maps.{Map, lookup, insert}
use hvac_checkpoint.Common.Text.{Text, codes, c_str, text_eq}
use hvac_checkpoint.Common.Run.{Run, ok, fault, assertion, exited, undefined, ◌>>=◌, ◌>>◌, ensure}
use hvac_checkpoint.Address.{extract_ip_portion}
use hvac_checkpoint.Ports.{list_addr}
use hvac_checkpoint.Startup.{atoi, server_rank}

-- The four calls, by the handler that is registered for them.
pub data RpcCall : Type 0 where
  read_call open_call close_call seek_call : RpcCall

-- Mercury as the set-up meets it: `HG_Init`, which may give no class; `HG_Context_create`, by success;
-- `MERCURY_REGISTER` under a name, which gives an id; `HG_Registered_disable_response`, by its code;
-- and the own address as text, which `HG_Addr_to_string` may fail to give.
pub record MercurySetup : Type 1 where
  pub Class : Type 0
  pub init : Text → Bool → Option Class
  pub context_create : Class → Bool
  pub register : Class → Text → RpcCall → ℕ × Class
  pub disable_response : Class → ℕ → ℕ × Class
  pub self_address : Class → Option Text

-- What the process finds: its environment, whether the two threads can be created, and whether a file
-- can be opened for appending.
pub record Site : Type 0 where
  pub pmi_rank : Option Text
  pub slurm_jobid : Option Text
  pub mover_created : Bool
  pub progress_created : Bool
  pub can_append : Text → Bool

-- The globals of hvac_comm.cpp and hvac_server.cpp, the threads, and the files of addresses.
pub record Launch (Class : Type 0) : Type 0 where
  pub hg_class : Option Class
  pub hg_context : Bool
  pub hvac_server_rank : ℤ
  pub server_rank : ℤ
  pub server_addr_str : Text
  pub progress_running : Bool
  pub mover_running : Bool
  pub shutdown_flags : Bool
  pub server_count : ℕ
  pub files : Map Text Text

abbrev pub unlaunched : {Class : Type 0} → Map Text Text → Launch Class
unlaunched files = record {
  hg_class = none;
  hg_context = Bool.false;
  hvac_server_rank = minus_one;
  server_rank = minus_one;
  server_addr_str = [];
  progress_running = Bool.false;
  mover_running = Bool.false;
  shutdown_flags = Bool.false;
  server_count = 0;
  files = files;
}

-- `"./.ports.cfg.%s"`
unfoldable pub config_name : Text → Text
config_name jobid = codes "./.ports.cfg." ++ jobid

-- `hvac_client_open_id` and its like.
pub record RpcIds : Type 0 where
  pub open_id : ℕ
  pub rpc_id : ℕ
  pub close_id : ℕ
  pub seek_id : ℕ

-- The content of a file that is opened with "a+", which creates it.
abbrev pub content_of : Text → Map Text Text → Text
content_of filename files = elim (lookup filename files) [ none ↦ [] | some text ↦ text ]

-- `HG_Registered_disable_response` in the registration of the close call.
unfoldable pub assert_disabled : {Class : Type 0} → ℕ → ℕ × Class → Run (ℕ × Class)
assert_disabled id (code, c) = ensure (code == 0) assertion >> ok (id, c)

-- `hvac_shutdown_comm`; what it did with the context is commented out.
unfoldable pub shutdown_comm : {Class : Type 0} → Launch Class → Launch Class
shutdown_comm s = record s { shutdown_flags = Bool.true }

module _ (hg : MercurySetup) where
  open hg use {Class, register, disable_response, init, context_create, self_address}

  -- `hvac_rpc_register`, `hvac_open_rpc_register`, `hvac_close_rpc_register`, `hvac_seek_rpc_register`
  unfoldable pub rpc_register : Class → Run (ℕ × Class)
  rpc_register c = ok (register c (codes "hvac_base_rpc") read_call)

  unfoldable pub open_rpc_register : Class → Run (ℕ × Class)
  open_rpc_register c = ok (register c (codes "hvac_open_rpc") open_call)

  unfoldable pub close_rpc_register : Class → Run (ℕ × Class)
  close_rpc_register c =
      let (tmp, c') = register c (codes "hvac_close_rpc") close_call in
      assert_disabled tmp (disable_response c' tmp)

  unfoldable pub seek_rpc_register : Class → Run (ℕ × Class)
  seek_rpc_register c = ok (register c (codes "hvac_seek_rpc") seek_call)

  -- The rank of a server, which is read from the environment.
  unfoldable pub init_rank : Bool → Site → Launch Class → Run (Launch Class)
  init_rank false site s = ok s
  init_rank true site s = do
    rank ← server_rank site.pmi_rank
    ok (record s { server_rank = rank; hvac_server_rank = rank })

  -- `hvac_init_comm`: where Mercury gives no class or no context this is logged, and the set-up goes on.
  unfoldable pub init_comm : Bool → Site → Launch Class → Run (Launch Class)
  init_comm listen site s =
      let hg_class = init (codes "ofi+verbs://") listen in
      let hg_context : Bool = elim hg_class [ none ↦ false | some c ↦ context_create c ] in
      do
        s' ← init_rank listen site (record s { hg_class = hg_class; hg_context = hg_context })
        ok (record s' { progress_running = site.progress_created })

  -- The address is appended under the rank; a file that cannot be opened ends the process.
  unfoldable pub append_addr : Site → Text → Text → Launch Class → Run (Launch Class)
  append_addr site filename address s =
      let line = list_addr s.hvac_server_rank address (content_of filename s.files) in
      if site.can_append filename
      then ok (record s { files = insert filename line s.files })
      else fault exited

  -- `hvac_comm_list_addr`. Without a job id, a class or an address, uninitialised memory is read.
  unfoldable pub comm_list_addr : Site → Launch Class → Run (Launch Class)
  comm_list_addr site s = elim site.slurm_jobid [
    | none ↦ fault undefined
    | some jobid ↦ elim s.hg_class [
      | none ↦ fault undefined
      | some c ↦ elim (self_address c) [
        | none ↦ fault undefined
        | some address ↦ do
          written ← extract_ip_portion address 128
          let s' : Launch Class = record s { server_addr_str = c_str written }
          append_addr site (config_name jobid) address s'
      ]
    ]
  ]

  -- The head of `hvac_start_comm_server`: the threads are started, and the address is posted.
  unfoldable pub announce : Site → Launch Class → Run (Launch Class)
  announce site s = do
    s' ← init_comm true site (record s { mover_running = site.mover_created })
    comm_list_addr site s'

  -- The four registrations of `hvac_start_comm_server`, in its order.
  unfoldable pub register_rpcs : Class → Run Class
  register_rpcs c = do
    (_, c₁) ← rpc_register c
    (_, c₂) ← open_rpc_register c₁
    (_, c₃) ← close_rpc_register c₂
    (_, c₄) ← seek_rpc_register c₃
    ok c₄

  -- `hvac_start_comm_server`, up to the loop in which the main thread sleeps.
  unfoldable pub start_comm_server : Site → Launch Class → Run (Launch Class)
  start_comm_server site s = do
    s' ← announce site s
    elim s'.hg_class [
      | none ↦ fault undefined
      | some c ↦ do c' ← register_rpcs c; ok (record s' { hg_class = some c' })
    ]

  -- `main`, on the arguments behind the program's name.
  unfoldable pub main : List Text → Site → Launch Class → Run (Launch Class)
  main [] site s = fault exited
  main (count ∷ args) site s =
      start_comm_server site (record s { server_count = to_unsigned 32 (atoi count) })

  -- `hvac_client_comm_register_rpc`
  unfoldable pub client_comm_register_rpc : Class → Run (RpcIds × Class)
  client_comm_register_rpc c = do
    (open_id, c₁) ← open_rpc_register c
    (rpc_id, c₂) ← rpc_register c₁
    (close_id, c₃) ← close_rpc_register c₂
    (seek_id, c₄) ← seek_rpc_register c₃
    ok (record { open_id = open_id; rpc_id = rpc_id; close_id = close_id; seek_id = seek_id }, c₄)
