-- ===== src/Launch/Laws.antt =====
-- hvac_server.cpp, hvac_comm.cpp and hvac_comm_client.cpp: what the registrations leave in Mercury.
use hvac_checkpoint.Common.{ℕ, ◌≡◌, ◌≢◌, Bool, true, false, Option, none, some}
use hvac_checkpoint.Common.Text.{Text, codes}
use hvac_checkpoint.Launch.{RpcCall, read_call, open_call, close_call, seek_call, MercurySetup}

abbrev pub rpc_name : RpcCall → Text
rpc_name read_call = codes "hvac_base_rpc"
rpc_name open_call = codes "hvac_open_rpc"
rpc_name close_call = codes "hvac_close_rpc"
rpc_name seek_call = codes "hvac_seek_rpc"

-- A close is not answered.
abbrev pub is_answered : RpcCall → Bool
is_answered read_call = true
is_answered open_call = true
is_answered close_call = false
is_answered seek_call = true

-- What Mercury documents of registrations: the id depends on the name alone, a class that has just
-- been made has no handler, a registration enters the handler under the id, with answers, and leaves
-- the other ids alone, and answers can be disabled for an id that is registered. The four names of the
-- program have four ids.
pub record RegisterLaws (hg : MercurySetup) : Type 0 where
  pub id_of : Text → ℕ
  pub handler_at : hg.Class → ℕ → Option RpcCall
  pub answers_at : hg.Class → ℕ → Bool
  pub new_class :
      (info : Text) (listen : Bool) (c : hg.Class)
      → hg.init info listen ≡ some c
      → (id : ℕ) → handler_at c id ≡ none
  pub registers :
      (c : hg.Class) (name : Text) (call : RpcCall)
      → ((hg.register c name call).0 ≡ id_of name)
        × (handler_at (hg.register c name call).1 (id_of name) ≡ some call)
        × (answers_at (hg.register c name call).1 (id_of name) ≡ true)
  pub registers_other :
      (c : hg.Class) (name : Text) (call : RpcCall) (id : ℕ)
      → id ≢ id_of name
      → (handler_at (hg.register c name call).1 id ≡ handler_at c id)
        × (answers_at (hg.register c name call).1 id ≡ answers_at c id)
  pub disables :
      (c : hg.Class) (id : ℕ) (call : RpcCall)
      → handler_at c id ≡ some call
      → ((hg.disable_response c id).0 ≡ 0)
        × (handler_at (hg.disable_response c id).1 id ≡ some call)
        × (answers_at (hg.disable_response c id).1 id ≡ false)
  pub disables_other :
      (c : hg.Class) (id other : ℕ)
      → other ≢ id
      → (handler_at (hg.disable_response c id).1 other ≡ handler_at c other)
        × (answers_at (hg.disable_response c id).1 other ≡ answers_at c other)
  pub distinct :
      (call other : RpcCall) → id_of (rpc_name call) ≡ id_of (rpc_name other) → call ≡ other

module _ (hg : MercurySetup) (laws : RegisterLaws hg) where
  open laws use {id_of, handler_at, answers_at}

  abbrev pub call_id : RpcCall → ℕ
  call_id call = id_of (rpc_name call)

  -- The call reaches its handler under its id, and is answered unless it is a close.
  abbrev pub Serves : hg.Class → RpcCall → Type 0
  Serves c call =
      (handler_at c (call_id call) ≡ some call) × (answers_at c (call_id call) ≡ is_answered call)

  -- Every call is served.
  abbrev pub ServesAll : hg.Class → Type 0
  ServesAll c = (call : RpcCall) → Serves c call
