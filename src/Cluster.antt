-- ===== src/Cluster.antt =====
-- Clients and servers together: the calls of hvac_comm_client.cpp served by the handlers of
-- hvac_comm.cpp. Mercury carries a call to the server at its address and the answer back.
pub mod Reading
pub mod Content
pub mod Process
pub mod Routing
pub mod Stream
use hvac_checkpoint.Common.{ℕ, if◌then◌else◌, some, List, [], ◌∷◌}
use hvac_checkpoint.Common.Int.{ℤ}
use hvac_checkpoint.Common.Text.{Text, text_beq}
use hvac_checkpoint.Common.Run.{Run, ok, fault}
use hvac_checkpoint.Posix.{Posix}
use hvac_checkpoint.Server.{
  Server, Handled, HgCalls, Event, responds, pushes, bulk_freed, handle_destroyed, buffer_freed,
  state_freed,
}
use hvac_checkpoint.Server.Read.{rpc_handler, rpc_handler_bulk_cb}
use hvac_checkpoint.Server.Files.{open_rpc_handler, close_rpc_handler, seek_rpc_handler}
use hvac_checkpoint.Client.{Rpc, Reply, answered, silent}

-- The first answer of a handler or a callback, if it gives one.
unfoldable pub answer_of : List Event → Reply ℤ
answer_of [] = silent
answer_of (responds r ∷ es) = answered r
answer_of (pushes n bytes ∷ es) = answer_of es
answer_of (bulk_freed ∷ es) = answer_of es
answer_of (handle_destroyed ∷ es) = answer_of es
answer_of (buffer_freed ∷ es) = answer_of es
answer_of (state_freed ∷ es) = answer_of es

abbrev pub with_bytes : List ℕ → Reply ℤ → Reply (ℤ × List ℕ)
with_bytes bytes (answered r) = answered (r, bytes)
with_bytes bytes (Reply.late r) = Reply.late (r, bytes)
with_bytes bytes Reply.garbled = Reply.garbled
with_bytes bytes Reply.failed = Reply.failed
with_bytes bytes silent = silent

-- What a client sees of a read: bytes that are pushed arrive, and then the callback of the transfer
-- answers.
unfoldable pub read_answer : List Event → Reply (ℤ × List ℕ)
read_answer (pushes n bytes ∷ es) = with_bytes bytes (answer_of (rpc_handler_bulk_cb 0 0 n).0)
read_answer es = with_bytes [] (answer_of es)

-- The servers by address.
abbrev pub Cluster : Posix → Type 0
Cluster os = Text → Server os.Fs

abbrev pub replace : {S : Type 0} → Text → S → (Text → S) → Text → S
replace address s w a = if text_beq a address then s else w a

-- What a handler's run makes of the call and of the servers; one that does not return gives no answer.
module _ {Fs A : Type 0} (address : Text) (w : Text → Server Fs)
    (answer : List Event → Reply A) where
  abbrev pub carried : Run (Handled Fs) → Reply A × (Text → Server Fs)
  carried (ok h) = (answer h.events, replace address h.server w)
  carried (fault e) = (silent, w)

module _ (os : Posix) (hg : HgCalls) where
  abbrev pub cluster : Rpc
  cluster = record {
    World = Cluster os;
    open_rpc =
        λ address inp w. carried address w answer_of (open_rpc_handler os hg inp (w address));
    read_rpc = λ address inp w. carried address w read_answer (rpc_handler os hg inp (w address));
    close_rpc = λ address inp w.
        some (carried address w answer_of (close_rpc_handler os hg inp (w address))).1;
    seek_rpc =
        λ address inp w. carried address w answer_of (seek_rpc_handler os hg inp (w address));
  }
