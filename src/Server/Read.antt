-- ===== src/Server/Read.antt =====
-- hvac_comm.cpp: `hvac_rpc_handler`, which serves `read` and `pread`, and the callback
-- `hvac_rpc_handler_bulk_cb` that answers the client when the bytes have been pushed.
pub mod Laws
use hvac_checkpoint.Common.{
  ℕ, ◌+◌, ◌-◌, ◌≡◌, refl, Bool, true, false, List, [], ◌∷◌, ◌++◌, if◌then◌else◌, ◌==◌, length, take,
  replicate,
}
use hvac_checkpoint.Common.Int.{
  ℤ, pos, minus_one, int_beq, int_eq, is_negative, to_unsigned, to_int32,
}
use hvac_checkpoint.Common.Maps.{Map, index}
use hvac_checkpoint.Common.Text.{Text}
use hvac_checkpoint.Common.Run.{Run, ok, fault, Fault, assertion, ◌>>=◌, ◌>>◌, ensure}
use hvac_checkpoint.Posix.{Posix}
use hvac_checkpoint.Server.{
  Server, HgCalls, Event, responds, pushes, bulk_freed, handle_destroyed, buffer_freed, state_freed,
  Handled,
}

-- `hvac_rpc_in_t`
pub record RpcIn : Type 0 where
  pub input_val : ℤ
  pub accessfd : ℤ
  pub localfd : ℤ
  pub offset : ℤ
  pub client_rank : ℤ

-- The zeroed buffer of `size` bytes after a read of `bytes` into it.
unfoldable pub filled : ℕ → List ℕ → List ℕ
filled size bytes = take size bytes ++ replicate (size - length bytes) 0

-- The log lines read `fd_to_path[fd]`, which inserts an empty path under an unknown descriptor.
abbrev pub log_path : {Fs : Type 0} → ℤ → Server Fs → Server Fs
log_path fd s = record s { fd_to_path = (index fd [] s.fd_to_path).1 }

module _ (os : Posix) where
  -- The part after the read: the transfer of what was read is started, with
  -- `hvac_rpc_handler_bulk_cb` as its callback.
  unfoldable pub start_transfer : HgCalls → ℕ → ℤ → List ℕ → Server os.Fs → Run (Handled os.Fs)
  start_transfer hg size readbytes bytes s =
      let sent = to_unsigned 64 readbytes in
      ensure (hg.transfer sent == 0) assertion
      >> ok (record {
        server = s;
        events = pushes sent (take sent (filled size bytes)) ∷ [];
        ret = 0;
      })

  -- The read itself: `read` for the offset -1, `pread` for any other.
  unfoldable pub serve_read : HgCalls → RpcIn → ℕ → Server os.Fs → Run (Handled os.Fs)
  serve_read hg inp size s =
      if int_beq inp.offset minus_one
      then (let (readbytes, bytes, fs) = os.read_file inp.accessfd size s.fs in
          start_transfer hg size readbytes bytes (log_path inp.accessfd (record s { fs = fs })))
      else (let (readbytes, bytes, fs) = os.pread_file inp.accessfd size inp.offset s.fs in
          let s' = log_path inp.accessfd (record s { fs = fs }) in
          if is_negative readbytes
          then ok (record {
            server = s';
            events = bulk_freed ∷ buffer_freed ∷ responds minus_one ∷ state_freed ∷ [];
            ret = 0;
          })
          else start_transfer hg size readbytes bytes s')

  unfoldable pub rpc_handler : HgCalls → RpcIn → Server os.Fs → Run (Handled os.Fs)
  rpc_handler hg inp s =
      let size = to_unsigned 64 inp.input_val in
      let serve = ensure (hg.bulk_create == 0) assertion >> serve_read hg inp size s in
      if hg.get_input == 0
      then ensure hg.allocated assertion
        >> (if hg.info then serve else ok (record { server = s; events = []; ret = hg.get_input }))
      else ok (record { server = s; events = state_freed ∷ []; ret = hg.get_input })

-- `hvac_rpc_handler_bulk_cb`, by the codes of the transfer and of `HG_Respond`, and the size that
-- was sent. On every path the four resources of the call are given back.
unfoldable pub rpc_handler_bulk_cb : ℕ → ℕ → ℕ → List Event × ℕ
rpc_handler_bulk_cb info_ret respond_ret size =
    let cleanup = bulk_freed ∷ handle_destroyed ∷ buffer_freed ∷ state_freed ∷ [] in
    if info_ret == 0
    then (if respond_ret == 0
        then (responds (to_int32 (pos size)) ∷ cleanup, 0)
        else (cleanup, respond_ret))
    else (cleanup, info_ret)
