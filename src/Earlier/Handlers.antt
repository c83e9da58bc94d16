-- ===== src/Earlier/Handlers.antt =====
-- backup/hvac_comm.cpp: the handlers of the earlier server, and what the later ones changed. The state
-- of the server and the transfer are those of the later version.
use hvac_checkpoint.Common.{
  ℕ, ◌-◌, ◌^◌, ◌&&◌, not, ◌≢◌, ◌≡◌, refl, ◌⊎◌, inl, inr, Bool, true, false, List, [], ◌∷◌,
  if◌then◌else◌, ◌==◌, Bool-cases, arith,
}
use hvac_checkpoint.Common.Int.{pos, minus_one, int_eq, int_beq, is_negative, to_unsigned, to_int32}
use hvac_checkpoint.Common.Maps.{insert}
use hvac_checkpoint.Common.Text.{text_eq}
use hvac_checkpoint.Common.Run.{Run, ok, fault, assertion, undefined, ◌>>◌, ensure}
use hvac_checkpoint.Posix.{Posix, ReadLaws}
use hvac_checkpoint.Server.{
  Server, HgCalls, Handled, Event, responds, bulk_freed, handle_destroyed, buffer_freed,
  state_freed,
}
use hvac_checkpoint.Server.Read
use hvac_checkpoint.Server.Read.{log_path, start_transfer}
use hvac_checkpoint.Server.Read.Laws.{IsSetUp, served}
use hvac_checkpoint.Server.Files.{redirect, o_rdonly, queue_path}
use hvac_checkpoint.Earlier.{OpenIn, RpcIn, SeekIn, CloseIn}

-- `hvac_rpc_handler_bulk_cb`, by the codes of the transfer and of `HG_Respond`.
unfoldable pub rpc_handler_bulk_cb : ℕ → ℕ → ℕ → Run (List Event)
rpc_handler_bulk_cb info_ret respond_ret size =
    ensure (info_ret == 0) assertion
    >> (ensure (respond_ret == 0) assertion
        >> ok (
            responds (to_int32 (pos size))
            ∷ bulk_freed
            ∷ handle_destroyed
            ∷ buffer_freed
            ∷ state_freed
            ∷ []))

module _ (os : Posix) where
  -- The read and the transfer of what it found, failed or not.
  unfoldable pub serve_read : HgCalls → RpcIn → ℕ → Server os.Fs → Run (Handled os.Fs)
  serve_read hg inp size s =
      let (readbytes, bytes, fs) =
        if int_beq inp.offset minus_one
        then os.read_file inp.accessfd size s.fs
        else os.pread_file inp.accessfd size inp.offset s.fs in
      start_transfer os hg size readbytes bytes (log_path inp.accessfd (record s { fs = fs }))

  -- `hvac_rpc_handler`, which does not look at the code of `HG_Get_input`.
  unfoldable pub rpc_handler : HgCalls → RpcIn → Server os.Fs → Run (Handled os.Fs)
  rpc_handler hg inp s =
      let size = to_unsigned 64 inp.input_val in
      ensure (hg.get_input == 0) undefined
      >> (ensure hg.allocated assertion
          >> (ensure hg.info assertion
              >> (ensure (hg.bulk_create == 0) assertion >> serve_read hg inp size s)))

  -- `hvac_open_rpc_handler`
  unfoldable pub open_rpc_handler : HgCalls → OpenIn → Server os.Fs → Run (Handled os.Fs)
  open_rpc_handler hg inp s =
      let (ret_status, fs) = os.open_file (redirect inp.path s.path_cache_map) o_rdonly s.fs in
      ensure (hg.get_input == 0) assertion
      >> ok (record {
        server = record s {
          fs = fs;
          fd_to_path = insert (to_int32 ret_status) inp.path s.fd_to_path;
        };
        events = responds (to_int32 ret_status) ∷ [];
        ret = 0;
      })

  -- `hvac_close_rpc_handler`: a close that fails ends the server.
  unfoldable pub close_rpc_handler : HgCalls → CloseIn → Server os.Fs → Run (Handled os.Fs)
  close_rpc_handler hg inp s =
      let (ret, fs) = os.close_file inp.fd s.fs in
      ensure (hg.get_input == 0) assertion
      >> (ensure (int_beq ret (pos 0)) assertion
          >> ok (record {
            server = queue_path os inp.fd (record s { fs = fs });
            events = [];
            ret = 0;
          }))

  -- `hvac_seek_rpc_handler`
  unfoldable pub seek_rpc_handler : HgCalls → SeekIn → Server os.Fs → Run (Handled os.Fs)
  seek_rpc_handler hg inp s =
      let (position, fs) = os.seek_file inp.fd inp.offset inp.whence s.fs in
      ensure (hg.get_input == 0) assertion
      >> ok (record {
        server = record s { fs = fs };
        events = responds (to_int32 position) ∷ [];
        ret = 0;
      })

-- The message that the earlier client sends in place of a later one.
abbrev pub earlier_read : Read.RpcIn → RpcIn
earlier_read inp = record {
  input_val = inp.input_val;
  accessfd = inp.accessfd;
  offset = inp.offset;
}

-- A `pread` is asked for, and fails.
abbrev pub pread_fails : (os : Posix) → Read.RpcIn → Server os.Fs → Bool
pread_fails os inp s = not (int_beq inp.offset minus_one) && is_negative (served os inp s).0

-- Where the calls before the read succeed, the system keeps `ReadLaws`, and a transfer of 2^64 - 1
-- bytes is refused: the later read handler does what the earlier one did, but for a `pread` that
-- fails, which the later one answers with -1, and by which the earlier one ends the server.
pub rpc_handler-earlier :
    (os : Posix) (laws : ReadLaws os) (hg : HgCalls) (inp : Read.RpcIn) (s : Server os.Fs)
    → IsSetUp hg
    → hg.transfer (2 ^ 64 - 1) ≢ 0
    → ((pread_fails os inp s ≡ false)
        × (Read.rpc_handler os hg inp s ≡ rpc_handler os hg (earlier_read inp) s))
      ⊎ ((pread_fails os inp s ≡ true)
          × (h : Handled os.Fs) × (Read.rpc_handler os hg inp s ≡ ok h)
          × (h.events ≡ bulk_freed ∷ buffer_freed ∷ responds minus_one ∷ state_freed ∷ [])
          × (rpc_handler os hg (earlier_read inp) s ≡ fault assertion))
unfolding rpc_handler serve_read Read.rpc_handler Read.serve_read start_transfer
rpc_handler-earlier os laws hg inp s up refused = elim (Bool-cases (int_beq inp.offset minus_one)) [
  | inl plain ↦ inl (ground (arith, plain), ground (arith, plain, up))
  | inr at_offset ↦ elim (Bool-cases (is_negative (served os inp s).0)) [
    | inr fine ↦
        let good : pread_fails os inp s ≡ false = ground (arith, at_offset, fine) in
        inl (good, ground (arith, at_offset, good, up))
    | inl failed ↦
        let size = to_unsigned 64 inp.input_val in
        let bad : hg.transfer (2 ^ 64 - 1) == 0 ≡ false = ground (arith, refused) in
        elim (laws.pread_result inp.accessfd size inp.offset s.fs) [
          | inl (e, nothing) ↦ inr (
            ground (arith, at_offset, failed),
            record {
              server = log_path inp.accessfd (record s { fs = (served os inp s).2 });
              events = bulk_freed ∷ buffer_freed ∷ responds minus_one ∷ state_freed ∷ [];
              ret = 0;
            },
            ground (arith, at_offset, e, up),
            refl,
            ground (arith, at_offset, e, up, bad),
          )
          | inr (n, e, le, size_read) ↦ absurd (ground (arith, at_offset, e, failed))
        ]
  ]
]
