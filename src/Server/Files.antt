-- ===== src/Server/Files.antt =====
-- hvac_comm.cpp: the handlers `hvac_open_rpc_handler`, `hvac_close_rpc_handler` and
-- `hvac_seek_rpc_handler`.
pub mod Laws
use hvac_checkpoint.Common.{
  ℕ, Bool, true, false, Option, some, none, List, [], ◌∷◌, ◌++◌, if◌then◌else◌, ◌==◌,
}
use hvac_checkpoint.Common.Int.{ℤ, int_eq, to_int32}
use hvac_checkpoint.Common.Maps.{Map, lookup, insert, erase, index, has_key}
use hvac_checkpoint.Common.Text.{Text, text_eq}
use hvac_checkpoint.Common.Run.{Run, ok, fault, Fault, assertion, undefined, ◌>>=◌, ◌>>◌, ensure}
use hvac_checkpoint.Posix.{Posix}
use hvac_checkpoint.Server.{Server, HgCalls, Event, responds, Handled}

-- `hvac_open_in_t`, `hvac_close_in_t` and `hvac_seek_in_t`
pub record OpenIn : Type 0 where
  pub path : Text
  pub client_rank : ℤ
  pub localfd : ℤ

pub record CloseIn : Type 0 where
  pub fd : ℤ
  pub client_rank : ℤ

pub record SeekIn : Type 0 where
  pub fd : ℤ
  pub offset : ℤ
  pub whence : ℤ

-- The file that a path stands for: its cached copy, if it has one.
unfoldable pub redirect : Text → Map Text Text → Text
redirect path cache = elim (lookup path cache) [ some copy ↦ copy | none ↦ path ]

abbrev pub o_rdonly : ℕ
o_rdonly = 0

module _ (os : Posix) where
  unfoldable pub open_rpc_handler : HgCalls → OpenIn → Server os.Fs → Run (Handled os.Fs)
  open_rpc_handler hg inp s =
      let (ret_status, fs) = os.open_file (redirect inp.path s.path_cache_map) o_rdonly s.fs in
      ensure (hg.get_input == 0) assertion
      >> ok (record {
        server = record s {
          fs = fs;
          fd_to_path = insert (to_int32 ret_status) inp.path s.fd_to_path;
        };
        events = responds (to_int32 ret_status) ∷ [];
        ret = 0;
      })

  -- The end of the close handler: a path without a cached copy is queued for the data mover.
  unfoldable pub queue_path : ℤ → Server os.Fs → Server os.Fs
  queue_path fd s =
      let (path, paths) = index fd [] s.fd_to_path in
      let queue =
        if has_key path s.path_cache_map then s.data_queue else s.data_queue ++ path ∷ [] in
      record s { data_queue = queue; fd_to_path = erase fd paths }

  unfoldable pub close_rpc_handler : HgCalls → CloseIn → Server os.Fs → Run (Handled os.Fs)
  close_rpc_handler hg inp s =
      let (_, fs) = os.close_file inp.fd s.fs in
      let finish : ℕ → Run (Handled os.Fs) = λ code.
        ok
          (record { server = queue_path inp.fd (record s { fs = fs }); events = []; ret = code }) in
      ensure (hg.get_input == 0) assertion
      >> elim hg.addr_to_string [ none ↦ fault undefined | some code ↦ finish code ]

  unfoldable pub seek_rpc_handler : HgCalls → SeekIn → Server os.Fs → Run (Handled os.Fs)
  seek_rpc_handler hg inp s =
      let (position, fs) = os.seek_file inp.fd inp.offset inp.whence s.fs in
      ensure (hg.get_input == 0) assertion
      >> ok (record {
        server = record s { fs = fs };
        events = responds (to_int32 position) ∷ [];
        ret = 0;
      })
