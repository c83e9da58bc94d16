-- ===== src/Server/Cache/Transparent.antt =====
-- hvac_comm.cpp and hvac_data_mover.cpp together: handlers and the data mover run in any order; each
-- step holds the mutex of the maps that it changes.
use hvac_checkpoint.Common.{◌≡◌, List, ◌∷◌, arith}
use hvac_checkpoint.Common.Int.{to_unsigned}
use hvac_checkpoint.Common.Maps.{lookup}
use hvac_checkpoint.Common.Text.{Text, text_eq}
use hvac_checkpoint.Common.Run.{ok}
use hvac_checkpoint.Posix.{Posix}
use hvac_checkpoint.Server.{Server, HgCalls, Handled, start}
use hvac_checkpoint.Server.Read.{RpcIn, rpc_handler, serve_read, start_transfer}
use hvac_checkpoint.Server.Files.{
  OpenIn, CloseIn, SeekIn, redirect, open_rpc_handler, close_rpc_handler, seek_rpc_handler,
  queue_path,
}
use hvac_checkpoint.Server.Mover.{move_file, take_queue}
use hvac_checkpoint.Server.Cache.{
  redirect-content_of_IsFaithful, FileLaws, IsFaithful, KeepsFiles, KeepsFiles-IsFaithful,
  move_file-IsFaithful,
}

module _ (os : Posix) (laws : FileLaws os) where
  open laws use {content}

  open-KeepsFiles :
      (hg : HgCalls) (inp : OpenIn) (s : Server os.Fs) (h : Handled os.Fs)
      → open_rpc_handler os hg inp s ≡ ok h
      → KeepsFiles os laws s h.server
  unfolding open_rpc_handler
  open-KeepsFiles hg inp s h e = (
    ground arith,
    λ q. ground (arith, laws.open_content q (redirect inp.path s.path_cache_map) 0 s.fs),
  )

  close-KeepsFiles :
      (hg : HgCalls) (inp : CloseIn) (s : Server os.Fs) (h : Handled os.Fs)
      → close_rpc_handler os hg inp s ≡ ok h
      → KeepsFiles os laws s h.server
  unfolding close_rpc_handler queue_path
  close-KeepsFiles hg inp s h e =
      (ground arith, λ q. ground (arith, laws.close_content q inp.fd s.fs))

  seek-KeepsFiles :
      (hg : HgCalls) (inp : SeekIn) (s : Server os.Fs) (h : Handled os.Fs)
      → seek_rpc_handler os hg inp s ≡ ok h
      → KeepsFiles os laws s h.server
  unfolding seek_rpc_handler
  seek-KeepsFiles hg inp s h e =
      (ground arith, λ q. ground (arith, laws.seek_content q inp.fd inp.offset inp.whence s.fs))

  read-KeepsFiles :
      (hg : HgCalls) (inp : RpcIn) (s : Server os.Fs) (h : Handled os.Fs)
      → rpc_handler os hg inp s ≡ ok h
      → KeepsFiles os laws s h.server
  unfolding rpc_handler serve_read start_transfer
  read-KeepsFiles hg inp s h e =
      let size = to_unsigned 64 inp.input_val in
      (
        ground arith,
        λ q. ground (
          arith,
          laws.read_content q inp.accessfd size s.fs,
          laws.pread_content q inp.accessfd size inp.offset s.fs,
        ),
      )

  -- One step of the server: a handler that returns, or a step of the data mover.
  pub data Step (nvmepath : Text) (s t : Server os.Fs) : Type 0 where
    opens :
        (hg : HgCalls) (inp : OpenIn) (h : Handled os.Fs)
        → open_rpc_handler os hg inp s ≡ ok h
        → t ≡ h.server
        → Step nvmepath s t
    reads :
        (hg : HgCalls) (inp : RpcIn) (h : Handled os.Fs)
        → rpc_handler os hg inp s ≡ ok h
        → t ≡ h.server
        → Step nvmepath s t
    seeks :
        (hg : HgCalls) (inp : SeekIn) (h : Handled os.Fs)
        → seek_rpc_handler os hg inp s ≡ ok h
        → t ≡ h.server
        → Step nvmepath s t
    closes :
        (hg : HgCalls) (inp : CloseIn) (h : Handled os.Fs)
        → close_rpc_handler os hg inp s ≡ ok h
        → t ≡ h.server
        → Step nvmepath s t
    takes : take_queue os s ≡ ok t → Step nvmepath s t
    moves :
        (path : Text) (rest : List Text)
        → s.local_list ≡ path ∷ rest
        → t ≡ move_file os nvmepath path (record s { local_list = rest })
        → Step nvmepath s t

  -- The states that steps lead to, from a start with empty maps and queues.
  pub data Reach (nvmepath : Text) : Server os.Fs → Type 0 where
    starts : (fs : os.Fs) → Reach nvmepath (start fs)
    steps : {s t : Server os.Fs} → Reach nvmepath s → Step nvmepath s t → Reach nvmepath t

  take-KeepsFiles : (s t : Server os.Fs) → take_queue os s ≡ ok t → KeepsFiles os laws s t
  unfolding take_queue
  take-KeepsFiles s t e = (ground arith, λ q. ground arith)

  Step-IsFaithful :
      (nvmepath : Text) (s t : Server os.Fs)
      → Step nvmepath s t
      → IsFaithful os laws s
      → IsFaithful os laws t
  Step-IsFaithful nvmepath s t (opens hg inp h e same) f =
      rw same (KeepsFiles-IsFaithful os laws s h.server (open-KeepsFiles hg inp s h e) f)
  Step-IsFaithful nvmepath s t (reads hg inp h e same) f =
      rw same (KeepsFiles-IsFaithful os laws s h.server (read-KeepsFiles hg inp s h e) f)
  Step-IsFaithful nvmepath s t (seeks hg inp h e same) f =
      rw same (KeepsFiles-IsFaithful os laws s h.server (seek-KeepsFiles hg inp s h e) f)
  Step-IsFaithful nvmepath s t (closes hg inp h e same) f =
      rw same (KeepsFiles-IsFaithful os laws s h.server (close-KeepsFiles hg inp s h e) f)
  Step-IsFaithful nvmepath s t (takes e) f =
      KeepsFiles-IsFaithful os laws s t (take-KeepsFiles s t e) f
  Step-IsFaithful nvmepath s t (moves path rest e same) f =
      rw same (move_file-IsFaithful os laws nvmepath path (record s { local_list = rest }) f)

  Reach-IsFaithful : (nvmepath : Text) {s : Server os.Fs} → Reach nvmepath s → IsFaithful os laws s
  unfolding lookup
  Reach-IsFaithful nvmepath (starts fs) p copy e = absurd (cc e)
  Reach-IsFaithful nvmepath (steps {s} {t} r st) p copy e =
      Step-IsFaithful nvmepath s t st (Reach-IsFaithful nvmepath r) p copy e

  -- For an operating system that keeps `FileLaws`: in every state that handlers and steps of the
  -- data mover lead to from empty maps and queues, the file that the open handler opens has the
  -- content of the file that the client asked for, whether or not it is the cached copy.
  pub redirect-content :
      (nvmepath path : Text) (s : Server os.Fs)
      → Reach nvmepath s
      → content (redirect path s.path_cache_map) s.fs ≡ content path s.fs
  redirect-content nvmepath path s r =
      redirect-content_of_IsFaithful os laws path s (Reach-IsFaithful nvmepath r)
