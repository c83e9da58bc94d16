-- ===== src/Server/Files/Laws.antt =====
-- hvac_comm.cpp: what the open and close handlers do to the server's maps and to the queue of the
-- data mover.
use hvac_checkpoint.Common.{ℕ, ◌≡◌, refl, some, none, List, [], ◌∷◌, ◌++◌, if◌then◌else◌, arith}
use hvac_checkpoint.Common.Int.{ℤ, int_eq, int_beq, to_int32}
use hvac_checkpoint.Common.Maps.{
  Map, lookup, insert, index, has_key, lookup-insert, lookup-insert_self, lookup-erase,
  lookup-index,
}
use hvac_checkpoint.Common.Text.{Text, text_eq}
use hvac_checkpoint.Common.Run.{ok}
use hvac_checkpoint.Posix.{Posix}
use hvac_checkpoint.Server.{Server, HgCalls, responds, Handled}
use hvac_checkpoint.Server.Files.{
  OpenIn, CloseIn, redirect, open_rpc_handler, close_rpc_handler, queue_path,
}

-- The queue after a path is handed to the data mover, unless it has a cached copy.
abbrev pub queued : Text → Map Text Text → List Text → List Text
queued path cache queue = if has_key path cache then queue else queue ++ path ∷ []

module _ (os : Posix) where
  queue_path_cases :
      (fd : ℤ) (s : Server os.Fs) (path : Text)
      → lookup fd s.fd_to_path ≡ some path
      → (queue_path os fd s).data_queue ≡ queued path s.path_cache_map s.data_queue
  unfolding queue_path index
  queue_path_cases fd s path e = rw (e, index)

  -- Every other descriptor keeps its path, and the closed one has none.
  queue_path-lookup :
      (fd j : ℤ) (s : Server os.Fs)
      → lookup j (queue_path os fd s).fd_to_path
        ≡ (if int_beq fd j then none else lookup j s.fd_to_path)
  unfolding queue_path
  queue_path-lookup fd j s =
      ground
        (arith, lookup-erase fd j (index fd [] s.fd_to_path).1, lookup-index fd j [] s.fd_to_path)

  -- A close whose input decodes and whose address call returns hands the path of the descriptor to
  -- the data mover, once and at the end of the queue, unless the path is cached; it forgets the
  -- descriptor and no other, and leaves the cache alone.
  pub close_rpc_handler_lem :
      (hg : HgCalls) (inp : CloseIn) (s : Server os.Fs) (path : Text) (code : ℕ)
      → hg.get_input ≡ 0
      → hg.addr_to_string ≡ some code
      → lookup inp.fd s.fd_to_path ≡ some path
      → (h : Handled os.Fs) × (close_rpc_handler os hg inp s ≡ ok h)
        × (h.server.data_queue ≡ queued path s.path_cache_map s.data_queue)
        × (h.server.path_cache_map ≡ s.path_cache_map)
        × ((j : ℤ)
            → lookup j h.server.fd_to_path
              ≡ (if int_beq inp.fd j then none else lookup j s.fd_to_path))
  unfolding close_rpc_handler
  close_rpc_handler_lem hg inp s path code got called known =
      let s' : Server os.Fs = record s { fs = (os.close_file inp.fd s.fs).1 } in
      (
        record { server = queue_path os inp.fd s'; events = []; ret = code },
        rw (got, called),
        queue_path_cases inp.fd s' path known,
        unfold queue_path in refl,
        λ j. queue_path-lookup inp.fd j s',
      )

  -- A file that is opened and then closed under the descriptor that was answered is queued for the
  -- data mover under the name that the client gave, unless it is cached; and the descriptor is
  -- forgotten. An open that failed is no exception: its descriptor is -1.
  pub close-open :
      (hg : HgCalls) (inp : OpenIn) (client_rank : ℤ) (s : Server os.Fs) (code : ℕ)
      → hg.get_input ≡ 0
      → hg.addr_to_string ≡ some code
      → let fd = to_int32 (os.open_file (redirect inp.path s.path_cache_map) 0 s.fs).0 in
        (opened closed : Handled os.Fs) × (open_rpc_handler os hg inp s ≡ ok opened)
        × (opened.events ≡ responds fd ∷ [])
        × (close_rpc_handler os hg (record { fd = fd; client_rank = client_rank }) opened.server
            ≡ ok closed)
        × (closed.server.data_queue ≡ queued inp.path s.path_cache_map s.data_queue)
        × ((j : ℤ)
            → lookup j closed.server.fd_to_path
              ≡ (if int_beq fd j then none else lookup j s.fd_to_path))
  unfolding open_rpc_handler
  close-open hg inp client_rank s code got called =
      let (status, fs) = os.open_file (redirect inp.path s.path_cache_map) 0 s.fs in
      let fd = to_int32 status in
      let s' : Server os.Fs = record s { fs = fs; fd_to_path = insert fd inp.path s.fd_to_path } in
      let (closed, run, queue, _, paths) =
        close_rpc_handler_lem hg (record { fd = fd; client_rank = client_rank }) s' inp.path code
          got called (lookup-insert_self fd inp.path s.fd_to_path) in
      (
        record { server = s'; events = responds fd ∷ []; ret = 0 },
        closed,
        rw got,
        refl,
        run,
        queue,
        λ j. ground (arith, paths j, lookup-insert fd j inp.path s.fd_to_path),
      )

  -- A close whose input decodes and whose address call returns, of a descriptor that the server
  -- does not know, queues the empty path, unless the empty path has a cached copy.
  pub close_rpc_handler_unknown :
      (hg : HgCalls) (inp : CloseIn) (s : Server os.Fs) (code : ℕ)
      → hg.get_input ≡ 0
      → hg.addr_to_string ≡ some code
      → lookup inp.fd s.fd_to_path ≡ none
      → lookup [] s.path_cache_map ≡ none
      → (h : Handled os.Fs) × (close_rpc_handler os hg inp s ≡ ok h)
        × (h.server.data_queue ≡ s.data_queue ++ [] ∷ [])
  unfolding close_rpc_handler queue_path index
  close_rpc_handler_unknown hg inp s code got called unknown uncached = (
    record {
      server = queue_path os inp.fd (record s { fs = (os.close_file inp.fd s.fs).1 });
      events = [];
      ret = code;
    },
    rw (got, called),
    rw (unknown, index, uncached),
  )
