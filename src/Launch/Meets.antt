-- ===== src/Launch/Meets.antt =====
-- hvac_server.cpp and hvac_comm_client.cpp: what a start of a server leaves, and how a client finds it.
use hvac_checkpoint.Common.{
  ◌≡◌, refl, ap, ◌∙◌, ◌≢◌, true, Option, none, some, List, [], ◌∷◌, All, arith, ℕ,
}
use hvac_checkpoint.Common.Int.{ℤ, to_unsigned, int_eq}
use hvac_checkpoint.Common.Maps.{Map, lookup, insert, lookup-insert_self}
use hvac_checkpoint.Common.Text.{Text, codes, c_str, text_eq}
use hvac_checkpoint.Common.Run.{ok}
use hvac_checkpoint.Address.{extract_ip_portion-bounds}
use hvac_checkpoint.Ports.{list_addr, find_address}
use hvac_checkpoint.Ports.RoundTrip.{IsWord, IsWritten, print_file, first_entry}
use hvac_checkpoint.Ports.Appended.{find_address-list_addr}
use hvac_checkpoint.Startup.{atoi, server_rank}
use hvac_checkpoint.Startup.Laws.{atoi-FitsInt32}
use hvac_checkpoint.Launch.{
  read_call, open_call, close_call, seek_call, MercurySetup, Site, Launch, RpcIds, unlaunched,
  config_name, content_of, init_rank, init_comm, append_addr, comm_list_addr, announce,
  register_rpcs, start_comm_server, main, client_comm_register_rpc,
}
use hvac_checkpoint.Launch.Laws.{RegisterLaws, ServesAll}
use hvac_checkpoint.Launch.Registers.{register_rpcs-ServesAll, client_comm_register_rpc_lem}

-- What a start of a server relies on: its rank and the job are in the environment, Mercury gives a
-- class and the own address, and the job's file of addresses can be written.
pub record CanStart (hg : MercurySetup) (site : Site) (rank jobid address : Text) : Type 0 where
  pub class : hg.Class
  pub has_rank : site.pmi_rank ≡ some rank
  pub has_job : site.slurm_jobid ≡ some jobid
  pub initialised : hg.init (codes "ofi+verbs://") true ≡ some class
  pub printed : hg.self_address class ≡ some address
  pub clean : All (λ c. c ≢ 0) address
  pub writable : site.can_append (config_name jobid) ≡ true

module _ (hg : MercurySetup) (site : Site) (rank jobid address : Text)
    (can : CanStart hg site rank jobid address) where
  -- The address has been posted, and the class is as `HG_Init` gave it.
  pub announce_lem :
      (s : Launch hg.Class)
      → (t : Launch hg.Class) × (announce hg site s ≡ ok t)
        × (t.hg_class ≡ some can.class)
        × (t.mover_running ≡ site.mover_created)
        × (t.progress_running ≡ site.progress_created)
        × (t.server_count ≡ s.server_count)
        × (lookup (config_name jobid) t.files
            ≡ some (list_addr (atoi rank) address (content_of (config_name jobid) s.files)))
  unfolding announce init_comm init_rank server_rank comm_list_addr append_addr
  announce_lem s =
      let (written, cut, _, _, _) = extract_ip_portion-bounds address 128 can.clean (omega arith) in
      let line = list_addr (atoi rank) address (content_of (config_name jobid) s.files) in
      (
        record s {
          hg_class = some can.class;
          hg_context = hg.context_create can.class;
          server_rank = atoi rank;
          hvac_server_rank = atoi rank;
          progress_running = site.progress_created;
          mover_running = site.mover_created;
          server_addr_str = c_str written;
          files = insert (config_name jobid) line s.files;
        },
        ground (arith, can.has_rank, can.has_job, can.initialised, can.printed, can.writable, cut),
        refl,
        refl,
        refl,
        refl,
        lookup-insert_self (config_name jobid) line s.files,
      )

  pub start_registers :
      (s t : Launch hg.Class) (c c' : hg.Class)
      → announce hg site s ≡ ok t
      → t.hg_class ≡ some c
      → register_rpcs hg c ≡ ok c'
      → start_comm_server hg site s ≡ ok (record t { hg_class = some c' })
  unfolding start_comm_server
  start_registers s t c c' run class registered = ground (arith, run, class, registered)

  -- Where Mercury keeps `RegisterLaws`: a server with its count as an argument, started where its
  -- rank and the job are in the environment, Mercury gives a class and the own address, without a
  -- zero byte, and the job's file of addresses can be written, gets to the loop in which it sleeps.
  -- Then the two threads run as they could be created, the line of the server is the last of the
  -- job's file, and every call has its handler, with answers but for the close.
  pub main-ServesAll :
      (laws : RegisterLaws hg) (count : Text) (args : List Text) (files : Map Text Text)
      → (s : Launch hg.Class) × (c : hg.Class) × (main hg (count ∷ args) site (unlaunched files)
          ≡ ok s)
        × (s.hg_class ≡ some c)
        × ServesAll hg laws c
        × (s.server_count ≡ to_unsigned 32 (atoi count))
        × (s.mover_running ≡ site.mover_created)
        × (s.progress_running ≡ site.progress_created)
        × (lookup (config_name jobid) s.files
            ≡ some (list_addr (atoi rank) address (content_of (config_name jobid) files)))
  unfolding main start_comm_server
  main-ServesAll laws count args files =
      let s₀ : Launch hg.Class = record (unlaunched files) {
        server_count = to_unsigned 32 (atoi count);
      } in
      let (t, run, class, mover, progress, servers, posted) = announce_lem s₀ in
      let (c, registered, all) = register_rpcs-ServesAll hg laws can.class in
      (
        record t { hg_class = some c },
        c,
        start_registers s₀ t can.class c run class registered,
        refl,
        all,
        servers,
        mover,
        progress,
        posted,
      )

  -- The client's search of the file to which the server has posted its address.
  posted_found :
      (es : List (ℤ × Text)) (before after : Map Text Text)
      → content_of (config_name jobid) before ≡ print_file es
      → IsWritten es
      → first_entry (atoi rank) es ≡ none
      → IsWord address
      → lookup (config_name jobid) after
        ≡ some (list_addr (atoi rank) address (content_of (config_name jobid) before))
      → find_address (atoi rank) (content_of (config_name jobid) after) ≡ some address
  posted_found es before after written words alone word posted =
      ap (λ (o : Option Text). find_address (atoi rank) (elim o [ none ↦ [] | some text ↦ text ]))
        posted
      ∙ ap (λ (t : Text). find_address (atoi rank) (list_addr (atoi rank) address t)) written
      ∙ find_address-list_addr (atoi rank) address es (atoi-FitsInt32 rank) word words alone

  -- Where Mercury keeps `RegisterLaws`: a server is started with its count as an argument, its rank
  -- and the job are in the environment, Mercury gives it a class and its own address, the job's
  -- file of addresses can be written, and held lines of other ranks alone, each with a rank of the
  -- range of `int` and an address without white space; the server's own address has neither white
  -- space nor a zero byte, and is not empty. Then the server gets to the loop in which it sleeps,
  -- and for a client with a class of its own, whose registrations return, the server's address is
  -- found in the file under the server's rank, and each of the client's four calls, under the id
  -- that the client has for it, has its handler at the server.
  pub main-meets_client :
      (laws : RegisterLaws hg) (count : Text) (args : List Text) (es : List (ℤ × Text))
      (files : Map Text Text) (client : hg.Class)
      → content_of (config_name jobid) files ≡ print_file es
      → IsWritten es
      → first_entry (atoi rank) es ≡ none
      → IsWord address
      → (s : Launch hg.Class) × (c d : hg.Class) × (ids : RpcIds) × (main hg
            (count ∷ args)
            site
            (unlaunched files)
          ≡ ok s)
        × (s.hg_class ≡ some c)
        × (client_comm_register_rpc hg client ≡ ok (ids, d))
        × (laws.handler_at c ids.rpc_id ≡ some read_call)
        × (laws.handler_at c ids.open_id ≡ some open_call)
        × (laws.handler_at c ids.close_id ≡ some close_call)
        × (laws.handler_at c ids.seek_id ≡ some seek_call)
        × (find_address (atoi rank) (content_of (config_name jobid) s.files) ≡ some address)
  main-meets_client laws count args es files client written words alone word =
      let (s, c, run, class, all, _, _, _, posted) = main-ServesAll laws count args files in
      let (ids, d, registered, read_id, open_id, close_id, seek_id) =
        client_comm_register_rpc_lem hg laws client in
      (
        s,
        c,
        d,
        ids,
        run,
        class,
        registered,
        rw read_id (all read_call).0,
        rw open_id (all open_call).0,
        rw close_id (all close_call).0,
        rw seek_id (all seek_call).0,
        posted_found es files s.files written words alone word posted,
      )

  -- Where Mercury keeps `RegisterLaws`: a server starts, from any state, with its rank and the job
  -- in the environment, Mercury gives it a class and its own address, the job's file of addresses
  -- can be written, and held lines of other ranks alone, each with a rank of the range of `int` and
  -- an address without white space; the server's own address has neither white space nor a zero
  -- byte, and is not empty. Then the address is posted before any call is registered: at that point
  -- a client finds it in the file under the server's rank, and Mercury has no handler at the server
  -- for any call.
  pub announce-unserved :
      (laws : RegisterLaws hg) (es : List (ℤ × Text)) (s : Launch hg.Class)
      → content_of (config_name jobid) s.files ≡ print_file es
      → IsWritten es
      → first_entry (atoi rank) es ≡ none
      → IsWord address
      → (t : Launch hg.Class) × (c : hg.Class) × (announce hg site s ≡ ok t)
        × (t.hg_class ≡ some c)
        × (find_address (atoi rank) (content_of (config_name jobid) t.files) ≡ some address)
        × ((id : ℕ) → laws.handler_at c id ≡ none)
  announce-unserved laws es s written words alone word =
      let (t, run, class, _, _, _, posted) = announce_lem s in
      (
        t,
        can.class,
        run,
        class,
        posted_found es s.files t.files written words alone word posted,
        laws.new_class (codes "ofi+verbs://") true can.class can.initialised,
      )
