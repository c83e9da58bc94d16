-- ===== src/Cluster/Process.antt =====
-- wrappers.c to hvac_comm.cpp: a process that opens a file and reads it.
use hvac_checkpoint.Common.{ℕ, ◌<◌, ◌^◌, ◌%◌, ◌≡◌, ◌≢◌, refl, false, some, List, take, arith}
use hvac_checkpoint.Common.Int.{ℤ, pos, minus_one, int_eq, int_beq, int_beq_iff, to_int32}
use hvac_checkpoint.Common.Text.{Text, codes, c_str}
use hvac_checkpoint.Common.Run.{ok}
use hvac_checkpoint.Posix.{Posix, ReadLaws}
use hvac_checkpoint.Ports.{lookup_addr}
use hvac_checkpoint.Server.{HgCalls}
use hvac_checkpoint.Server.Read.Laws.{IsSetUp}
use hvac_checkpoint.Server.Files.{redirect}
use hvac_checkpoint.Server.Cache.{FileLaws, IsFaithful}
use hvac_checkpoint.Client.{Env}
use hvac_checkpoint.Client.Track.{wants_tracking}
use hvac_checkpoint.Cluster.{Cluster, cluster}
use hvac_checkpoint.Cluster.Content.{OpenLaws, remote_read-track_file}
use hvac_checkpoint.Wrappers.{Libc, Process, is_off, map_or_fail, passed_mode, open_file, read}
use hvac_checkpoint.Wrappers.Plain.{HasSymbols}
use hvac_checkpoint.Wrappers.Served.{read-remote_read}

-- The server at the address serves the file: its cache is faithful, it has the content of the file, and
-- the open and the read of it succeed there, with `k` bytes of `count`.
pub record CanServe (os : Posix) (files : FileLaws os) (hg : HgCalls) (w : Cluster os)
    (address file : Text) (bytes : List ℕ) (count k : ℕ) : Type 0 where
  pub set_up : IsSetUp hg
  pub faithful : IsFaithful os files (w address)
  pub has_content : files.content file (w address).fs ≡ some bytes
  pub descriptor : ℕ
  pub fs : os.Fs
  pub opened :
      os.open_file (redirect file (w address).path_cache_map) 0 (w address).fs
      ≡ (pos descriptor, fs)
  pub small_descriptor : descriptor < 2 ^ 31
  pub found : (os.read_file (pos descriptor) count fs).0 ≡ pos k
  pub small_count : count < 2 ^ 31
  pub small_found : k < 2 ^ 31
  pub transferred : hg.transfer k ≡ 0

module _ (lc : Libc) (os : Posix) (reads : ReadLaws os) (files : FileLaws os)
    (opens : OpenLaws os files) (hg : HgCalls) (env : Env) (symbols : HasSymbols lc) where
  -- Where every call of the C library is found: a process opens a file with the redirection on, the
  -- C library opens it, the file is one to be tracked, there is a server, and the one that the hash
  -- of the path gives has a known address and can serve the file. Then the open returns the
  -- descriptor of the C library, and the `read` that follows returns the first bytes of the content
  -- that the server has for the file, as many as the server's read finds, and leaves the C library
  -- as it was after the open.
  pub read-open_file :
      (path real address : Text) (fd mode : ℤ) (flags k count : ℕ) (bytes : List ℕ)
      (p : Process lc.Local (Cluster os)) (local : lc.Local)
      → is_off p ≡ false
      → lc.real_open path flags (passed_mode false flags mode) p.local ≡ (fd, local)
      → fd ≢ minus_one
      → wants_tracking env path flags ≡ some real
      → 0 < env.server_count
      → (lookup_addr
          (to_int32 (pos (env.hash real % env.server_count)))
          env.ports
          p.client.address_cache).0
        ≡ some address
      → CanServe os files hg p.client.world address (c_str real) bytes count k
      → (p₁ p₂ : Process lc.Local (Cluster os)) × (open_file lc
            (cluster os hg)
            env
            path
            flags
            mode
            p
          ≡ ok (fd, p₁))
        × (read lc (cluster os hg) env fd count p₁ ≡ ok (pos k, take k bytes, p₂))
        × (p₂.local ≡ local)
  unfolding open_file map_or_fail
  read-open_file path real address fd mode flags k count bytes p local on opened valid wanted
        servers known v =
      let (c₁, c₂, tracks, reads_back) =
        remote_read-track_file os reads files opens hg env p.client path real address fd flags
          v.descriptor k count bytes v.fs v.set_up servers wanted known v.faithful v.has_content
          v.opened v.small_descriptor v.small_count v.found v.small_found v.transferred in
      let good : int_beq fd minus_one ≡ false = ground (arith, int_beq_iff fd minus_one) in
      let small = v.small_found in
      (
        record p { local = local; client = c₁ },
        record p { local = local; client = c₂ },
        ground (arith, symbols (codes "open"), on, opened, good, tracks),
        read-remote_read lc (cluster os hg) env fd count k (take k bytes)
            (record p { local = local; client = c₁ }) c₂ symbols small reads_back,
        refl,
      )
