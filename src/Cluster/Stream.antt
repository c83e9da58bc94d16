-- ===== src/Cluster/Stream.antt =====
-- hvac_client.cpp to hvac_comm.cpp: reads one after the other, which move the position of the server's
-- descriptor.
pub mod Reads
pub mod Whole
pub mod Apart
pub mod Seeks
use hvac_checkpoint.Common.{
  ℕ, ◌≤◌, ◌<◌, ◌^◌, ◌%◌, ◌≡◌, ◌≢◌, refl, sym, ap, ◌∙◌, some, none, List, [], arith, take, drop,
  length, inl, inr, Bool-cases, Option-cases,
}
use hvac_checkpoint.Common.Int.{
  ℤ, pos, minus_one, int_eq, int_beq_iff, to_int32, to_int32_fits, to_unsigned,
}
use hvac_checkpoint.Common.Maps.{Map, lookup, insert, lookup-insert}
use hvac_checkpoint.Common.Text.{Text, text_beq, text_beq_iff}
use hvac_checkpoint.Common.Run.{ok}
use mathlib.Core.Path.{subst}
use hvac_checkpoint.Posix.{Posix, ReadLaws}
use hvac_checkpoint.Ports.{lookup_addr, find_address}
use hvac_checkpoint.Server.{Server, HgCalls}
use hvac_checkpoint.Server.Read.{log_path}
use hvac_checkpoint.Server.Read.Laws.{IsSetUp, served}
use hvac_checkpoint.Server.Cache.{FileLaws}
use hvac_checkpoint.Client.{Client, Env, answered, Reply}
use hvac_checkpoint.Client.Remote.{remote_read}
use hvac_checkpoint.Client.Serving.{request, remote_read-answered}
use hvac_checkpoint.Cluster.{Cluster, cluster, replace}
use hvac_checkpoint.Cluster.Reading.{lookup_addr-again, server_address-found, reads_remotely}
use hvac_checkpoint.Cluster.Content.{lookup_addr-cached, replace-same}

-- What the system documents of the position of a descriptor, by the bytes that are left to read from
-- it: an open of a file with a content leaves all of it; a read hands over the first of them and leaves
-- the rest; it finds nothing only at the end; and a read of one descriptor leaves the others alone.
pub record StreamLaws (os : Posix) (files : FileLaws os) : Type 1 where
  pub Left : os.Fs → ℤ → List ℕ → Type 0
  pub open_left :
      (p : Text) (fs : os.Fs) (d : ℕ) (bytes : List ℕ)
      → files.content p fs ≡ some bytes
      → (os.open_file p 0 fs).0 ≡ pos d
      → Left (os.open_file p 0 fs).1 (pos d) bytes
  pub read_left :
      (fd : ℤ) (n k : ℕ) (fs : os.Fs) (left : List ℕ)
      → Left fs fd left
      → (os.read_file fd n fs).0 ≡ pos k
      → ((os.read_file fd n fs).1 ≡ take k left) × Left (os.read_file fd n fs).2 fd (drop k left)
  pub read_end :
      (fd : ℤ) (n : ℕ) (fs : os.Fs) (left : List ℕ)
      → Left fs fd left
      → 0 < n
      → (os.read_file fd n fs).0 ≡ pos 0
      → left ≡ []
  pub read_other :
      (fd other : ℤ) (n : ℕ) (fs : os.Fs) (left : List ℕ)
      → fd ≢ other
      → Left fs other left
      → Left (os.read_file fd n fs).2 other left

-- Nothing fails on the way: the calls of Mercury succeed, and so do the reads of open files.
pub record NothingFails (os : Posix) (files : FileLaws os) (streams : StreamLaws os files)
    (hg : HgCalls) : Type 0 where
  pub set_up : IsSetUp hg
  pub transferred : (n : ℕ) → hg.transfer n ≡ 0
  pub reads :
      (fd : ℤ) (n : ℕ) (fs : os.Fs) (left : List ℕ)
      → streams.Left fs fd left
      → (k : ℕ) × ((os.read_file fd n fs).0 ≡ pos k)

-- The descriptor is tracked, and the server's descriptor for it has `left` to read.
pub record Stands (os : Posix) (files : FileLaws os) (streams : StreamLaws os files) (env : Env)
    (fd : ℤ) (real address : Text) (d : ℕ) (left : List ℕ) (c : Client (Cluster os)) : Type 0 where
  pub tracked : lookup fd c.fd_map ≡ some real
  pub redirected : lookup fd c.fd_redir_map ≡ some (pos d)
  pub known :
      (lookup_addr (to_int32 (pos (env.hash real % env.server_count))) env.ports c.address_cache).0
      ≡ some address
  pub left_there : streams.Left (c.world address).fs (pos d) left
