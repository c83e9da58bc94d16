-- ===== src/Cluster/Stream/Seeks.antt =====
-- hvac_client.cpp to hvac_comm.cpp: `lseek` between reads. Reads go to the server that the hash of the path
-- gives, seeks to the one that the ring gives.
use hvac_checkpoint.Common.{
  ℕ, ◌≡◌, ◌≢◌, ap, some, List, [], ◌∷◌, arith, Bool-cases, inl, inr, false,
}
use hvac_checkpoint.Common.Int.{ℤ, pos, int_eq, to_int32}
use hvac_checkpoint.Common.Text.{Text, text_beq, text_beq_iff}
use hvac_checkpoint.Common.Run.{ok}
use hvac_checkpoint.Posix.{Posix}
use hvac_checkpoint.Ports.{lookup_addr}
use hvac_checkpoint.Server.{Server, HgCalls, responds}
use hvac_checkpoint.Server.Files.{SeekIn, seek_rpc_handler}
use hvac_checkpoint.Server.Cache.{FileLaws}
use hvac_checkpoint.Client.{Client, Env, answered}
use hvac_checkpoint.Client.Calls.{finish_seek, seek_cb, seek_block, remote_position}
use hvac_checkpoint.Client.Remote.{ring_host, remote_lseek}
use hvac_checkpoint.Client.Serving.{index-some}
use hvac_checkpoint.Cluster.{Cluster, cluster, carried, replace, answer_of}
use hvac_checkpoint.Cluster.Reading.{server_address-found}
use hvac_checkpoint.Cluster.Stream.{StreamLaws, Stands}
use hvac_checkpoint.Cluster.Stream.Reads.{lookup_addr-other}

abbrev seek_request : ℕ → ℤ → ℤ → SeekIn
seek_request d offset whence = record { fd = pos d; offset = offset; whence = whence }

module _ (os : Posix) (hg : HgCalls) where
  seek_rpc_handler-ok :
      (inp : SeekIn) (s : Server os.Fs)
      → hg.get_input ≡ 0
      → seek_rpc_handler os hg inp s
        ≡ ok (record {
          server = record s { fs = (os.seek_file inp.fd inp.offset inp.whence s.fs).1 };
          events = responds (to_int32 (os.seek_file inp.fd inp.offset inp.whence s.fs).0) ∷ [];
          ret = 0;
        })
  unfolding seek_rpc_handler
  seek_rpc_handler-ok inp s got = ground (arith, got)

  seeks_remotely :
      (inp : SeekIn) (address : Text) (w : Cluster os)
      → hg.get_input ≡ 0
      → (cluster os hg).seek_rpc address inp w ≡ (
        answered (to_int32 (os.seek_file inp.fd inp.offset inp.whence (w address).fs).0),
        replace address
            (record (w address) {
              fs = (os.seek_file inp.fd inp.offset inp.whence (w address).fs).1;
            })
            w,
      )
  unfolding answer_of
  seeks_remotely inp address w got =
      ap (carried address w answer_of) (seek_rpc_handler-ok inp (w address) got)

  module _ (files : FileLaws os) (streams : StreamLaws os files) (env : Env) where
    -- Where the system keeps `FileLaws` and `StreamLaws` and the handler of the seek gets its
    -- input: a tracked descriptor has `left` to read at the server of its reads, and the ring gives
    -- another server for the path, whose address is known. Then an `lseek` returns what that other
    -- server's seek makes of the same descriptor number, and the descriptor still has `left` to
    -- read, so the next read goes on where the last one ended.
    pub remote_lseek-Stands :
        (fd : ℤ) (real address other hostname : Text) (d n : ℕ) (offset whence : ℤ) (left : List ℕ)
        (c : Client (Cluster os))
        → hg.get_input ≡ 0
        → Stands os files streams env fd real address d left c
        → ring_host env real c ≡ ok (hostname, pos n)
        → (lookup_addr (pos n) env.ports c.address_cache).0 ≡ some other
        → address ≢ other
        → (c' : Client (Cluster os)) × (remote_lseek (cluster os hg) env fd offset whence c
            ≡ ok
                (to_int32 (os.seek_file (pos d) (to_int32 offset) whence (c.world other).fs).0, c'))
          × Stands os files streams env fd real address d left c'
    unfolding remote_lseek remote_position finish_seek seek_cb seek_block
    remote_lseek-Stands fd real address other hostname d n offset whence left c got st routed known
          apart =
        let inp = seek_request d (to_int32 offset) whence in
        let s = c.world other in
        let c' : Client (Cluster os) = record c {
          address_cache = (lookup_addr (pos n) env.ports c.address_cache).1;
          world =
              replace other
                (record s { fs = (os.seek_file (pos d) (to_int32 offset) whence s.fs).1 }) c.world;
        } in
        let differs : text_beq address other ≡ false = elim (Bool-cases (text_beq address other)) [
          | inl same ↦ absurd (apart ((text_beq_iff address other).0 same))
          | inr differ ↦ differ
        ] in
        (
          c',
          ground (
            arith,
            st.tracked,
            routed,
            server_address-found env (pos n) other c known,
            index-some (cluster os hg) env fd (pos d) c.fd_redir_map st.redirected,
            seeks_remotely inp other c.world got,
          ),
          record {
            tracked = st.tracked;
            redirected = st.redirected;
            known = lookup_addr-other (pos n) _ env.ports address c.address_cache st.known;
            left_there = rw differs st.left_there;
          },
        )
