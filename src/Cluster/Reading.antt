-- ===== src/Cluster/Reading.antt =====
-- hvac_client.cpp to hvac_comm.cpp: a file that is opened and read through the server.
use hvac_checkpoint.Common.{
  ℕ, ◌<◌, ◌^◌, ◌≡◌, refl, ap, ◌∙◌, some, [], ◌∷◌, arith, inl, inr, Option-cases,
}
use hvac_checkpoint.Common.Int.{ℤ, pos, int_eq, to_int32, to_int32_fits}
use hvac_checkpoint.Common.Maps.{Map, lookup, insert, lookup-insert_self}
use hvac_checkpoint.Common.Text.{Text}
use hvac_checkpoint.Common.Run.{ok}
use hvac_checkpoint.Posix.{Posix, ReadLaws}
use hvac_checkpoint.Ports.{lookup_addr}
use hvac_checkpoint.Server.{Server, HgCalls, responds}
use hvac_checkpoint.Server.Read.{RpcIn, log_path, rpc_handler_bulk_cb}
use hvac_checkpoint.Server.Read.Laws.{IsSetUp, served, rpc_handler_pushes}
use hvac_checkpoint.Server.Files.{OpenIn, redirect, open_rpc_handler}
use hvac_checkpoint.Client.{Client, Env, answered}
use hvac_checkpoint.Client.Calls.{server_address}
use hvac_checkpoint.Cluster.{Cluster, carried, cluster, replace, answer_of, read_answer}

-- The address that was found once is found again.
pub lookup_addr-again :
    (rank : ℤ) (file address : Text) (cache : Map ℤ Text)
    → (lookup_addr rank file cache).0 ≡ some address
    → lookup rank (lookup_addr rank file cache).1 ≡ some address
unfolding lookup_addr
lookup_addr-again rank file address cache e = elim (Option-cases (lookup rank cache)) [
  | inr (a, cached) ↦ ground (arith, cached)
  | inl absent ↦ ground (arith, absent, lookup-insert_self rank address cache)
]

pub server_address-found :
    {World : Type 0} (env : Env) (host : ℤ) (address : Text) (c : Client World)
    → (lookup_addr host env.ports c.address_cache).0 ≡ some address
    → server_address env host c
      ≡ ok (address, record c { address_cache = (lookup_addr host env.ports c.address_cache).1 })
unfolding server_address
server_address-found env host address c e = ground (arith, e)

module _ (os : Posix) (hg : HgCalls) where
  open_rpc_handler-ok :
      (inp : OpenIn) (s : Server os.Fs) (d : ℕ) (fs : os.Fs)
      → hg.get_input ≡ 0
      → os.open_file (redirect inp.path s.path_cache_map) 0 s.fs ≡ (pos d, fs)
      → d < 2 ^ 31
      → open_rpc_handler os hg inp s
        ≡ ok (record {
          server = record s { fs = fs; fd_to_path = insert (pos d) inp.path s.fd_to_path };
          events = responds (pos d) ∷ [];
          ret = 0;
        })
  unfolding open_rpc_handler
  open_rpc_handler-ok inp s d fs got opened small =
      let kept : to_int32 (pos d) ≡ pos d = to_int32_fits (pos d) (omega arith, omega arith) in
      ground (arith, got, opened, kept)

  pub opens_remotely :
      (inp : OpenIn) (address : Text) (w : Cluster os) (d : ℕ) (fs : os.Fs)
      → hg.get_input ≡ 0
      → os.open_file (redirect inp.path (w address).path_cache_map) 0 (w address).fs ≡ (pos d, fs)
      → d < 2 ^ 31
      → (cluster os hg).open_rpc address inp w ≡ (
        answered (pos d),
        replace address
            (record (w address) {
              fs = fs;
              fd_to_path = insert (pos d) inp.path (w address).fd_to_path;
            })
            w,
      )
  unfolding answer_of
  opens_remotely inp address w d fs got opened small =
      ap (carried address w answer_of) (open_rpc_handler-ok inp (w address) d fs got opened small)

  -- A read that the handler pushes and the callback answers.
  pub reads_remotely :
      (laws : ReadLaws os) (up : IsSetUp hg) (inp : RpcIn) (address : Text) (w : Cluster os) (k : ℕ)
      → (served os inp (w address)).0 ≡ pos k
      → k < 2 ^ 31
      → hg.transfer k ≡ 0
      → (cluster os hg).read_rpc address inp w ≡ (
        answered (pos k, (served os inp (w address)).1),
        replace address
            (log_path inp.accessfd (record (w address) { fs = (served os inp (w address)).2 }))
            w,
      )
  unfolding read_answer answer_of rpc_handler_bulk_cb
  reads_remotely laws up inp address w k got small sent =
      let kept : to_int32 (pos k) ≡ pos k = to_int32_fits (pos k) (omega arith, omega arith) in
      let pushed = rpc_handler_pushes os laws hg inp (w address) up k got (omega arith) sent in
      ap (carried address w read_answer) pushed ∙ rw kept refl
