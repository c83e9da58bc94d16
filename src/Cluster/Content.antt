-- ===== src/Cluster/Content.antt =====
-- hvac_client.cpp to hvac_comm.cpp: the bytes that a read of a newly opened file returns.
use hvac_checkpoint.Common.{
  ℕ, ◌<◌, ◌^◌, ◌%◌, ◌≡◌, refl, ap, ◌∙◌, Bool, true, some, List, arith, take, inl, inr, Bool-cases,
}
use hvac_checkpoint.Common.Int.{ℤ, pos, minus_one, int_eq, to_int32, to_int32_fits, to_unsigned}
use hvac_checkpoint.Common.Maps.{Map, lookup, insert, lookup-insert_self}
use hvac_checkpoint.Common.Text.{Text, text_beq, text_beq_iff, c_str}
use hvac_checkpoint.Common.Run.{ok}
use hvac_checkpoint.Posix.{Posix, ReadLaws}
use hvac_checkpoint.Ports.{lookup_addr}
use hvac_checkpoint.Ring.{HashRing}
use hvac_checkpoint.Server.{Server, HgCalls}
use hvac_checkpoint.Server.Read.Laws.{IsSetUp, served}
use hvac_checkpoint.Server.Files.{redirect}
use hvac_checkpoint.Server.Cache.{FileLaws, IsFaithful, redirect-content_of_IsFaithful}
use hvac_checkpoint.Client.{Client, Env, Reply, answered, initialize_hash_ring}
use hvac_checkpoint.Client.Calls.{server_address}
use hvac_checkpoint.Client.Remote.{remote_read}
use hvac_checkpoint.Client.Track.{wants_tracking, init_mercury, track_file}
use hvac_checkpoint.Client.Serving.{
  request, open_request, remote_read-answered, track_file-answered,
}
use hvac_checkpoint.Cluster.{Cluster, cluster, replace}
use hvac_checkpoint.Cluster.Reading.{
  lookup_addr-again, server_address-found, opens_remotely, reads_remotely,
}

-- A read of a newly opened file starts at its beginning, and may be short.
pub record OpenLaws (os : Posix) (files : FileLaws os) : Type 0 where
  pub open_read :
      (p : Text) (fs : os.Fs) (d n k : ℕ) (bytes : List ℕ)
      → files.content p fs ≡ some bytes
      → (os.open_file p 0 fs).0 ≡ pos d
      → (os.read_file (pos d) n (os.open_file p 0 fs).1).0 ≡ pos k
      → (os.read_file (pos d) n (os.open_file p 0 fs).1).1 ≡ take k bytes

-- The first tracked file changes nothing but the ring and its counters.
init_mercury-fields :
    {World : Type 0} (env : Env) (c : Client World)
    → (ring : HashRing) × (counters : List ℕ) × (flags : List Bool) × (started : Bool)
      × (init_mercury env c ≡ record c {
        ring = ring;
        timeout_counters = counters;
        failure_flags = flags;
        mercury_init = started;
      })
unfolding init_mercury initialize_hash_ring
init_mercury-fields env c = elim (Bool-cases c.mercury_init) [
  | inl on ↦ (c.ring, c.timeout_counters, c.failure_flags, c.mercury_init, ground (arith, on))
  | inr off ↦
      let d = initialize_hash_ring env 100 c in
      (d.ring, d.timeout_counters, d.failure_flags, true, ground (arith, off))
]

pub lookup_addr-cached :
    (rank : ℤ) (file address : Text) (cache : Map ℤ Text)
    → lookup rank cache ≡ some address
    → (lookup_addr rank file cache).0 ≡ some address
unfolding lookup_addr
lookup_addr-cached rank file address cache e = rw (e, lookup_addr) refl

pub replace-same :
    {S : Type 0} (address : Text) (s : S) (w : Text → S) → replace address s w address ≡ s
replace-same address s w =
    let same : text_beq address address ≡ true = (text_beq_iff address address).1 refl in
    rw same refl

-- A server that has just opened a file reads its head.
served-opened :
    (os : Posix) (files : FileLaws os) (opens : OpenLaws os files) (env : Env) (fd : ℤ)
    (d k count : ℕ) (path : Text) (bytes : List ℕ) (s t : Server os.Fs)
    → IsFaithful os files s
    → files.content path s.fs ≡ some bytes
    → os.open_file (redirect path s.path_cache_map) 0 s.fs ≡ (pos d, t.fs)
    → (os.read_file (pos d) count t.fs).0 ≡ pos k
    → count < 2 ^ 31
    → ((served os (request env fd (pos d) count minus_one) t).0 ≡ pos k)
      × ((served os (request env fd (pos d) count minus_one) t).1 ≡ take k bytes)
served-opened os files opens env fd d k count path bytes s t faithful has opened got small =
    let size : to_unsigned 64 (to_int32 (pos count)) ≡ count =
      rw (to_int32_fits (pos count) (omega arith, omega arith)) (omega arith) in
    let cached = redirect-content_of_IsFaithful os files path s faithful ∙ has in
    let head = opens.open_read (redirect path s.path_cache_map) s.fs d count k bytes cached in
    let head' = rw opened at head in rw size (got, head' refl got)

-- A tracked descriptor whose server's own read finds `bytes` is read as `bytes`.
remote_read-served :
    (os : Posix) (reads : ReadLaws os) (hg : HgCalls) (env : Env) (c : Client (Cluster os))
    (real address : Text) (fd : ℤ) (d k count : ℕ) (bytes : List ℕ)
    → IsSetUp hg
    → 0 < env.server_count
    → lookup fd c.fd_map ≡ some real
    → lookup fd c.fd_redir_map ≡ some (pos d)
    → (lookup_addr (to_int32 (pos (env.hash real % env.server_count))) env.ports c.address_cache).0
      ≡ some address
    → (served os (request env fd (pos d) count minus_one) (c.world address)).0 ≡ pos k
    → (served os (request env fd (pos d) count minus_one) (c.world address)).1 ≡ bytes
    → k < 2 ^ 31
    → hg.transfer k ≡ 0
    → (c' : Client (Cluster os)) × (remote_read (cluster os hg) env fd count c
        ≡ ok (pos k, bytes, c'))
remote_read-served os reads hg env c real address fd d k count bytes up servers tracked redirected
      known got found small sent =
    let rpc = cluster os hg in
    let host = to_int32 (pos (env.hash real % env.server_count)) in
    let inp = request env fd (pos d) count minus_one in
    let w = (rpc.read_rpc address inp c.world).1 in
    let pushed =
      ap (λ (r : Reply (ℤ × List ℕ) × Cluster os). r.0)
        (reads_remotely os hg reads up inp address c.world k got small sent) in
    let reply = pushed ∙ ap (λ (bs : List ℕ). answered (pos k, bs)) found in
    let answer : rpc.read_rpc address inp c.world ≡ (answered (pos k, bytes), w) =
      ap (λ (a : Reply (ℤ × List ℕ)). (a, w)) reply in
    (
      _,
      remote_read-answered rpc env fd (pos d) (pos k) count real address bytes c _ w servers tracked
          (server_address-found env host address c known) redirected answer (λ e. absurd (cc e)),
    )

-- A file that is to be tracked, whose server is found and opens it, is tracked: the client has the
-- server's descriptor and address, and the server is as after its open.
pub track_file-opens :
    (os : Posix) (hg : HgCalls) (env : Env) (c : Client (Cluster os)) (path real address : Text)
    (fd : ℤ) (flags d : ℕ) (fs : os.Fs)
    → IsSetUp hg
    → 0 < env.server_count
    → wants_tracking env path flags ≡ some real
    → (lookup_addr (to_int32 (pos (env.hash real % env.server_count))) env.ports c.address_cache).0
      ≡ some address
    → os.open_file (redirect (c_str real) (c.world address).path_cache_map) 0 (c.world address).fs
      ≡ (pos d, fs)
    → d < 2 ^ 31
    → (c₁ : Client (Cluster os)) × (track_file (cluster os hg) env path flags fd c ≡ ok (true, c₁))
      × (lookup fd c₁.fd_map ≡ some real)
      × (lookup fd c₁.fd_redir_map ≡ some (pos d))
      × ((lookup_addr
            (to_int32 (pos (env.hash real % env.server_count)))
            env.ports
            c₁.address_cache).0
          ≡ some address)
      × ((c₁.world address).fs ≡ fs)
track_file-opens os hg env c path real address fd flags d fs up servers wanted known opened
      small_d =
    let rpc = cluster os hg in
    let host = to_int32 (pos (env.hash real % env.server_count)) in
    let c⁺ : Client (Cluster os) = record c { fd_map = insert fd real c.fd_map } in
    let (ring, counters, failures, started, e) = init_mercury-fields env c⁺ in
    let c₀ : Client (Cluster os) = record c⁺ {
      ring = ring;
      timeout_counters = counters;
      failure_flags = failures;
      mercury_init = started;
    } in
    let cache = (lookup_addr host env.ports c.address_cache).1 in
    let found = ap (server_address env host) e ∙ server_address-found env host address c₀ known in
    let s₁ : Server os.Fs = record (c.world address) {
      fs = fs;
      fd_to_path = insert (pos d) (c_str real) (c.world address).fd_to_path;
    } in
    let w₁ = replace address s₁ c.world in
    (
      record c₀ {
        address_cache = cache;
        world = w₁;
        fd_redir_map = insert fd (pos d) c.fd_redir_map;
      },
      track_file-answered rpc env fd (pos d) flags path real address c _ w₁ servers wanted found (
          opens_remotely os hg (open_request env fd real) address c.world d fs up.got_input opened
            small_d),
      lookup-insert_self fd real c.fd_map,
      lookup-insert_self fd (pos d) c.fd_redir_map,
      lookup_addr-cached host env.ports address cache
          (lookup_addr-again host env.ports address c.address_cache known),
      ap (λ (t : Server os.Fs). t.fs) (replace-same address s₁ c.world),
    )

-- A file that is to be tracked, whose server is found and holds its content, is opened there and
-- tracked; and the read that follows returns the first bytes of that content, as many as the server's
-- own read finds, from the cached copy if there is one.
pub remote_read-track_file :
    (os : Posix) (reads : ReadLaws os) (files : FileLaws os) (opens : OpenLaws os files)
    (hg : HgCalls) (env : Env) (c : Client (Cluster os)) (path real address : Text) (fd : ℤ)
    (flags d k count : ℕ) (bytes : List ℕ) (fs : os.Fs)
    → IsSetUp hg
    → 0 < env.server_count
    → wants_tracking env path flags ≡ some real
    → (lookup_addr (to_int32 (pos (env.hash real % env.server_count))) env.ports c.address_cache).0
      ≡ some address
    → IsFaithful os files (c.world address)
    → files.content (c_str real) (c.world address).fs ≡ some bytes
    → os.open_file (redirect (c_str real) (c.world address).path_cache_map) 0 (c.world address).fs
      ≡ (pos d, fs)
    → d < 2 ^ 31
    → count < 2 ^ 31
    → (os.read_file (pos d) count fs).0 ≡ pos k
    → k < 2 ^ 31
    → hg.transfer k ≡ 0
    → (c₁ c₂ : Client (Cluster os)) × (track_file (cluster os hg) env path flags fd c
        ≡ ok (true, c₁))
      × (remote_read (cluster os hg) env fd count c₁ ≡ ok (pos k, take k bytes, c₂))
remote_read-track_file os reads files opens hg env c path real address fd flags d k count bytes fs
      up servers wanted known faithful has opened small_d small got small_k sent =
    let (c₁, tracks, tracked, redirected, known₁, there) =
      track_file-opens os hg env c path real address fd flags d fs up servers wanted known opened
        small_d in
    let (got₁, head) =
      served-opened os files opens env fd d k count (c_str real) bytes (c.world address)
        (c₁.world address) faithful has (rw there opened) (rw there got) small in
    let (c₂, read_back) =
      remote_read-served os reads hg env c₁ real address fd d k count (take k bytes) up servers
        tracked redirected known₁ got₁ head small_k sent in
    (c₁, c₂, tracks, read_back)
