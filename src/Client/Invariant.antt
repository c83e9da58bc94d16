-- ===== src/Client/Invariant.antt =====
-- hvac_client.cpp and hvac_comm_client.cpp: the invariant of the client's state, and the remote calls
-- of Client/Calls on it.
use hvac_checkpoint.Common.{
  ℕ, zero, suc, ◌-◌, ◌≡◌, refl, ap, ◌∙◌, true, false, none, List, [], if◌then◌else◌, arith, length,
  replicate, append-nil, take_all, length-replicate,
}
use hvac_checkpoint.Common.Int.{ℤ, pos, int_eq, int_beq}
use hvac_checkpoint.Common.Maps.{Map, lookup, insert, index, has_key, lookup-erase, lookup-index}
use hvac_checkpoint.Common.Text.{Text}
use hvac_checkpoint.Common.Run.{ok, >>=-eq-ok}
use hvac_checkpoint.Ring.Servers.{server_ring}
use hvac_checkpoint.Client.{
  Client, Env, Rpc, Reply, answered, late, garbled, failed, silent, initialize_hash_ring, loaded,
  resize, virtual_node_cnt,
}
use hvac_checkpoint.Client.Calls.{
  server_address, finish_open, open_cb, client_block, finish_read, read_cb, read_block, finish_seek,
  seek_cb, seek_block, remote_open, remote_fetch, remote_release, remote_position,
}

-- What a remote call leaves alone: all but the world, the cache of addresses, and descriptors that
-- `fd_redir_map` gains.
pub record Keeps {World : Type 0} (c c' : Client World) : Type 0 where
  pub ring : c'.ring ≡ c.ring
  pub counters : c'.timeout_counters ≡ c.timeout_counters
  pub flags : c'.failure_flags ≡ c.failure_flags
  pub files : c'.fd_map ≡ c.fd_map
  pub redirected : (fd : ℤ) → has_key fd c.fd_redir_map ≡ true → has_key fd c'.fd_redir_map ≡ true

has_key-index :
    (fd j : ℤ) (m : Map ℤ ℤ) → has_key j m ≡ true → has_key j (index fd (pos 0) m).1 ≡ true
has_key-index fd j m h = ground (arith, lookup-index fd j (pos 0) m)

finish_open_lem :
    {World : Type 0} (fd : ℤ) (reply : Reply ℤ) (c c' : Client World)
    → finish_open fd reply c ≡ ok c'
    → (remote : ℤ) × (c' ≡ record c { fd_redir_map = insert fd remote c.fd_redir_map })
unfolding finish_open open_cb client_block
finish_open_lem fd (answered remote) c c' e = (remote, cc)
finish_open_lem fd garbled c c' e = absurd (cc e)
finish_open_lem fd failed c c' e = absurd (cc e)
finish_open_lem fd (late ret_status) c c' e = absurd (cc e)
finish_open_lem fd silent c c' e = absurd (cc e)

server_address_lem :
    {World : Type 0} (env : Env) (host : ℤ) (c : Client World) (address : Text) (c' : Client World)
    → server_address env host c ≡ ok (address, c')
    → (c'.ring ≡ c.ring)
      × (c'.timeout_counters ≡ c.timeout_counters)
      × (c'.failure_flags ≡ c.failure_flags)
      × (c'.fd_map ≡ c.fd_map)
      × (c'.fd_redir_map ≡ c.fd_redir_map)
unfolding server_address
server_address_lem env host c address c' e = ground arith

module _ (rpc : Rpc) (env : Env) where
  pub remote_fetch-Keeps :
      (host fd : ℤ) (count : ℕ) (offset : ℤ) (c c' : Client rpc.World) (r : ℤ) (bytes : List ℕ)
      → remote_fetch rpc env host fd count offset c ≡ ok (r, bytes, c')
      → Keeps c c'
  unfolding remote_fetch server_address finish_read read_cb read_block
  remote_fetch-Keeps host fd count offset c c' r bytes e = record {
    ring = ground arith;
    counters = ground arith;
    flags = ground arith;
    files = ground arith;
    redirected = λ j h. ground (arith, has_key-index fd j c.fd_redir_map h);
  }

  pub remote_position-Keeps :
      (host fd offset whence : ℤ) (c c' : Client rpc.World) (r : ℤ)
      → remote_position rpc env host fd offset whence c ≡ ok (r, c')
      → Keeps c c'
  unfolding remote_position server_address finish_seek seek_cb seek_block
  remote_position-Keeps host fd offset whence c c' r e = record {
    ring = ground arith;
    counters = ground arith;
    flags = ground arith;
    files = ground arith;
    redirected = λ j h. ground (arith, has_key-index fd j c.fd_redir_map h);
  }

  -- A close keeps the same, and forgets the one descriptor of the server.
  pub remote_release_lem :
      (host fd : ℤ) (c c' : Client rpc.World)
      → remote_release rpc env host fd c ≡ ok c'
      → (c'.ring ≡ c.ring)
        × (c'.timeout_counters ≡ c.timeout_counters)
        × (c'.failure_flags ≡ c.failure_flags)
        × (c'.fd_map ≡ c.fd_map)
        × ((j : ℤ)
            → lookup j c'.fd_redir_map ≡ (if int_beq fd j then none else lookup j c.fd_redir_map))
  unfolding remote_release server_address
  remote_release_lem host fd c c' e = (
    ground arith,
    ground arith,
    ground arith,
    ground arith,
    λ j. ground (
      arith,
      lookup-erase fd j (index fd (pos 0) c.fd_redir_map).1,
      lookup-index fd j (pos 0) c.fd_redir_map,
    ),
  )

  -- An open that returns has stored the server's descriptor.
  pub remote_open_lem :
      (host : ℤ) (path : Text) (fd : ℤ) (c c' : Client rpc.World)
      → remote_open rpc env host path fd c ≡ ok c'
      → (c'.ring ≡ c.ring)
        × (c'.timeout_counters ≡ c.timeout_counters)
        × (c'.failure_flags ≡ c.failure_flags)
        × (c'.fd_map ≡ c.fd_map)
        × ((remote : ℤ) × (c'.fd_redir_map ≡ insert fd remote c.fd_redir_map))
  unfolding remote_open
  remote_open_lem host path fd c c' e =
      let ((address, c₁), found, done) = >>=-eq-ok (server_address env host c) _ e in
      let (remote, same) = finish_open_lem fd _ _ c' done in
      let (ring, counters, flags, files, redir) = server_address_lem env host c address c₁ found in
      (
        rw same ring,
        rw same counters,
        rw same flags,
        rw same files,
        (remote, rw (same, redir) refl),
      )

-- The state of the client between calls.
pub record IsConsistent {World : Type 0} (env : Env) (c : Client World) : Type 0 where
  pub ring : c.ring ≡ server_ring env.hash env.server_count virtual_node_cnt
  pub counters : c.timeout_counters ≡ replicate env.server_count 0
  pub flags : c.failure_flags ≡ replicate env.server_count false
  pub redirected : (fd : ℤ) → has_key fd c.fd_map ≡ true → has_key fd c.fd_redir_map ≡ true

resize-nil {ℓ} : {A : Type ℓ} (n : ℕ) (d : A) → resize n d [] ≡ replicate n d
resize-nil zero d = refl
resize-nil (suc n) d = let whole : suc n - 0 ≡ suc n = omega arith in rw whole

pub resize-replicate {ℓ} : {A : Type ℓ} (n : ℕ) (d : A) → resize n d (replicate n d) ≡ replicate n d
resize-replicate n d =
    let none_left : n - length (replicate n d) ≡ 0 = omega (arith, length-replicate n d) in
    rw (none_left, take_all n (replicate n d) (omega (arith, length-replicate n d)))
      (append-nil (replicate n d))

pub Keeps-IsConsistent :
    {World : Type 0} (env : Env) (c c' : Client World)
    → Keeps c c'
    → IsConsistent env c
    → IsConsistent env c'
Keeps-IsConsistent env c c' k v = record {
  ring = k.ring ∙ v.ring;
  counters = k.counters ∙ v.counters;
  flags = k.flags ∙ v.flags;
  redirected = λ fd h. k.redirected fd (v.redirected fd (rw k.files at h));
}

-- The state that `hvac_client_init` leaves is consistent.
pub loaded-IsConsistent : {World : Type 0} (env : Env) (w : World) → IsConsistent env (loaded env w)
unfolding loaded initialize_hash_ring lookup
loaded-IsConsistent env w = record {
  ring = refl;
  counters = resize-nil env.server_count 0;
  flags = resize-nil env.server_count false;
  redirected = λ fd h. cc;
}

-- Setting the ring up once more changes nothing in a consistent state.
pub initialize_hash_ring-IsConsistent :
    {World : Type 0} (env : Env) (c : Client World)
    → IsConsistent env c
    → IsConsistent env (initialize_hash_ring env virtual_node_cnt c)
unfolding initialize_hash_ring
initialize_hash_ring-IsConsistent env c v = record {
  ring = refl;
  counters = ap (resize env.server_count 0) v.counters ∙ resize-replicate env.server_count 0;
  flags = ap (resize env.server_count false) v.flags ∙ resize-replicate env.server_count false;
  redirected = v.redirected;
}
