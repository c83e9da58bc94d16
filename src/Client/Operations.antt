-- ===== src/Client/Operations.antt =====
-- hvac_client.cpp: the operations of Client/Remote on states that Client/Invariant describes.
use hvac_checkpoint.Common.{
  ℕ, zero, suc, ◌<◌, ◌^◌, ◌≡◌, refl, sym, ap, ◌∙◌, inl, inr, true, false, some, List, arith,
  Bool-cases, Option-cases, replicate,
}
use hvac_checkpoint.Common.Int.{ℤ, pos, minus_one, int_eq, int_beq, to_int32}
use hvac_checkpoint.Common.Maps.{Map, lookup, erase, has_key, lookup-erase}
use hvac_checkpoint.Common.Text.{Text}
use hvac_checkpoint.Common.Run.{ok, ◌>>=◌, >>=-eq-ok}
use mathlib.Core.Path.{subst}
use hvac_checkpoint.Ring.{get_node}
use hvac_checkpoint.Ring.Servers.{route, route-server_ring}
use hvac_checkpoint.Client.{Client, Env, Rpc, virtual_node_cnt}
use hvac_checkpoint.Client.Calls.{remote_fetch}
use hvac_checkpoint.Client.Remote.{
  host_elem, hashed_host, ring_host, check_failure, untrack_failed, remote_read, remote_pread,
  remote_lseek,
}
use hvac_checkpoint.Client.Invariant.{
  IsConsistent, Keeps-IsConsistent, remote_fetch-Keeps, remote_position-Keeps,
}

host_elem-replicate {ℓ} :
    {A : Type ℓ} (i n : ℕ) (a : A) → i < n → host_elem (pos i) (replicate n a) ≡ ok a
unfolding host_elem
host_elem-replicate i zero a h = absurd (omega arith)
host_elem-replicate zero (suc n) a h = refl
host_elem-replicate (suc i) (suc n) a h = host_elem-replicate i n a (omega arith)

module _ {World : Type 0} (env : Env) (c : Client World) (v : IsConsistent env c) where
  -- In a consistent state no host below the number of servers has reached the time-out limit, so
  -- none is taken off the ring.
  pub check_failure_never :
      (hostname : Text) (n : ℕ)
      → n < env.server_count
      → check_failure env hostname (pos n) c ≡ ok (false, c)
  unfolding check_failure
  check_failure_never hostname n lt =
      let counter =
        ap (host_elem (pos n)) v.counters ∙ host_elem-replicate n env.server_count 0 lt in
      let flag = ap (host_elem (pos n)) v.flags ∙ host_elem-replicate n env.server_count false lt in
      rw (counter, flag)

  -- With at least one server, the ring leads every path to a host below the number of servers.
  pub ring_host_total :
      (path : Text)
      → 0 < env.server_count
      → env.server_count < 2 ^ 31
      → (hostname : Text) × (n : ℕ) × (n < env.server_count)
        × (ring_host env path c ≡ ok (hostname, pos n))
  unfolding ring_host route
  ring_host_total path some_server small =
      let (host, lt, routed) =
        route-server_ring env.hash env.server_count path virtual_node_cnt some_server small
          (omega arith) in
      let (hostname, found, number) = >>=-eq-ok (get_node env.hash path _) _ routed in
      let here = ap (get_node env.hash path) v.ring ∙ found in
      (hostname, host, lt, rw (here, number))

has_key-erase :
    {V : Type 0} (fd j : ℤ) (m : Map ℤ V) → has_key j (erase fd m) ≡ true → has_key j m ≡ true
has_key-erase fd j m h = ground (arith, lookup-erase fd j m)

erase-IsConsistent :
    {World : Type 0} (env : Env) (fd : ℤ) (c : Client World)
    → IsConsistent env c
    → IsConsistent env (record c { fd_map = erase fd c.fd_map })
erase-IsConsistent env fd c v = record {
  ring = v.ring;
  counters = v.counters;
  flags = v.flags;
  redirected = λ j h. v.redirected j (has_key-erase fd j c.fd_map h);
}

module _ (rpc : Rpc) (env : Env) where
  untrack_failed-IsConsistent :
      (fd result : ℤ) (bytes : List ℕ) (c : Client rpc.World)
      → IsConsistent env c
      → IsConsistent env (untrack_failed rpc env fd (result, bytes, c)).2
  unfolding untrack_failed
  untrack_failed-IsConsistent fd result bytes c v = elim (Bool-cases (int_beq result minus_one)) [
    | inl bad ↦ rw (bad, untrack_failed) (erase-IsConsistent env fd c v)
    | inr good ↦ rw (good, untrack_failed) v
  ]

  -- A fetch whose result is handed on, with the descriptor untracked if it failed.
  fetched-IsConsistent :
      (host fd : ℤ) (count : ℕ) (offset : ℤ) (c c' : Client rpc.World) (r : ℤ) (bytes : List ℕ)
      → IsConsistent env c
      → (remote_fetch rpc env host fd count offset c >>= λ t. ok (untrack_failed rpc env fd t))
        ≡ ok (r, bytes, c')
      → IsConsistent env c'
  fetched-IsConsistent host fd count offset c c' r bytes v e =
      let ((r₁, bytes₁, c₁), fetched, done) =
        >>=-eq-ok (remote_fetch rpc env host fd count offset c) _ e in
      let kept = remote_fetch-Keeps rpc env host fd count offset c c₁ r₁ bytes₁ fetched in
      let after =
        untrack_failed-IsConsistent fd r₁ bytes₁ c₁ (Keeps-IsConsistent env c c₁ kept v) in
      let same : (untrack_failed rpc env fd (r₁, bytes₁, c₁)).2 ≡ c' = cc done in
      subst (IsConsistent env) same after

  pub remote_read-IsConsistent :
      (fd : ℤ) (count : ℕ) (c c' : Client rpc.World) (r : ℤ) (bytes : List ℕ)
      → IsConsistent env c
      → remote_read rpc env fd count c ≡ ok (r, bytes, c')
      → IsConsistent env c'
  unfolding remote_read
  remote_read-IsConsistent fd count c c' r bytes v e = elim (Option-cases (lookup fd c.fd_map)) [
    | inl absent ↦
        let e₁ = rw (absent, remote_read) at e in
        let same : c ≡ c' = cc e₁ in subst (IsConsistent env) same v
    | inr (path, tracked) ↦
        let e₁ = rw (tracked, remote_read) at e in
        let (host, _, rest) = >>=-eq-ok (hashed_host env path) _ e₁ in
        fetched-IsConsistent host fd count minus_one c c' r bytes v rest
  ]

-- There are servers, and an `int` counts them.
abbrev pub HasServerCount : Env → Type 0
HasServerCount env = (0 < env.server_count) × (env.server_count < 2 ^ 31)

module _ (rpc : Rpc) (env : Env) (counted : HasServerCount env) where
  -- On a consistent state, with at least one server and fewer than 2^31, a `pread` of a tracked
  -- descriptor is a fetch from the server that the ring gives for its path, and never takes the
  -- failover branch.
  pub remote_pread_lem :
      (fd : ℤ) (count : ℕ) (offset : ℤ) (path : Text) (c : Client rpc.World)
      → IsConsistent env c
      → lookup fd c.fd_map ≡ some path
      → (hostname : Text) × (n : ℕ) × (n < env.server_count)
        × (ring_host env path c ≡ ok (hostname, pos n))
        × (remote_pread rpc env fd count offset c ≡ (
            remote_fetch rpc env (pos n) fd count offset c >>= λ t.
            ok (untrack_failed rpc env fd t)))
  unfolding remote_pread
  remote_pread_lem fd count offset path c v tracked =
      let (hostname, n, lt, found) = ring_host_total env c v path counted.0 counted.1 in
      (
        hostname,
        n,
        lt,
        found,
        rw (tracked, remote_pread, found, check_failure_never env c v hostname n lt),
      )

  pub remote_pread-IsConsistent :
      (fd : ℤ) (count : ℕ) (offset : ℤ) (c c' : Client rpc.World) (r : ℤ) (bytes : List ℕ)
      → IsConsistent env c
      → remote_pread rpc env fd count offset c ≡ ok (r, bytes, c')
      → IsConsistent env c'
  unfolding remote_pread
  remote_pread-IsConsistent fd count offset c c' r bytes v e =
      elim (Option-cases (lookup fd c.fd_map)) [
        | inl absent ↦
            let e₁ = rw (absent, remote_pread) at e in
            let same : c ≡ c' = cc e₁ in subst (IsConsistent env) same v
        | inr (path, tracked) ↦
            let (_, n, _, _, run) = remote_pread_lem fd count offset path c v tracked in
            fetched-IsConsistent rpc env (pos n) fd count offset c c' r bytes v (sym run ∙ e)
      ]

  pub remote_lseek-IsConsistent :
      (fd offset whence : ℤ) (c c' : Client rpc.World) (r : ℤ)
      → IsConsistent env c
      → remote_lseek rpc env fd offset whence c ≡ ok (r, c')
      → IsConsistent env c'
  unfolding remote_lseek
  remote_lseek-IsConsistent fd offset whence c c' r v e = elim (Option-cases (lookup fd c.fd_map)) [
    | inl absent ↦
        let e₁ = rw (absent, remote_lseek) at e in
        let same : c ≡ c' = cc e₁ in subst (IsConsistent env) same v
    | inr (path, tracked) ↦
        let e₁ = rw (tracked, remote_lseek) at e in
        let ((hostname, host), _, rest) = >>=-eq-ok (ring_host env path c) _ e₁ in
        Keeps-IsConsistent env c c'
          (remote_position-Keeps rpc env host fd (to_int32 offset) whence c c' r rest) v
  ]
