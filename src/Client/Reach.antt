-- ===== src/Client/Reach.antt =====
-- hvac_client.cpp: the states that a sequence of calls of the client leads to.
use hvac_checkpoint.Common.{
  ℕ, ◌<◌, ◌≡◌, refl, sym, ap, ◌∙◌, ◌⊎◌, inl, inr, Bool, true, false, some, none, List, [], ◌∷◌,
  arith, Option-cases, replicate,
}
use hvac_checkpoint.Common.Int.{ℤ, pos, int_eq}
use hvac_checkpoint.Common.Maps.{Map, lookup, insert, has_key, lookup-insert, erase_absent}
use hvac_checkpoint.Common.Text.{Text}
use hvac_checkpoint.Common.Run.{ok, >>=-eq-ok}
use mathlib.Core.Path.{subst}
use hvac_checkpoint.Ring.Servers.{server_ring}
use hvac_checkpoint.Client.{
  Client, Env, Rpc, loaded, resize, initialize_hash_ring, virtual_node_cnt,
}
use hvac_checkpoint.Client.Calls.{remote_open}
use hvac_checkpoint.Client.Remote.{
  hashed_host, ring_host, check_failure, remote_read, remote_pread, remote_lseek, remote_close,
  remove_fd,
}
use hvac_checkpoint.Client.Track.{wants_tracking, init_mercury, track_file}
use hvac_checkpoint.Client.Invariant.{
  IsConsistent, remote_open_lem, resize-replicate, loaded-IsConsistent,
}
use hvac_checkpoint.Client.Closing.{remove_fd_lem}
use hvac_checkpoint.Client.Operations.{
  HasServerCount, remote_read-IsConsistent, remote_pread-IsConsistent, remote_lseek-IsConsistent,
  check_failure_never, ring_host_total,
}

-- Setting the ring up at the first tracked file changes nothing that was in order.
init_mercury_lem :
    {World : Type 0} (env : Env) (c : Client World)
    → c.ring ≡ server_ring env.hash env.server_count virtual_node_cnt
    → c.timeout_counters ≡ replicate env.server_count 0
    → c.failure_flags ≡ replicate env.server_count false
    → ((init_mercury env c).ring ≡ server_ring env.hash env.server_count virtual_node_cnt)
      × ((init_mercury env c).timeout_counters ≡ replicate env.server_count 0)
      × ((init_mercury env c).failure_flags ≡ replicate env.server_count false)
      × ((init_mercury env c).fd_map ≡ c.fd_map)
      × ((init_mercury env c).fd_redir_map ≡ c.fd_redir_map)
unfolding init_mercury initialize_hash_ring
init_mercury_lem env c ring counters flags =
    let counters' = ap (resize env.server_count 0) counters ∙ resize-replicate env.server_count 0 in
    let flags' =
      ap (resize env.server_count false) flags ∙ resize-replicate env.server_count false in
    (
      ground (arith, ring),
      ground (arith, counters, counters'),
      ground (arith, flags, flags'),
      ground arith,
      ground arith,
    )

opened-redirected :
    (fd remote : ℤ) (real : Text) (files files' : Map ℤ Text) (redir redir' : Map ℤ ℤ)
    → files' ≡ insert fd real files
    → redir' ≡ insert fd remote redir
    → ((j : ℤ) → has_key j files ≡ true → has_key j redir ≡ true)
    → (j : ℤ) → has_key j files' ≡ true
    → has_key j redir' ≡ true
opened-redirected fd remote real files files' redir redir' ef er v j h = ground (
  arith,
  ap (has_key j) ef,
  ap (has_key j) er,
  lookup-insert fd j real files,
  lookup-insert fd j remote redir,
  v j,
)

module _ (rpc : Rpc) (env : Env) where
  -- A call of `hvac_track_file` on a consistent state, where it returns, leaves a consistent one.
  -- Either it returns false and the client is as it was, or it returns true, the file is one to be
  -- tracked, and its resolved path is entered under the descriptor.
  pub track_file_lem :
      (path : Text) (flags : ℕ) (fd : ℤ) (c c' : Client rpc.World) (tracked : Bool)
      → IsConsistent env c
      → track_file rpc env path flags fd c ≡ ok (tracked, c')
      → IsConsistent env c'
        × (((tracked ≡ false) × (c' ≡ c))
            ⊎ ((tracked ≡ true)
                × (real : Text) × (wants_tracking env path flags ≡ some real)
                × (c'.fd_map ≡ insert fd real c.fd_map)))
  unfolding track_file
  track_file_lem path flags fd c c' tracked v e =
      elim (Option-cases (wants_tracking env path flags)) [
        | inl refused ↦
            let e₁ = rw (refused, track_file) at e in
            let same : c ≡ c' = cc e₁ in
            let answer : tracked ≡ false = cc e₁ in
            (subst (IsConsistent env) same v, inl (answer, sym same))
        | inr (real, wanted) ↦
            let e₁ = rw (wanted, track_file) at e in
            let (host, _, rest) = >>=-eq-ok (hashed_host env real) _ e₁ in
            let c₀ : Client rpc.World = record c { fd_map = insert fd real c.fd_map } in
            let c₁ = init_mercury env c₀ in
            let (c₂, run, done) = >>=-eq-ok (remote_open rpc env host real fd c₁) _ rest in
            let (ring₁, counters₁, flags₁, files₁, redir₁) =
              init_mercury_lem env c₀ v.ring v.counters v.flags in
            let (ring, counters, flags, files, (remote, redir)) =
              remote_open_lem rpc env host real fd c₁ c₂ run in
            let same : c₂ ≡ c' = cc done in
            let answer : tracked ≡ true = cc done in
            (
              subst (IsConsistent env) same (record {
                ring = ring ∙ ring₁;
                counters = counters ∙ counters₁;
                flags = flags ∙ flags₁;
                redirected =
                    opened-redirected fd remote real c.fd_map c₂.fd_map c.fd_redir_map
                      c₂.fd_redir_map (files ∙ files₁) (redir ∙ ap (insert fd remote) redir₁)
                      v.redirected;
              }),
              inr (
                answer,
                real,
                wanted,
                ap (λ (d : Client rpc.World). d.fd_map) (sym same) ∙ files ∙ files₁,
              ),
            )
      ]

  remove_fd_untracked :
      (fd : ℤ) (c : Client rpc.World) (m : Map ℤ Text)
      → c.fd_map ≡ m
      → lookup fd c.fd_map ≡ none
      → remove_fd rpc env fd c ≡ ok (false, c)
  unfolding remove_fd remote_close
  remove_fd_untracked fd c [] same absent = ground arith
  remove_fd_untracked fd c (e ∷ es) same absent = ground (arith, erase_absent fd c.fd_map absent)

  -- One call of the client that returns.
  pub data Step (c c' : Client rpc.World) : Type 0 where
    tracks :
        (path : Text) (flags : ℕ) (fd : ℤ) (tracked : Bool)
        → track_file rpc env path flags fd c ≡ ok (tracked, c')
        → Step c c'
    reads :
        (fd : ℤ) (count : ℕ) (r : ℤ) (bytes : List ℕ)
        → remote_read rpc env fd count c ≡ ok (r, bytes, c')
        → Step c c'
    preads :
        (fd : ℤ) (count : ℕ) (offset : ℤ) (r : ℤ) (bytes : List ℕ)
        → remote_pread rpc env fd count offset c ≡ ok (r, bytes, c')
        → Step c c'
    seeks :
        (fd offset whence : ℤ) (r : ℤ)
        → remote_lseek rpc env fd offset whence c ≡ ok (r, c')
        → Step c c'
    removes :
        (fd : ℤ) (was_tracked : Bool) → remove_fd rpc env fd c ≡ ok (was_tracked, c') → Step c c'

  pub data Reach : Client rpc.World → Type 0 where
    loads : (w : rpc.World) → Reach (loaded env w)
    steps : {c c' : Client rpc.World} → Reach c → Step c c' → Reach c'

  module _ (counted : HasServerCount env) where
    Step-IsConsistent :
        (c c' : Client rpc.World) → Step c c' → IsConsistent env c → IsConsistent env c'
    Step-IsConsistent c c' (tracks path flags fd tracked e) v =
        (track_file_lem path flags fd c c' tracked v e).0
    Step-IsConsistent c c' (reads fd count r bytes e) v =
        remote_read-IsConsistent rpc env fd count c c' r bytes v e
    Step-IsConsistent c c' (preads fd count offset r bytes e) v =
        remote_pread-IsConsistent rpc env counted fd count offset c c' r bytes v e
    Step-IsConsistent c c' (seeks fd offset whence r e) v =
        remote_lseek-IsConsistent rpc env counted fd offset whence c c' r v e
    Step-IsConsistent c c' (removes fd was_tracked e) v = elim (Option-cases (lookup fd c.fd_map)) [
      | inl absent ↦
          let same : c ≡ c' = cc (remove_fd_untracked fd c c.fd_map refl absent, e) in
          subst (IsConsistent env) same v
      | inr (path, tracked) ↦ (remove_fd_lem rpc env counted fd path c c' was_tracked v tracked e).3
    ]

    -- With at least one server and fewer than 2^31: every state that returning calls of the client
    -- lead to is consistent, so the ring, the time-out counters and the failure flags are those of
    -- `initialize_hash_ring`, and every tracked descriptor has an entry in `fd_redir_map`.
    pub Reach-IsConsistent : {c : Client rpc.World} → Reach c → IsConsistent env c
    Reach-IsConsistent (loads w) = loaded-IsConsistent env w
    Reach-IsConsistent (steps {c} {c'} r st) = Step-IsConsistent c c' st (Reach-IsConsistent r)

    -- With at least one server and fewer than 2^31: in every state that returning calls of the
    -- client lead to, the ring gives a server for every path, and the failure check lets the call
    -- through, so no host is ever taken off the ring.
    pub Reach-check_failure :
        (path : Text) (c : Client rpc.World)
        → Reach c
        → (hostname : Text) × (n : ℕ) × (n < env.server_count)
          × (ring_host env path c ≡ ok (hostname, pos n))
          × (check_failure env hostname (pos n) c ≡ ok (false, c))
    Reach-check_failure path c r =
        let v = Reach-IsConsistent r in
        let (hostname, n, lt, found) = ring_host_total env c v path counted.0 counted.1 in
        (hostname, n, lt, found, check_failure_never env c v hostname n lt)
