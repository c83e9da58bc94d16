-- ===== src/Client/Closing.antt =====
-- hvac_client.cpp: `hvac_remove_fd`, by which the wrappers close a descriptor.
use hvac_checkpoint.Common.{
  ℕ, ◌≡◌, refl, sym, ap, ◌∙◌, Bool, true, some, none, [], ◌∷◌, if◌then◌else◌, arith, is_some, ◌<◌,
  Option-cases, inl, inr,
}
use hvac_checkpoint.Common.Int.{ℤ, pos, int_eq, int_beq}
use hvac_checkpoint.Common.Maps.{index, Map, lookup, erase, has_key, lookup-erase, insert}
use hvac_checkpoint.Common.Text.{Text}
use hvac_checkpoint.Common.Run.{ok, ◌>>=◌, >>=-eq-ok, Run}
use hvac_checkpoint.Client.{Client, Env, Rpc}
use hvac_checkpoint.Client.Calls.{remote_release, server_address}
use hvac_checkpoint.Client.Remote.{remote_close, remove_fd}
use hvac_checkpoint.Client.Invariant.{IsConsistent, remote_release_lem}
use hvac_checkpoint.Server.Files.{CloseIn}
use hvac_checkpoint.Ports.{find_address, lookup_addr}
use hvac_checkpoint.Client.Operations.{HasServerCount, check_failure_never, ring_host_total}

-- Every server has a line in the file of addresses.
abbrev pub HasAddresses : Env → Type 0
HasAddresses env =
    (n : ℕ) → n < env.server_count → (a : Text) × (find_address (pos n) env.ports ≡ some a)

-- A close can always be made, sent and freed.
abbrev pub SendsCloses : Rpc → Type 0
SendsCloses rpc =
    (address : Text) (inp : CloseIn) (w : rpc.World)
    → (w' : rpc.World) × (rpc.close_rpc address inp w ≡ some w')

server_address_total :
    {World : Type 0} (env : Env) (host : ℤ) (a : Text) (c : Client World)
    → find_address host env.ports ≡ some a
    → (address : Text) × (c' : Client World) × (server_address env host c ≡ ok (address, c'))
unfolding server_address lookup_addr
server_address_total env host a c listed = elim (Option-cases (lookup host c.address_cache)) [
  | inl absent ↦
      let cache = insert host a c.address_cache in
      (a, record c { address_cache = cache }, ground (arith, absent, listed))
  | inr (address, cached) ↦ (address, c, ground (arith, cached))
]

remote_release_total :
    (rpc : Rpc) (env : Env) (host fd : ℤ) (a : Text) (c : Client rpc.World)
    → SendsCloses rpc
    → find_address host env.ports ≡ some a
    → (c' : Client rpc.World) × (remote_release rpc env host fd c ≡ ok c')
unfolding remote_release
remote_release_total rpc env host fd a c sends listed =
    let (address, c₁, found) = server_address_total env host a c listed in
    let (accessfd, redir) = index fd (pos 0) c₁.fd_redir_map in
    let inp : CloseIn = record { fd = accessfd; client_rank = env.client_rank } in
    let (w, sent) = sends address inp c₁.world in
    (record c₁ { world = w; fd_redir_map = erase fd redir }, ground (arith, found, sent))

module _ (rpc : Rpc) (env : Env) (counted : HasServerCount env) where
  remote_close_lem :
      (fd : ℤ) (path : Text) (c : Client rpc.World)
      → IsConsistent env c
      → lookup fd c.fd_map ≡ some path
      → (n : ℕ) × (n < env.server_count)
        × (remote_close rpc env fd c ≡ remote_release rpc env (pos n) fd c)
  unfolding remote_close
  remote_close_lem fd path c v tracked =
      let (hostname, n, lt, found) = ring_host_total env c v path counted.0 counted.1 in
      (n, lt, rw (tracked, remote_close, found, check_failure_never env c v hostname n lt))

  remove_fd-remote_close :
      (fd : ℤ) (path : Text) (c : Client rpc.World) (m : Map ℤ Text)
      → c.fd_map ≡ m
      → lookup fd m ≡ some path
      → remove_fd rpc env fd c ≡ (
          remote_close rpc env fd c >>= λ c'.
          ok (has_key fd c'.fd_map, record c' { fd_map = erase fd c'.fd_map }))
  unfolding remove_fd
  remove_fd-remote_close fd path c [] same h = absurd (unfold lookup in cc h)
  remove_fd-remote_close fd path c (e ∷ es) same h = ground arith

  -- Closing a tracked descriptor forgets it on both maps, and keeps all others.
  pub remove_fd_lem :
      (fd : ℤ) (path : Text) (c c' : Client rpc.World) (was_tracked : Bool)
      → IsConsistent env c
      → lookup fd c.fd_map ≡ some path
      → remove_fd rpc env fd c ≡ ok (was_tracked, c')
      → (was_tracked ≡ true)
        × ((j : ℤ) → lookup j c'.fd_map ≡ (if int_beq fd j then none else lookup j c.fd_map))
        × ((j : ℤ)
            → lookup j c'.fd_redir_map ≡ (if int_beq fd j then none else lookup j c.fd_redir_map))
        × IsConsistent env c'
  unfolding remove_fd
  remove_fd_lem fd path c c' was_tracked v tracked e =
      let (n, _, closes) = remote_close_lem fd path c v tracked in
      let e₁ = sym (remove_fd-remote_close fd path c c.fd_map refl tracked) ∙ e in
      let (c₁, run, done) = >>=-eq-ok (remote_close rpc env fd c) _ e₁ in
      let (ring, counters, flags, files, redir) =
        remote_release_lem rpc env (pos n) fd c c₁ (sym closes ∙ run) in
      let here : has_key fd c₁.fd_map ≡ true = ap (has_key fd) files ∙ ap is_some tracked in
      let file_of : (j : ℤ)
          → lookup j c'.fd_map ≡ (if int_beq fd j then none else lookup j c.fd_map) =
        λ j. ground (arith, lookup-erase fd j c₁.fd_map) in
      let remote_of : (j : ℤ)
          → lookup j c'.fd_redir_map ≡ (if int_beq fd j then none else lookup j c.fd_redir_map) =
        λ j. ground (arith, redir j) in
      (
        cc (done, here),
        file_of,
        remote_of,
        record {
          ring = ground (arith, ring, v.ring);
          counters = ground (arith, counters, v.counters);
          flags = ground (arith, flags, v.flags);
          redirected = λ j h. ground (arith, file_of j, remote_of j, v.redirected j);
        },
      )

  -- From a consistent state, with servers that an `int` counts and an address for each, where the calls
  -- can be made, sent and freed, closing a tracked descriptor returns and says that it was tracked; it forgets the descriptor on both maps,
  -- keeps all others, and leaves a consistent state.
  pub remove_fd_returns :
      (fd : ℤ) (path : Text) (c : Client rpc.World)
      → HasAddresses env
      → SendsCloses rpc
      → IsConsistent env c
      → lookup fd c.fd_map ≡ some path
      → (c' : Client rpc.World) × (remove_fd rpc env fd c ≡ ok (true, c'))
        × ((j : ℤ) → lookup j c'.fd_map ≡ (if int_beq fd j then none else lookup j c.fd_map))
        × ((j : ℤ)
            → lookup j c'.fd_redir_map ≡ (if int_beq fd j then none else lookup j c.fd_redir_map))
        × IsConsistent env c'
  remove_fd_returns fd path c listed sends v tracked =
      let (n, lt, closes) = remote_close_lem fd path c v tracked in
      let (a, line) = listed n lt in
      let (c₁, released) = remote_release_total rpc env (pos n) fd a c sends line in
      let c' : Client rpc.World = record c₁ { fd_map = erase fd c₁.fd_map } in
      let run : remove_fd rpc env fd c ≡ ok (has_key fd c₁.fd_map, c') =
        remove_fd-remote_close fd path c c.fd_map refl tracked
        ∙ ap
            (λ (m : Run (Client rpc.World)).
              m >>= λ d. ok (has_key fd d.fd_map, record d { fd_map = erase fd d.fd_map }))
            (closes ∙ released) in
      let (hit, files, remotes, after) =
        remove_fd_lem fd path c c' (has_key fd c₁.fd_map) v tracked run in
      (c', rw hit at run, files, remotes, after)
