-- ===== src/Client/Fallback.antt =====
-- hvac_client.cpp: the tracked descriptors after a remote read, served or not.
use hvac_checkpoint.Common.{
  ℕ, ◌≡◌, ◌≢◌, sym, ap, ◌∙◌, inl, inr, false, none, List, [], arith, Bool-cases, Option-cases,
}
use hvac_checkpoint.Common.Int.{ℤ, minus_one, int_eq, int_beq, int_beq_iff}
use hvac_checkpoint.Common.Maps.{lookup, erase, lookup-erase_self}
use hvac_checkpoint.Common.Run.{Run, ok, ◌>>=◌, >>=-eq-ok}
use hvac_checkpoint.Client.{Client, Env, Rpc, file_tracked}
use hvac_checkpoint.Client.Calls.{remote_fetch}
use hvac_checkpoint.Client.Invariant.{remote_fetch-Keeps}
use hvac_checkpoint.Client.Remote.{
  hashed_host, ring_host, check_failure, untrack_failed, remote_read, remote_pread,
}

module _ (rpc : Rpc) (env : Env) where
  -- The descriptor is not tracked, and reads of it return -1 at once.
  abbrev pub FallsBack : ℤ → Client rpc.World → Type 0
  FallsBack fd c =
      (file_tracked fd c ≡ false)
      × ((count : ℕ) → remote_read rpc env fd count c ≡ ok (minus_one, [], c))
      × ((count : ℕ) (offset : ℤ) → remote_pread rpc env fd count offset c ≡ ok (minus_one, [], c))

  FallsBack-of_untracked :
      (fd : ℤ) (c : Client rpc.World) → lookup fd c.fd_map ≡ none → FallsBack fd c
  unfolding remote_read remote_pread
  FallsBack-of_untracked fd c absent =
      (rw absent, λ count. rw (absent, remote_read), λ count offset. rw (absent, remote_pread))

  untrack_failed-lookup :
      (fd r : ℤ) (bytes bytes' : List ℕ) (c c' : Client rpc.World)
      → untrack_failed rpc env fd (r, bytes, c) ≡ (minus_one, bytes', c')
      → lookup fd c'.fd_map ≡ none
  unfolding untrack_failed
  untrack_failed-lookup fd r bytes bytes' c c' e =
      ground (arith, int_beq_iff r minus_one, lookup-erase_self fd c.fd_map)

  fetched-lookup :
      (host fd : ℤ) (count : ℕ) (offset : ℤ) (bytes : List ℕ) (c c' : Client rpc.World)
      → (remote_fetch rpc env host fd count offset c >>= λ t. ok (untrack_failed rpc env fd t))
        ≡ ok (minus_one, bytes, c')
      → lookup fd c'.fd_map ≡ none
  fetched-lookup host fd count offset bytes c c' e =
      let ((r₁, bytes₁, c₁), _, done) =
        >>=-eq-ok (remote_fetch rpc env host fd count offset c) _ e in
      untrack_failed-lookup fd r₁ bytes₁ bytes c₁ c' (cc done)

  dropped-lookup :
      (fd : ℤ) (bytes : List ℕ) (c c' : Client rpc.World)
      → ◌≡◌ {A = Run (ℤ × List ℕ × Client rpc.World)}
          (ok (minus_one, [], record c { fd_map = erase fd c.fd_map }))
          (ok (minus_one, bytes, c'))
      → lookup fd c'.fd_map ≡ none
  dropped-lookup fd bytes c c' e = ground (arith, lookup-erase_self fd c.fd_map)

  pub read_fails-lookup :
      (fd : ℤ) (count : ℕ) (bytes : List ℕ) (c c' : Client rpc.World)
      → remote_read rpc env fd count c ≡ ok (minus_one, bytes, c')
      → lookup fd c'.fd_map ≡ none
  unfolding remote_read
  read_fails-lookup fd count bytes c c' e = elim (Option-cases (lookup fd c.fd_map)) [
    | inl absent ↦
        let e₁ = rw (absent, remote_read) at e in
        let same : c ≡ c' = cc e₁ in
        ap (λ (d : Client rpc.World). lookup fd d.fd_map) (sym same) ∙ absent
    | inr (path, tracked) ↦
        let e₁ = rw (tracked, remote_read) at e in
        let (host, _, rest) = >>=-eq-ok (hashed_host env path) _ e₁ in
        fetched-lookup host fd count minus_one bytes c c' rest
  ]

  pub pread_fails-lookup :
      (fd : ℤ) (count : ℕ) (offset : ℤ) (bytes : List ℕ) (c c' : Client rpc.World)
      → remote_pread rpc env fd count offset c ≡ ok (minus_one, bytes, c')
      → lookup fd c'.fd_map ≡ none
  unfolding remote_pread
  pread_fails-lookup fd count offset bytes c c' e = elim (Option-cases (lookup fd c.fd_map)) [
    | inl absent ↦
        let e₁ = rw (absent, remote_pread) at e in
        let same : c ≡ c' = cc e₁ in
        ap (λ (d : Client rpc.World). lookup fd d.fd_map) (sym same) ∙ absent
    | inr (path, tracked) ↦
        let e₁ = rw (tracked, remote_pread) at e in
        let ((hostname, host), _, e₂) = >>=-eq-ok (ring_host env path c) _ e₁ in
        let ((gone, c₁), _, e₃) = >>=-eq-ok (check_failure env hostname host c) _ e₂ in
        elim (Bool-cases gone) [
          | inl dropped ↦ dropped-lookup fd bytes c₁ c' (rw dropped at e₃)
          | inr kept ↦ fetched-lookup host fd count offset bytes c₁ c' (rw kept at e₃)
        ]
  ]

  untrack_failed-kept :
      (fd r r' : ℤ) (bytes bytes' : List ℕ) (c c' : Client rpc.World)
      → untrack_failed rpc env fd (r, bytes, c) ≡ (r', bytes', c')
      → r' ≢ minus_one
      → c ≡ c'
  unfolding untrack_failed
  untrack_failed-kept fd r r' bytes bytes' c c' e good = elim (Bool-cases (int_beq r minus_one)) [
    | inl bad ↦
        let e₁ = rw bad at e in
        let same : r ≡ r' = cc e₁ in
        let lost = (int_beq_iff r minus_one).0 bad in absurd (good (sym same ∙ lost))
    | inr fine ↦ let e₁ = rw fine at e in cc e₁
  ]

  -- A read that returned something other than -1 leaves the tracked descriptors alone.
  pub read_served-fd_map :
      (fd r : ℤ) (count : ℕ) (bytes : List ℕ) (c c' : Client rpc.World)
      → remote_read rpc env fd count c ≡ ok (r, bytes, c')
      → r ≢ minus_one
      → c'.fd_map ≡ c.fd_map
  unfolding remote_read
  read_served-fd_map fd r count bytes c c' e good = elim (Option-cases (lookup fd c.fd_map)) [
    | inl absent ↦
        let e₁ = rw (absent, remote_read) at e in
        let same : c ≡ c' = cc e₁ in ap (λ (d : Client rpc.World). d.fd_map) (sym same)
    | inr (path, tracked) ↦
        let e₁ = rw (tracked, remote_read) at e in
        let (host, _, rest) = >>=-eq-ok (hashed_host env path) _ e₁ in
        let ((r₁, bytes₁, c₁), fetched, done) =
          >>=-eq-ok (remote_fetch rpc env host fd count minus_one c) _ rest in
        let same = untrack_failed-kept fd r₁ r bytes₁ bytes c₁ c' (cc done) good in
        let kept = remote_fetch-Keeps rpc env host fd count minus_one c c₁ r₁ bytes₁ fetched in
        ap (λ (d : Client rpc.World). d.fd_map) (sym same) ∙ kept.files
  ]

  -- After a read that returned -1 the descriptor is not tracked, and further reads and `pread`s of
  -- it return -1 at once, with no remote call.
  pub remote_read_fails :
      (fd : ℤ) (count : ℕ) (bytes : List ℕ) (c c' : Client rpc.World)
      → remote_read rpc env fd count c ≡ ok (minus_one, bytes, c')
      → FallsBack fd c'
  remote_read_fails fd count bytes c c' e =
      FallsBack-of_untracked fd c' (read_fails-lookup fd count bytes c c' e)

  -- After a `pread` that returned -1, whether the server failed or the host was dropped, the
  -- descriptor is not tracked, and further reads and `pread`s of it return -1 at once, with no
  -- remote call.
  pub remote_pread_fails :
      (fd : ℤ) (count : ℕ) (offset : ℤ) (bytes : List ℕ) (c c' : Client rpc.World)
      → remote_pread rpc env fd count offset c ≡ ok (minus_one, bytes, c')
      → FallsBack fd c'
  remote_pread_fails fd count offset bytes c c' e =
      FallsBack-of_untracked fd c' (pread_fails-lookup fd count offset bytes c c' e)
