-- ===== src/Earlier/Agrees.antt =====
-- backup/ and hvac_client.cpp: where the later client does what the earlier one did.
use hvac_checkpoint.Common.{
  ℕ, ◌≡◌, ◌≢◌, refl, sym, ap, ◌∙◌, inl, inr, some, List, Option-cases, Bool-cases,
}
use hvac_checkpoint.Common.Int.{ℤ, pos, minus_one, int_eq, int_beq, int_beq_iff, to_int32}
use hvac_checkpoint.Common.Maps.{lookup, index}
use hvac_checkpoint.Common.Text.{Text}
use hvac_checkpoint.Common.Run.{Run, ok, fault, ◌>>=◌, >>=-eq-ok, map_run, >>=-follows}
use hvac_checkpoint.Ports.{lookup_addr}
use hvac_checkpoint.Client.{Client, Rpc, Env, Reply, answered, late, garbled, failed, silent}
use hvac_checkpoint.Client.Calls.{server_address, remote_fetch, finish_read, read_cb, read_block}
use hvac_checkpoint.Client.Remote.{
  hashed_host, ring_host, untrack_failed, remote_read, remote_pread,
}
use hvac_checkpoint.Client.Invariant.{IsConsistent}
use hvac_checkpoint.Client.Operations.{HasServerCount, remote_pread_lem}
use hvac_checkpoint.Earlier
use hvac_checkpoint.Earlier.Calls
use hvac_checkpoint.Earlier.Remote

-- The earlier servers behind the later messages: what these say for the log is not looked at.
abbrev pub upgraded : Earlier.Rpc → Rpc
upgraded old = record {
  World = old.World;
  open_rpc = λ address inp w. old.open_rpc address (record { path = inp.path }) w;
  read_rpc = λ address inp w.
      old.read_rpc address
        (record { input_val = inp.input_val; accessfd = inp.accessfd; offset = inp.offset }) w;
  close_rpc = λ address inp w. old.close_rpc address (record { fd = inp.fd }) w;
  seek_rpc = λ address inp w.
      old.seek_rpc address (record { fd = inp.fd; offset = inp.offset; whence = inp.whence }) w;
}

-- The earlier client's part of the state.
abbrev pub forget : {World : Type 0} → Client World → Earlier.Client World
forget c = record {
  world = c.world;
  fd_map = c.fd_map;
  fd_redir_map = c.fd_redir_map;
  mercury_init = c.mercury_init;
  address_cache = c.address_cache;
}

-- The reply does not come after the time limit of the earlier version's wait.
unfoldable pub IsPrompt : {A : Type 0} → Reply A → Type 0
IsPrompt {A} reply = (a : A) → reply ≢ late a

-- A read that returns something other than -1, in time, returned the same with the shared flag.
finish_read-earlier :
    (reply : Reply (ℤ × List ℕ)) (r : ℤ) (bytes : List ℕ)
    → IsPrompt reply
    → finish_read reply ≡ ok (r, bytes)
    → r ≢ minus_one
    → Calls.finish_read reply ≡ ok (r, bytes)
unfolding IsPrompt Calls.finish_read finish_read read_cb read_block Calls.read_cb Calls.read_block
finish_read-earlier (answered (r', bs)) r bytes prompt e good = e
finish_read-earlier (late a) r bytes prompt e good = absurd (prompt a refl)
finish_read-earlier garbled r bytes prompt e good = absurd (good (cc e))
finish_read-earlier failed r bytes prompt e good = absurd (cc e)
finish_read-earlier silent r bytes prompt e good = absurd (cc e)

abbrev forget_answer : {A World : Type 0} → A × Client World → A × Earlier.Client World
forget_answer (a, c) = (a, forget c)

server_address-earlier :
    {World : Type 0} (env : Env) (host : ℤ) (c : Client World)
    → Calls.server_address env host (forget c) ≡ map_run forget_answer (server_address env host c)
unfolding server_address Calls.server_address
server_address-earlier env host c =
    elim (Option-cases (lookup_addr host env.ports c.address_cache).0) [
      | inl absent ↦ rw (absent, server_address, Calls.server_address) refl
      | inr (address, found) ↦ rw (found, server_address, Calls.server_address) refl
    ]

-- No server answers a read too late.
abbrev pub AnswersInTime : Earlier.Rpc → Type 0
AnswersInTime old =
    (address : Text) (inp : Earlier.RpcIn) (w : old.World) → IsPrompt (old.read_rpc address inp w).0

module _ (old : Earlier.Rpc) (env : Env) (in_time : AnswersInTime old) where
  abbrev forget_read : ℤ × List ℕ × Client old.World → ℤ × List ℕ × Earlier.Client old.World
  forget_read (r, bytes, c) = (r, bytes, forget c)

  abbrev returned : Run (ℤ × List ℕ × Client old.World) → ℤ
  returned (ok t) = t.0
  returned (fault how) = pos 0

  remote_fetch-earlier :
      (host fd : ℤ) (count : ℕ) (offset : ℤ) (c : Client old.World)
      (t : ℤ × List ℕ × Client old.World)
      → remote_fetch (upgraded old) env host fd count offset c ≡ ok t
      → t.0 ≢ minus_one
      → Calls.remote_fetch old env host fd count offset (forget c) ≡ ok (forget_read t)
  unfolding remote_fetch Calls.remote_fetch
  remote_fetch-earlier host fd count offset c t e good =
      >>=-follows forget_answer (server_address env host c) _ _ _ t (forget_read t) e
        λ (address, c₁) found rest. (
          server_address-earlier env host c ∙ ap (map_run forget_answer) found,
          (let inp : Earlier.RpcIn = record {
            input_val = to_int32 (pos count);
            accessfd = (index fd (pos 0) c₁.fd_redir_map).0;
            offset = offset;
          } in
              let reply = (old.read_rpc address inp c₁.world).0 in
              >>=-follows (λ v. v) (finish_read reply) _ (Calls.finish_read reply) _ t
                (forget_read t) rest
                λ (r, bytes) read_back last. (
                  finish_read-earlier reply r bytes (in_time address inp c₁.world) read_back
                      (λ bad. good (cc (last, bad))),
                  ap (map_run forget_read) last,
                )),
        )

  untrack_failed-same :
      (fd : ℤ) (t₁ t : ℤ × List ℕ × Client old.World)
      → untrack_failed (upgraded old) env fd t₁ ≡ t
      → t.0 ≢ minus_one
      → t₁ ≡ t
  unfolding untrack_failed
  untrack_failed-same fd (r, bytes, c) t e good = elim (Bool-cases (int_beq r minus_one)) [
    | inl bad ↦
        let lost : r ≡ minus_one = (int_beq_iff r minus_one).0 bad in
        absurd (good (ap (λ (x : ℤ × List ℕ × Client old.World). x.0) (sym (rw bad at e)) ∙ lost))
    | inr fine ↦ rw fine at e
  ]

  fetch-earlier :
      (host fd : ℤ) (count : ℕ) (offset : ℤ) (c : Client old.World)
      (t : ℤ × List ℕ × Client old.World)
      → (remote_fetch (upgraded old) env host fd count offset c >>= λ r.
          ok (untrack_failed (upgraded old) env fd r))
        ≡ ok t
      → t.0 ≢ minus_one
      → Calls.remote_fetch old env host fd count offset (forget c) ≡ ok (forget_read t)
  fetch-earlier host fd count offset c t e good =
      let (t₁, fetched, last) =
        >>=-eq-ok (remote_fetch (upgraded old) env host fd count offset c) _ e in
      let same = untrack_failed-same fd t₁ t (cc last) good in
      remote_fetch-earlier host fd count offset c t (rw (← same) fetched) good

  -- A read that returns something other than -1, where no server answers too late, returns what the earlier version returns, from the
  -- same state, with the same servers.
  pub remote_read-earlier :
      (fd : ℤ) (count : ℕ) (c : Client old.World) (t : ℤ × List ℕ × Client old.World)
      → remote_read (upgraded old) env fd count c ≡ ok t
      → t.0 ≢ minus_one
      → Remote.remote_read old env fd count (forget c) ≡ ok (forget_read t)
  unfolding remote_read hashed_host Remote.remote_read Remote.hashed_host
  remote_read-earlier fd count c t e good = elim (Option-cases (lookup fd c.fd_map)) [
    | inl absent ↦ absurd (good (sym (ap returned (rw (absent, remote_read) at e))))
    | inr (path, tracked) ↦
        let e' = rw (tracked, remote_read) at e in
        rw (tracked, Remote.remote_read)
          (>>=-follows (λ h. h) (hashed_host env path) _ (hashed_host env path) _ t (forget_read t)
            e' λ host found rest. (found, fetch-earlier host fd count minus_one c t rest good))
  ]

  -- In a consistent state of a client with at least one server and fewer than 2^31, where no server
  -- answers a read after the time limit of the earlier version, and the ring gives the server that
  -- the hash gives for the file of a descriptor: a `pread` of it that returns
  -- something other than -1 returns what the earlier version returns, from the same state, with the
  -- same servers.
  pub remote_pread-earlier :
      (counted : HasServerCount env) (fd : ℤ) (count : ℕ) (offset host : ℤ) (path hostname : Text)
      (c : Client old.World) (t : ℤ × List ℕ × Client old.World)
      → IsConsistent env c
      → lookup fd c.fd_map ≡ some path
      → ring_host env path c ≡ ok (hostname, host)
      → hashed_host env path ≡ ok host
      → remote_pread (upgraded old) env fd count offset c ≡ ok t
      → t.0 ≢ minus_one
      → Remote.remote_pread old env fd count offset (forget c) ≡ ok (forget_read t)
  unfolding Remote.remote_pread Remote.hashed_host hashed_host
  remote_pread-earlier counted fd count offset host path hostname c t v tracked routed hashed e
        good =
      let (hostname', n, lt, found, served) =
        remote_pread_lem (upgraded old) env counted fd count offset path c v tracked in
      let same : pos n ≡ host = cc (found, routed) in
      let fetched = fetch-earlier (pos n) fd count offset c t (sym served ∙ e) good in
      let hashed' : Remote.hashed_host env path ≡ ok (pos n) =
        hashed ∙ ap (λ (z : ℤ). ok z) (sym same) in
      rw (tracked, Remote.remote_pread)
        (ap
            (λ (h : Run ℤ).
              h >>= λ host'. Calls.remote_fetch old env host' fd count offset (forget c))
            hashed'
          ∙ fetched)
