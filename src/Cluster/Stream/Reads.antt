-- ===== src/Cluster/Stream/Reads.antt =====
-- hvac_client.cpp to hvac_comm.cpp: one read of an open file, and what is left after it.
use hvac_checkpoint.Common.{
  ℕ, ◌≤◌, ◌<◌, ◌^◌, ◌%◌, ◌≡◌, refl, sym, ap, ◌∙◌, some, List, [], arith, take, drop, length, inl,
  inr, Option-cases,
}
use hvac_checkpoint.Common.Int.{
  ℤ, pos, minus_one, int_eq, int_beq_iff, to_int32, to_int32_fits, to_unsigned,
}
use hvac_checkpoint.Common.Maps.{Map, lookup, insert, lookup-insert}
use hvac_checkpoint.Common.Text.{Text}
use hvac_checkpoint.Common.Run.{ok}
use mathlib.Core.Path.{subst}
use hvac_checkpoint.Posix.{Posix, ReadLaws}
use hvac_checkpoint.Ports.{lookup_addr, find_address}
use hvac_checkpoint.Server.{Server, HgCalls}
use hvac_checkpoint.Server.Read.{log_path}
use hvac_checkpoint.Server.Read.Laws.{served}
use hvac_checkpoint.Server.Cache.{FileLaws}
use hvac_checkpoint.Client.{Client, Env, answered}
use hvac_checkpoint.Client.Remote.{remote_read}
use hvac_checkpoint.Client.Serving.{request, remote_read-answered}
use hvac_checkpoint.Cluster.{Cluster, cluster, replace}
use hvac_checkpoint.Cluster.Reading.{lookup_addr-again, server_address-found, reads_remotely}
use hvac_checkpoint.Cluster.Content.{lookup_addr-cached, replace-same}
use hvac_checkpoint.Cluster.Stream.{StreamLaws, NothingFails, Stands}

-- What is found in the file of addresses is found after another search too.
pub lookup_addr-other :
    (rank other : ℤ) (file address : Text) (cache : Map ℤ Text)
    → (lookup_addr other file cache).0 ≡ some address
    → (lookup_addr other file (lookup_addr rank file cache).1).0 ≡ some address
unfolding lookup_addr
lookup_addr-other rank other file address cache e =
    let kept : (m : Map ℤ Text)
        → (lookup_addr rank file cache).1 ≡ m
        → (lookup_addr other file m).0 ≡ some address
        → (lookup_addr other file (lookup_addr rank file cache).1).0 ≡ some address =
      λ m same found.
        subst (λ (t : Map ℤ Text). (lookup_addr other file t).0 ≡ some address) (sym same) found in
    elim (Option-cases (lookup rank cache)) [
      | inr (a, cached) ↦ kept cache (rw (cached, lookup_addr) refl) e
      | inl absent ↦ elim (Option-cases (find_address rank file)) [
        | inl nowhere ↦ kept cache (rw (absent, lookup_addr, nowhere) refl) e
        | inr (a, there) ↦ kept (insert rank a cache) (rw (absent, lookup_addr, there) refl) (
            ground
              (arith, absent, there, int_beq_iff rank other, lookup-insert rank other a cache, e))
      ]
    ]

module _ (os : Posix) (reads : ReadLaws os) (files : FileLaws os) (streams : StreamLaws os files)
    (hg : HgCalls) (env : Env) (fine : NothingFails os files streams hg)
    (servers : 0 < env.server_count) where
  -- A read of a descriptor by `read`, at the server.
  served-read :
      (fd remote : ℤ) (count : ℕ) (s : Server os.Fs)
      → count < 2 ^ 31
      → served os (request env fd remote count minus_one) s ≡ os.read_file remote count s.fs
  served-read fd remote count s small =
      let size : to_unsigned 64 (to_int32 (pos count)) ≡ count =
        rw (to_int32_fits (pos count) (omega arith, omega arith)) (omega arith) in
      rw size refl

  read_size :
      (fd : ℤ) (count k : ℕ) (fs : os.Fs)
      → (os.read_file fd count fs).0 ≡ pos k
      → (k ≤ count) × (length (os.read_file fd count fs).1 ≡ k)
  read_size fd count k fs got = elim (reads.read_result fd count fs) [
    | inl (bad, _) ↦ absurd (cc (got, bad))
    | inr (n, good, le, len) ↦
        let same : n ≡ k = cc (got, good) in (omega (arith, le, same), omega (arith, len, same))
  ]

  -- The servers and the client after a read.
  abbrev pub world_after : Text → ℕ → os.Fs → Client (Cluster os) → Cluster os
  world_after address d fs c =
      replace address (log_path (pos d) (record (c.world address) { fs = fs })) c.world

  unfoldable pub after_read : Text → Text → ℕ → ℕ → Client (Cluster os) → Client (Cluster os)
  after_read real address d count c = record c {
    address_cache =
        (lookup_addr (to_int32 (pos (env.hash real % env.server_count))) env.ports
          c.address_cache).1;
    world = world_after address d (os.read_file (pos d) count (c.world address).fs).2 c;
  }

  pub read_step :
      (fd : ℤ) (real address : Text) (d count : ℕ) (left : List ℕ) (c : Client (Cluster os))
      → Stands os files streams env fd real address d left c
      → count < 2 ^ 31
      → (k : ℕ) × (k ≤ count)
        × (length (take k left) ≡ k)
        × ((os.read_file (pos d) count (c.world address).fs).0 ≡ pos k)
        × (remote_read (cluster os hg) env fd count c
            ≡ ok (pos k, take k left, after_read real address d count c))
  unfolding after_read
  read_step fd real address d count left c st small =
      let rpc = cluster os hg in
      let s = c.world address in
      let inp = request env fd (pos d) count minus_one in
      let (k, got) = fine.reads (pos d) count s.fs left st.left_there in
      let (head, _) = streams.read_left (pos d) count k s.fs left st.left_there got in
      let (le, len) = read_size (pos d) count k s.fs got in
      let same = served-read fd (pos d) count s small in
      let pushed =
        reads_remotely os hg reads fine.set_up inp address c.world k
          (ap (λ (t : ℤ × List ℕ × os.Fs). t.0) same ∙ got) (omega (arith, le, small))
          (fine.transferred k) in
      let answer =
        pushed
        ∙ ap (λ (t : ℤ × List ℕ × os.Fs). (answered (pos k, t.1), world_after address d t.2 c)) same
        ∙ ap
            (λ (bytes : List ℕ). (
              answered (pos k, bytes),
              world_after address d (os.read_file (pos d) count s.fs).2 c,
            ))
            head in
      (
        k,
        le,
        rw (← head) len,
        got,
        remote_read-answered rpc env fd (pos d) (pos k) count real address (take k left) c _ _
            servers st.tracked (server_address-found env _ address c st.known) st.redirected answer
            (λ e. absurd (cc e)),
      )

  -- After the read, the rest is left.
  pub after_read-moves :
      (fd : ℤ) (real address : Text) (d count k : ℕ) (left : List ℕ) (c : Client (Cluster os))
      → Stands os files streams env fd real address d left c
      → (os.read_file (pos d) count (c.world address).fs).0 ≡ pos k
      → Stands os files streams env fd real address d
          (drop k left)
          (after_read real address d count c)
  unfolding after_read
  after_read-moves fd real address d count k left c st got =
      let s = c.world address in
      record {
        tracked = st.tracked;
        redirected = st.redirected;
        known =
            lookup_addr-cached _ env.ports address _
              (lookup_addr-again _ env.ports address c.address_cache st.known);
        left_there =
            subst (λ (t : Server os.Fs). streams.Left t.fs (pos d) (drop k left))
              (sym (replace-same address _ c.world))
              (streams.read_left (pos d) count k s.fs left st.left_there got).1;
      }

  -- Where nothing fails on the way and there is a server: a read of fewer than 2^31 bytes of a tracked
  -- descriptor whose server's descriptor has `left` to read returns the first `k` bytes of it, for a
  -- `k` up to the count, and leaves the descriptor with the rest.
  pub remote_read-Stands :
      (fd : ℤ) (real address : Text) (d count : ℕ) (left : List ℕ) (c : Client (Cluster os))
      → Stands os files streams env fd real address d left c
      → 0 < count
      → count < 2 ^ 31
      → (k : ℕ) × (c' : Client (Cluster os)) × (k ≤ count)
        × (length (take k left) ≡ k)
        × (k ≡ 0 → left ≡ [])
        × (remote_read (cluster os hg) env fd count c ≡ ok (pos k, take k left, c'))
        × Stands os files streams env fd real address d (drop k left) c'
  remote_read-Stands fd real address d count left c st some_bytes small =
      let (k, le, len, got, run) = read_step fd real address d count left c st small in
      let s = c.world address in
      (
        k,
        after_read real address d count c,
        le,
        len,
        (λ zero_read.
            streams.read_end (pos d) count s.fs left st.left_there some_bytes
              (got ∙ ap pos zero_read)),
        run,
        after_read-moves fd real address d count k left c st got,
      )
