-- ===== src/Cluster/Stream/Whole.antt =====
-- wrappers.c to hvac_comm.cpp: a process that opens a file and reads it until a read finds nothing.
use hvac_checkpoint.Common.{
  ℕ, zero, suc, ◌<◌, ◌^◌, ◌%◌, ◌≡◌, ◌≢◌, refl, sym, ap, ◌∙◌, false, some, List, [], ◌++◌, arith,
  take, drop, length, take-drop, length-append,
}
use hvac_checkpoint.Common.Int.{ℤ, pos, minus_one, int_eq, int_beq, int_beq_iff, to_int32}
use hvac_checkpoint.Common.Text.{Text, codes, c_str}
use hvac_checkpoint.Common.Run.{ok}
use mathlib.Core.Path.{subst}
use hvac_checkpoint.Posix.{Posix, ReadLaws}
use hvac_checkpoint.Ports.{lookup_addr}
use hvac_checkpoint.Server.{HgCalls}
use hvac_checkpoint.Server.Files.{redirect}
use hvac_checkpoint.Server.Cache.{FileLaws, IsFaithful, redirect-content_of_IsFaithful}
use hvac_checkpoint.Client.{Env, Rpc}
use hvac_checkpoint.Client.Track.{wants_tracking}
use hvac_checkpoint.Cluster.{Cluster, cluster}
use hvac_checkpoint.Cluster.Content.{track_file-opens}
use hvac_checkpoint.Cluster.Stream.{StreamLaws, NothingFails, Stands}
use hvac_checkpoint.Cluster.Stream.Reads.{remote_read-Stands}
use hvac_checkpoint.Wrappers.{Libc, Process, is_off, map_or_fail, passed_mode, open_file, read}
use hvac_checkpoint.Wrappers.Plain.{HasSymbols}
use hvac_checkpoint.Wrappers.Served.{read-remote_read}

module _ (lc : Libc) (rpc : Rpc) (env : Env) (fd : ℤ) (count : ℕ) where
  -- A process that calls `read` with one count until it returns 0, and the bytes it has got.
  pub data ReadsToEnd
      : Process lc.Local rpc.World → List ℕ → Process lc.Local rpc.World → Type 0 where
    ends :
        {p p' : Process lc.Local rpc.World}
        → read lc rpc env fd count p ≡ ok (pos 0, [], p')
        → ReadsToEnd p [] p'
    goes_on :
        {p p' p'' : Process lc.Local rpc.World} (k : ℕ) (bytes rest : List ℕ)
        → read lc rpc env fd count p ≡ ok (pos (suc k), bytes, p')
        → ReadsToEnd p' rest p''
        → ReadsToEnd p (bytes ++ rest) p''

module _ (lc : Libc) (os : Posix) (reads : ReadLaws os) (files : FileLaws os)
    (streams : StreamLaws os files) (hg : HgCalls) (env : Env) (symbols : HasSymbols lc)
    (fine : NothingFails os files streams hg) (servers : 0 < env.server_count) where
  -- A process that gets all that is left, from where it is, with its local files as they are.
  abbrev Finishes : ℤ → ℕ → List ℕ → Process lc.Local (Cluster os) → Type 0
  Finishes fd count left p =
      (p' : Process lc.Local (Cluster os)) × ReadsToEnd lc (cluster os hg) env fd count p left p'
      × (p'.local ≡ p.local)

  finish_read :
      (fd : ℤ) (count k : ℕ) (left : List ℕ) (p p₁ : Process lc.Local (Cluster os))
      → p₁.local ≡ p.local
      → length (take k left) ≡ k
      → (k ≡ 0 → left ≡ [])
      → read lc (cluster os hg) env fd count p ≡ ok (pos k, take k left, p₁)
      → (length (drop k left) < length left → Finishes fd count (drop k left) p₁)
      → Finishes fd count left p
  finish_read fd count zero left p p₁ same len last run rest = (
    p₁,
    subst (λ (bytes : List ℕ). ReadsToEnd lc (cluster os hg) env fd count p bytes p₁)
        (sym (last refl)) (ends run),
    same,
  )
  finish_read fd count (suc k) left p p₁ same len last run rest =
      let whole = take-drop (suc k) left in
      let (p₂, more, same₂) = rest (
        omega
          (arith, ap length whole, length-append (take (suc k) left) (drop (suc k) left), len)) in
      (
        p₂,
        subst (λ (bytes : List ℕ). ReadsToEnd lc (cluster os hg) env fd count p bytes p₂) whole
            (goes_on k (take (suc k) left) (drop (suc k) left) run more),
        same₂ ∙ same,
      )

  reads_to_end :
      (fuel : ℕ) (fd : ℤ) (real address : Text) (d count : ℕ) (left : List ℕ)
      (p : Process lc.Local (Cluster os))
      → length left < fuel
      → 0 < count
      → count < 2 ^ 31
      → Stands os files streams env fd real address d left p.client
      → Finishes fd count left p
  reads_to_end zero fd real address d count left p enough some_bytes small st = absurd (omega arith)
  reads_to_end (suc fuel) fd real address d count left p enough some_bytes small st =
      let (k, c, le, len, last, run, st') =
        remote_read-Stands os reads files streams hg env fine servers fd real address d count left
          p.client st some_bytes small in
      let p₁ : Process lc.Local (Cluster os) = record p { client = c } in
      let got =
        read-remote_read lc (cluster os hg) env fd count k (take k left) p c symbols
          (omega (arith, le, small)) run in
      finish_read fd count k left p p₁ refl len last got (λ less.
        reads_to_end fuel fd real address d count (drop k left) p₁ (omega (arith, less, enough))
          some_bytes small st')

  -- Where every call of the C library is found, the system keeps `ReadLaws`, `FileLaws` and
  -- `StreamLaws`, nothing fails on the way, and there is a server: a process opens a file with the
  -- redirection on, the C library opens it, the file is one to be tracked, and the server that the
  -- hash of its path gives has a known address, a faithful cache and the content of the file, and
  -- opens it with a descriptor below 2^31. Then the open returns the descriptor of the C library,
  -- and a process that calls `read` with any count from 1 to 2^31 - 1 until it returns 0 comes to
  -- that end, has then got exactly the content of the file, and has left the C library as it was
  -- after the open.
  pub open_file-ReadsToEnd :
      (path real address : Text) (fd mode : ℤ) (flags count d : ℕ) (bytes : List ℕ) (fs : os.Fs)
      (p : Process lc.Local (Cluster os)) (local : lc.Local)
      → is_off p ≡ false
      → lc.real_open path flags (passed_mode false flags mode) p.local ≡ (fd, local)
      → fd ≢ minus_one
      → wants_tracking env path flags ≡ some real
      → (lookup_addr
          (to_int32 (pos (env.hash real % env.server_count)))
          env.ports
          p.client.address_cache).0
        ≡ some address
      → IsFaithful os files (p.client.world address)
      → files.content (c_str real) (p.client.world address).fs ≡ some bytes
      → os.open_file
          (redirect (c_str real) (p.client.world address).path_cache_map)
          0
          (p.client.world address).fs
        ≡ (pos d, fs)
      → d < 2 ^ 31
      → 0 < count
      → count < 2 ^ 31
      → (p₁ p₂ : Process lc.Local (Cluster os)) × (open_file lc
            (cluster os hg)
            env
            path
            flags
            mode
            p
          ≡ ok (fd, p₁))
        × ReadsToEnd lc (cluster os hg) env fd count p₁ bytes p₂
        × (p₂.local ≡ local)
  unfolding open_file map_or_fail
  open_file-ReadsToEnd path real address fd mode flags count d bytes fs p local on opened valid
        wanted known faithful has there small_d some_bytes small =
      let (c₁, tracks, tracked, redirected, known₁, after) =
        track_file-opens os hg env p.client path real address fd flags d fs fine.set_up servers
          wanted known there small_d in
      let p₁ : Process lc.Local (Cluster os) = record p { local = local; client = c₁ } in
      let s = p.client.world address in
      let copy = redirect (c_str real) s.path_cache_map in
      let cached = redirect-content_of_IsFaithful os files (c_str real) s faithful ∙ has in
      let left = streams.open_left copy s.fs d bytes cached (ap (λ (t : ℤ × os.Fs). t.0) there) in
      let st : Stands os files streams env fd real address d bytes c₁ = record {
        tracked = tracked;
        redirected = redirected;
        known = known₁;
        left_there =
            subst (λ (f : os.Fs). streams.Left f (pos d) bytes)
              (ap (λ (t : ℤ × os.Fs). t.1) there ∙ sym after) left;
      } in
      let (p₂, all, same) =
        reads_to_end (suc (length bytes)) fd real address d count bytes p₁ (omega arith) some_bytes
          small st in
      let good : int_beq fd minus_one ≡ false = ground (arith, int_beq_iff fd minus_one) in
      (p₁, p₂, ground (arith, symbols (codes "open"), on, opened, good, tracks), all, same)
