-- ===== src/Cluster/Stream/Apart.antt =====
-- hvac_client.cpp to hvac_comm.cpp: reads of several descriptors of a client, in any order.
use hvac_checkpoint.Common.{
  ℕ, ◌<◌, ◌^◌, ◌≡◌, ◌≢◌, refl, sym, ap, ◌∙◌, List, [], ◌++◌, take, drop, take-drop, append_assoc,
  Bool-cases, inl, inr,
}
use hvac_checkpoint.Common.Int.{ℤ, pos}
use hvac_checkpoint.Common.Text.{Text, text_beq, text_beq_iff}
use hvac_checkpoint.Common.Run.{ok}
use mathlib.Core.Path.{subst}
use hvac_checkpoint.Posix.{Posix, ReadLaws}
use hvac_checkpoint.Server.{HgCalls}
use hvac_checkpoint.Server.Cache.{FileLaws}
use hvac_checkpoint.Client.{Client, Env}
use hvac_checkpoint.Client.Remote.{remote_read}
use hvac_checkpoint.Cluster.{Cluster, cluster}
use hvac_checkpoint.Cluster.Stream.{StreamLaws, NothingFails, Stands}
use hvac_checkpoint.Cluster.Stream.Reads.{
  lookup_addr-other, after_read, read_step, after_read-moves,
}

-- A file that the client has open: its descriptor, its path, and the server's address and descriptor.
pub record OpenFile : Type 0 where
  pub fd : ℤ
  pub real : Text
  pub address : Text
  pub remote : ℕ

-- Two files do not share a descriptor of one server.
abbrev pub Apart : OpenFile → OpenFile → Type 0
Apart a b = a.address ≡ b.address → a.remote ≢ b.remote

module _ (os : Posix) (reads : ReadLaws os) (files : FileLaws os) (streams : StreamLaws os files)
    (hg : HgCalls) (env : Env) (fine : NothingFails os files streams hg)
    (servers : 0 < env.server_count) where
  abbrev pub HasLeft : OpenFile → List ℕ → Client (Cluster os) → Type 0
  HasLeft f left c = Stands os files streams env f.fd f.real f.address f.remote left c

  -- A read of one file leaves the other where it is.
  after_read-HasLeft :
      (f g : OpenFile) (count : ℕ) (left : List ℕ) (c : Client (Cluster os))
      → Apart f g
      → HasLeft g left c
      → HasLeft g left
          (after_read os reads files streams hg env fine servers f.real f.address f.remote count c)
  unfolding after_read
  after_read-HasLeft f g count left c apart st = record {
    tracked = st.tracked;
    redirected = st.redirected;
    known = lookup_addr-other _ _ env.ports g.address c.address_cache st.known;
    left_there = elim (Bool-cases (text_beq g.address f.address)) [
      | inl same ↦
          let here = (text_beq_iff g.address f.address).0 same in
          rw same (
            streams.read_other (pos f.remote) (pos g.remote) count (c.world f.address).fs left
              (λ e. apart (sym here) (cc e))
              (subst (λ (a : Text). streams.Left (c.world a).fs (pos g.remote) left) here
                st.left_there))
      | inr other ↦ rw other st.left_there
    ];
  }

  -- What a read gives of one file, and that it leaves both files as they should be.
  read_one :
      (f g : OpenFile) (count : ℕ) (left left' : List ℕ) (c c' : Client (Cluster os)) (r : ℤ)
      (bytes : List ℕ)
      → Apart f g
      → HasLeft f left c
      → HasLeft g left' c
      → 0 < count
      → count < 2 ^ 31
      → remote_read (cluster os hg) env f.fd count c ≡ ok (r, bytes, c')
      → (rest : List ℕ) × (bytes ++ rest ≡ left) × HasLeft f rest c' × HasLeft g left' c'
  read_one f g count left left' c c' r bytes apart st st' some_bytes small run =
      let (k, le, len, got, run₁) =
        read_step os reads files streams hg env fine servers f.fd f.real f.address f.remote count
          left c st small in
      let c₁ =
        after_read os reads files streams hg env fine servers f.real f.address f.remote count c in
      let same : c₁ ≡ c' = cc (run, run₁) in
      let head : take k left ≡ bytes = cc (run, run₁) in
      (
        drop k left,
        ap (λ (b : List ℕ). b ++ drop k left) (sym head) ∙ take-drop k left,
        subst (HasLeft f (drop k left)) same (
            after_read-moves os reads files streams hg env fine servers f.fd f.real f.address
              f.remote count k left c st got),
        subst (HasLeft g left') same (after_read-HasLeft f g count left' c apart st'),
      )

  -- Reads of two files of a client in any order, with the bytes that each file has given.
  pub data ReadsBoth (f g : OpenFile)
      : Client (Cluster os) → List ℕ → List ℕ → Client (Cluster os) → Type 0 where
    stops : (c : Client (Cluster os)) → ReadsBoth f g c [] [] c
    reads_first :
        {c c' c'' : Client (Cluster os)} {got got' : List ℕ} (count : ℕ) (r : ℤ) (bytes : List ℕ)
        → 0 < count
        → count < 2 ^ 31
        → remote_read (cluster os hg) env f.fd count c ≡ ok (r, bytes, c')
        → ReadsBoth f g c' got got' c''
        → ReadsBoth f g c (bytes ++ got) got' c''
    reads_second :
        {c c' c'' : Client (Cluster os)} {got got' : List ℕ} (count : ℕ) (r : ℤ) (bytes : List ℕ)
        → 0 < count
        → count < 2 ^ 31
        → remote_read (cluster os hg) env g.fd count c ≡ ok (r, bytes, c')
        → ReadsBoth f g c' got got' c''
        → ReadsBoth f g c got (bytes ++ got') c''

  -- Where the system keeps `ReadLaws`, `FileLaws` and `StreamLaws`, nothing fails on the way, and
  -- there is a server: two files that a client has open, with no descriptor of a server in common,
  -- are read in any order, with counts from 1 to 2^31 - 1. Then what each file has given is a head
  -- of what was left to read of it, and the rest is still left.
  pub ReadsBoth-HasLeft :
      (f g : OpenFile) (left left' got got' : List ℕ) (c c' : Client (Cluster os))
      → Apart f g
      → HasLeft f left c
      → HasLeft g left' c
      → ReadsBoth f g c got got' c'
      → (rest rest' : List ℕ) × (got ++ rest ≡ left)
        × (got' ++ rest' ≡ left')
        × HasLeft f rest c'
        × HasLeft g rest' c'
  ReadsBoth-HasLeft f g left left' _ _ c _ apart st st' (stops _) =
      (left, left', refl, refl, st, st')
  ReadsBoth-HasLeft f g left left' _ _ _ _ apart st st'
        (reads_first {c} {c'} {c''} {got} {got'} count r bytes some_bytes small run more) =
      let (rest, head, st₁, st₁') =
        read_one f g count left left' c c' r bytes apart st st' some_bytes small run in
      let (end, end', whole, whole', last, last') =
        ReadsBoth-HasLeft f g rest left' got got' c' c'' apart st₁ st₁' more in
      (
        end,
        end',
        append_assoc bytes got end ∙ ap (λ (b : List ℕ). bytes ++ b) whole ∙ head,
        whole',
        last,
        last',
      )
  ReadsBoth-HasLeft f g left left' _ _ _ _ apart st st'
        (reads_second {c} {c'} {c''} {got} {got'} count r bytes some_bytes small run more) =
      let (rest, head, st₁', st₁) =
        read_one g f count left' left c c' r bytes (λ here same. apart (sym here) (sym same)) st' st
          some_bytes small run in
      let (end, end', whole, whole', last, last') =
        ReadsBoth-HasLeft f g left rest got got' c' c'' apart st₁ st₁' more in
      (
        end,
        end',
        whole,
        append_assoc bytes got' end' ∙ ap (λ (b : List ℕ). bytes ++ b) whole' ∙ head,
        last,
        last',
      )
