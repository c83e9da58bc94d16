-- ===== src/Earlier/Launch/Compared.antt =====
-- backup/hvac_server.cpp and hvac_server.cpp: what a start of the earlier and of the later server leaves.
use hvac_checkpoint.Common.{
  ◌≡◌, refl, ap, sym, ◌∙◌, true, false, Option, none, some, List, [], ◌∷◌, ◌++◌, arith,
}
use hvac_checkpoint.Common.Maps.{Map, lookup, insert, lookup-insert, lookup-insert_self}
use hvac_checkpoint.Common.Text.{Text, codes, text_eq, text_beq}
use hvac_checkpoint.Common.Decimal.{to_string}
use hvac_checkpoint.Common.Run.{ok}
use hvac_checkpoint.Common.Int.{to_unsigned}
use hvac_checkpoint.Ports.{print_int, list_addr}
use hvac_checkpoint.Startup.{atoi, server_rank}
use hvac_checkpoint.Launch
use hvac_checkpoint.Launch.{MercurySetup, config_name, content_of, register_rpcs, unlaunched}
use hvac_checkpoint.Launch.Laws.{RegisterLaws}
use hvac_checkpoint.Launch.Registers.{register_rpcs-ServesAll}
use hvac_checkpoint.Launch.Meets.{CanStart, announce_lem, start_registers}
use hvac_checkpoint.Earlier.Launch.{
  Site, pid_file, log_hostinfo, init_comm, append_addr, comm_list_addr, start_comm_server, main,
}

-- The earlier server finds what the later one does, with the job under its own name, and can write its
-- two further files.
pub record SameHost (site : Launch.Site) (old : Site) (jobid : Text) : Type 0 where
  pub same_rank : old.pmi_rank ≡ site.pmi_rank
  pub same_job : old.slurm_job_id ≡ site.slurm_jobid
  pub same_mover : old.mover_created ≡ site.mover_created
  pub same_progress : old.progress_created ≡ site.progress_created
  pub appends : old.can_append (config_name jobid) ≡ true
  pub logs : old.can_append (pid_file true jobid) ≡ true
  pub creates : old.can_write (codes "isThisCreated") ≡ true

-- The two further files are not the file of addresses.
config_name-pid_file : (jobid : Text) → text_beq (pid_file true jobid) (config_name jobid) ≡ false
unfolding config_name
config_name-pid_file jobid = refl

config_name-created : (jobid : Text) → text_beq (codes "isThisCreated") (config_name jobid) ≡ false
unfolding config_name
config_name-created jobid = refl

lookup-insert_apart :
    (name other line : Text) (files : Map Text Text)
    → text_beq name other ≡ false
    → lookup other (insert name line files) ≡ lookup other files
lookup-insert_apart name other line files apart =
    ground (arith, lookup-insert name other line files, apart)

-- The two servers have the same class, count, threads and file of addresses.
pub record Alike {Class : Type 0} (jobid : Text) (s t : Launch.Launch Class) : Type 0 where
  pub class : t.hg_class ≡ s.hg_class
  pub count : t.server_count ≡ s.server_count
  pub mover : t.mover_running ≡ s.mover_running
  pub progress : t.progress_running ≡ s.progress_running
  pub posted : content_of (config_name jobid) t.files ≡ content_of (config_name jobid) s.files

module _ (hg : MercurySetup) (site : Launch.Site) (old : Site) (rank jobid address : Text)
    (can : CanStart hg site rank jobid address) (same : SameHost site old jobid) where
  -- The earlier head of the start, by what it does to the state.
  announce_earlier :
      (s : Launch.Launch hg.Class)
      → (s₁ t : Launch.Launch hg.Class) × (init_comm hg true old
            (record s { mover_running = old.mover_created })
          ≡ ok s₁)
        × (comm_list_addr hg old s₁ ≡ ok t)
        × (t.hg_class ≡ some can.class)
        × (t.mover_running ≡ site.mover_created)
        × (t.progress_running ≡ site.progress_created)
        × (t.server_count ≡ s.server_count)
        × (lookup (config_name jobid) t.files
            ≡ some (list_addr (atoi rank) address (content_of (config_name jobid) s.files)))
  unfolding init_comm log_hostinfo server_rank comm_list_addr append_addr
  announce_earlier s =
      let has_rank = same.same_rank ∙ can.has_rank in
      let has_job = same.same_job ∙ can.has_job in
      let line =
        print_int (atoi rank)
        ++ (b' ' ∷ (old.hostname ++ (b' ' ∷ (to_string old.pid ++ b'\n' ∷ [])))) in
      let name = pid_file true jobid in
      let files₁ = insert name (content_of name s.files ++ line) s.files in
      let s₁ : Launch.Launch hg.Class = record s {
        mover_running = old.mover_created;
        server_rank = atoi rank;
        files = files₁;
        hg_class = some can.class;
        hg_context = hg.context_create can.class;
        hvac_server_rank = atoi rank;
        progress_running = old.progress_created;
      } in
      let posted = list_addr (atoi rank) address (content_of (config_name jobid) files₁) in
      let kept =
        lookup-insert_apart name (config_name jobid) (content_of name s.files ++ line) s.files
          (config_name-pid_file jobid) in
      (
        s₁,
        record s₁ { files = insert (config_name jobid) posted files₁ },
        ground (arith, has_rank, has_job, same.logs, can.initialised),
        ground (arith, has_job, can.printed, same.appends),
        refl,
        same.same_mover,
        same.same_progress,
        refl,
        lookup-insert_self (config_name jobid) posted files₁
            ∙ ap
                (λ (o : Option Text).
                  some (list_addr (atoi rank) address (elim o [ none ↦ [] | some text ↦ text ])))
                kept,
      )

  started_earlier :
      (s s₁ t : Launch.Launch hg.Class) (c c' : hg.Class)
      → init_comm hg true old (record s { mover_running = old.mover_created }) ≡ ok s₁
      → comm_list_addr hg old s₁ ≡ ok t
      → t.hg_class ≡ some c
      → register_rpcs hg c ≡ ok c'
      → start_comm_server hg old s ≡ ok (record t { hg_class = some c' })
  unfolding start_comm_server
  started_earlier s s₁ t c c' begun listed class registered =
      ground (arith, begun, listed, class, registered)

  -- Where Mercury keeps `RegisterLaws`: the later server is started with its count as an argument
  -- where its rank and the job are in the environment, Mercury gives a class and the own address,
  -- without a zero byte, and the job's file of addresses can be written; the earlier one finds the
  -- same, with the job under its own name, and can write its two further files. Then both get to
  -- the loop in which they sleep, with the same calls registered, the same threads and count, and
  -- the same file of addresses.
  pub main-earlier :
      (laws : RegisterLaws hg) (count : Text) (args : List Text) (files : Map Text Text)
      → (s t : Launch.Launch hg.Class) × (Launch.main hg (count ∷ args) site (unlaunched files)
          ≡ ok s)
        × (main hg (count ∷ args) old (unlaunched files) ≡ ok t)
        × Alike jobid s t
  unfolding Launch.main main
  main-earlier laws count args files =
      let s₀ : Launch.Launch hg.Class = record (unlaunched files) {
        server_count = to_unsigned 32 (atoi count);
      } in
      let created = insert (codes "isThisCreated") [] files in
      let t₀ : Launch.Launch hg.Class = record s₀ { files = created } in
      let (s, run, class, mover, progress, servers, posted) =
        announce_lem hg site rank jobid address can s₀ in
      let (t₁, t, begun, listed, class', mover', progress', servers', posted') =
        announce_earlier t₀ in
      let (c, registered, _) = register_rpcs-ServesAll hg laws can.class in
      let kept =
        lookup-insert_apart (codes "isThisCreated") (config_name jobid) [] files
          (config_name-created jobid) in
      let whole : (o o' : Option Text)
          → o ≡ some (list_addr (atoi rank) address (content_of (config_name jobid) files))
          → o' ≡ some (list_addr (atoi rank) address (content_of (config_name jobid) created))
          → o' ≡ o =
        λ o o' e e'.
          e'
          ∙ ap
              (λ (q : Option Text).
                some (list_addr (atoi rank) address (elim q [ none ↦ [] | some text ↦ text ])))
              kept
          ∙ sym e in
      (
        record s { hg_class = some c },
        record t { hg_class = some c },
        start_registers hg site rank jobid address can s₀ s can.class c run class registered,
        ground (
          arith,
          same.creates,
          started_earlier t₀ t₁ t can.class c begun listed class' registered,
        ),
        record {
          class = refl;
          count = servers' ∙ sym servers;
          mover = mover' ∙ sym mover;
          progress = progress' ∙ sym progress;
          posted =
              ap (λ (q : Option Text). elim q [ none ↦ [] | some text ↦ text ])
                (whole _ _ posted posted');
        },
      )
