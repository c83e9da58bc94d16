-- ===== src/Earlier/Launch.antt =====
-- backup/hvac_server.cpp and the set-up in backup/hvac_comm.cpp: how the earlier server came to serve.
-- Its registrations are those of the later one.
pub mod Compared
use hvac_checkpoint.Common.{
  ℕ, Bool, true, false, Option, none, some, List, [], ◌∷◌, ◌++◌, if◌then◌else◌,
}
use hvac_checkpoint.Common.Int.{to_unsigned}
use hvac_checkpoint.Common.Maps.{insert}
use hvac_checkpoint.Common.Text.{Text, codes, text_eq}
use hvac_checkpoint.Common.Decimal.{to_string}
use hvac_checkpoint.Common.Run.{Run, ok, fault, exited, undefined, ◌>>=◌}
use hvac_checkpoint.Ports.{print_int, list_addr}
use hvac_checkpoint.Startup.{atoi, server_rank}
use hvac_checkpoint.Launch
use hvac_checkpoint.Launch.{MercurySetup, config_name, content_of, register_rpcs}

-- What the process finds. The job's number is under another name than the one that clients read.
pub record Site : Type 0 where
  pub pmi_rank : Option Text
  pub slurm_job_id : Option Text
  pub hostname : Text
  pub pid : ℕ
  pub mover_created : Bool
  pub progress_created : Bool
  pub can_append : Text → Bool
  pub can_write : Text → Bool

-- `"hvac_" + subject + ".pid." + jobid`
abbrev pub pid_file : Bool → Text → Text
pid_file listen jobid =
    codes "hvac_"
    ++ ((if listen then codes "server" else codes "client") ++ (codes ".pid." ++ jobid))

module _ (hg : MercurySetup) where
  open hg use {Class, init, context_create, self_address}

  -- `log_hostinfo`
  unfoldable pub log_hostinfo : Bool → Site → Launch.Launch Class → Run (Launch.Launch Class)
  log_hostinfo listen site s = elim site.slurm_job_id [
    | none ↦ fault undefined
    | some jobid ↦
        let filename = pid_file listen jobid in
        let line =
          print_int s.server_rank
          ++ (b' ' ∷ (site.hostname ++ (b' ' ∷ (to_string site.pid ++ b'\n' ∷ [])))) in
        if site.can_append filename
        then ok (record s { files = insert filename (content_of filename s.files ++ line) s.files })
        else fault exited
  ]

  -- `hvac_init_comm`, which asks a client for a rank too.
  unfoldable pub init_comm : Bool → Site → Launch.Launch Class → Run (Launch.Launch Class)
  init_comm listen site s = do
    rank ← server_rank site.pmi_rank
    s' ← log_hostinfo listen site (record s { server_rank = rank })
    let hg_class = init (codes "ofi+verbs://") listen
    ok (record s' {
      hg_class = hg_class;
      hg_context = elim hg_class [ none ↦ false | some c ↦ context_create c ];
      hvac_server_rank = if listen then rank else s'.hvac_server_rank;
      progress_running = site.progress_created;
    })

  unfoldable pub append_addr : Site → Text → Text → Launch.Launch Class → Run (Launch.Launch Class)
  append_addr site filename address s =
      let line = list_addr s.hvac_server_rank address (content_of filename s.files) in
      if site.can_append filename
      then ok (record s { files = insert filename line s.files })
      else fault exited

  -- `hvac_comm_list_addr`
  unfoldable pub comm_list_addr : Site → Launch.Launch Class → Run (Launch.Launch Class)
  comm_list_addr site s = elim site.slurm_job_id [
    | none ↦ fault undefined
    | some jobid ↦ elim s.hg_class [
      | none ↦ fault undefined
      | some c ↦ elim (self_address c) [
        | none ↦ fault undefined
        | some address ↦ append_addr site (config_name jobid) address s
      ]
    ]
  ]

  -- `hvac_start_comm_server`, up to the loop in which the main thread sleeps.
  unfoldable pub start_comm_server : Site → Launch.Launch Class → Run (Launch.Launch Class)
  start_comm_server site s = do
    s₁ ← init_comm true site (record s { mover_running = site.mover_created })
    s₂ ← comm_list_addr site s₁
    elim s₂.hg_class [
      | none ↦ fault undefined
      | some c ↦ do c' ← register_rpcs hg c; ok (record s₂ { hg_class = some c' })
    ]

  -- `main`, on the arguments behind the program's name; it leaves an empty file behind.
  unfoldable pub main : List Text → Site → Launch.Launch Class → Run (Launch.Launch Class)
  main [] site s = fault exited
  main (count ∷ args) site s =
      let created : Launch.Launch Class = record s {
        files = insert (codes "isThisCreated") [] s.files;
        server_count = to_unsigned 32 (atoi count);
      } in
      if site.can_write (codes "isThisCreated")
      then start_comm_server site created
      else fault exited
