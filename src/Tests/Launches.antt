-- ===== src/Tests/Launches.antt =====
-- The start of a server of rank 1 beside a server of rank 0, with a Mercury that keeps its handlers in
-- a map by the hash of their names.
use hvac_checkpoint.Common.{
  ℕ, ◌≡◌, refl, ap, ◌≢◌, Bool, true, false, Option, none, some, List, [], ◌∷◌, arith, Option-cases,
  inl, inr, nat_eq,
}
use hvac_checkpoint.Common.Int.{ℤ, pos, int_eq, to_int32, to_unsigned}
use hvac_checkpoint.Common.Maps.{Map, lookup, insert, lookup-insert}
use hvac_checkpoint.Common.Text.{Text, codes, text_eq}
use hvac_checkpoint.Common.Run.{ok}
use hvac_checkpoint.Ports.{
  find_address, list_addr, scan_signed, scan_digits, skip_space, skip_digits,
}
use hvac_checkpoint.Common.Decimal.{read_digits}
use hvac_checkpoint.Ports.RoundTrip.{print_file, first_entry}
use hvac_checkpoint.Startup.{atoi}
use hvac_checkpoint.Launch.{
  RpcCall, read_call, open_call, close_call, seek_call, MercurySetup, Site, Launch, RpcIds,
  unlaunched, config_name, content_of, main, announce, client_comm_register_rpc,
}
use hvac_checkpoint.Launch.Laws.{RegisterLaws, rpc_name, ServesAll}
use hvac_checkpoint.Launch.Meets.{CanStart, main-ServesAll, main-meets_client, announce-unserved}
use hvac_checkpoint.Earlier
use hvac_checkpoint.Earlier.Launch.Compared.{SameHost, Alike, main-earlier}
use hvac_checkpoint.Tests.{hash}

abbrev Handlers : Type 0
Handlers = Map ℕ (RpcCall × Bool)

abbrev disable : ℕ → Handlers → ℕ × Handlers
disable id c = elim (lookup id c) [
  | none ↦ (1, c)
  | some (call, answered) ↦ (0, insert id (call, false) c)
]

abbrev mercury : MercurySetup
mercury = record {
  Class = Handlers;
  init = λ info listen. some [];
  context_create = λ c. true;
  register = λ c name call. (hash name, insert (hash name) (call, true) c);
  disable_response = λ c id. disable id c;
  self_address = λ c. some (codes "ofi+verbs://10.0.0.2:9000");
}

abbrev handler_of : Option (RpcCall × Bool) → Option RpcCall
handler_of none = none
handler_of (some (call, answered)) = some call

abbrev answered_of : Option (RpcCall × Bool) → Bool
answered_of none = false
answered_of (some (call, answered)) = answered

handlers_distinct :
    (call other : RpcCall) → hash (rpc_name call) ≡ hash (rpc_name other) → call ≡ other
handlers_distinct read_call read_call e = refl
handlers_distinct read_call open_call e = absurd (omega (arith, e))
handlers_distinct read_call close_call e = absurd (omega (arith, e))
handlers_distinct read_call seek_call e = absurd (omega (arith, e))
handlers_distinct open_call read_call e = absurd (omega (arith, e))
handlers_distinct open_call open_call e = refl
handlers_distinct open_call close_call e = absurd (omega (arith, e))
handlers_distinct open_call seek_call e = absurd (omega (arith, e))
handlers_distinct close_call read_call e = absurd (omega (arith, e))
handlers_distinct close_call open_call e = absurd (omega (arith, e))
handlers_distinct close_call close_call e = refl
handlers_distinct close_call seek_call e = absurd (omega (arith, e))
handlers_distinct seek_call read_call e = absurd (omega (arith, e))
handlers_distinct seek_call open_call e = absurd (omega (arith, e))
handlers_distinct seek_call close_call e = absurd (omega (arith, e))
handlers_distinct seek_call seek_call e = refl

handler_disabled :
    (c : Handlers) (id : ℕ) (call : RpcCall)
    → handler_of (lookup id c) ≡ some call
    → ((disable id c).0 ≡ 0)
      × (handler_of (lookup id (disable id c).1) ≡ some call)
      × (answered_of (lookup id (disable id c).1) ≡ false)
handler_disabled c id call h = elim (Option-cases (lookup id c)) [
  | inl absent ↦ absurd (ground (arith, absent, h))
  | inr ((k, answered), present) ↦ (
    ground (arith, present),
    ground (arith, present, h, lookup-insert id id (k, false) c),
    ground (arith, present, lookup-insert id id (k, false) c),
  )
]

handler_kept :
    (c : Handlers) (id other : ℕ) → other ≢ id → lookup other (disable id c).1 ≡ lookup other c
handler_kept c id other ne = elim (Option-cases (lookup id c)) [
  | inl absent ↦ ground (arith, absent)
  | inr ((k, answered), present) ↦ ground (arith, present, lookup-insert id other (k, false) c)
]

unfoldable mercury-RegisterLaws : RegisterLaws mercury
unfolding lookup
mercury-RegisterLaws = record {
  id_of = hash;
  handler_at = λ c id. handler_of (lookup id c);
  answers_at = λ c id. answered_of (lookup id c);
  new_class = λ info listen c e id. let same : [] ≡ c = cc e in ground (arith, ap (lookup id) same);
  registers = λ c name call.
      let entry = lookup-insert (hash name) (hash name) (call, true) c in
      (refl, ground (arith, entry), ground (arith, entry));
  registers_other = λ c name call id ne.
      let entry = lookup-insert (hash name) id (call, true) c in
      (ground (arith, entry), ground (arith, entry));
  disables = handler_disabled;
  disables_other = λ c id other ne.
      let same = handler_kept c id other ne in (ap handler_of same, ap answered_of same);
  distinct = handlers_distinct;
}

abbrev site : Site
site = record {
  pmi_rank = some (codes "1");
  slurm_jobid = some (codes "42");
  mover_created = true;
  progress_created = true;
  can_append = λ filename. true;
}

abbrev here : Text
here = codes "ofi+verbs://10.0.0.2:9000"

can_start : CanStart mercury site (codes "1") (codes "42") here
can_start = record {
  class = [];
  has_rank = refl;
  has_job = refl;
  initialised = refl;
  printed = refl;
  clean = ground arith;
  writable = refl;
}

abbrev posted : List (ℤ × Text)
posted = (pos 0, codes "ofi+verbs://10.0.0.1:9000") ∷ []

abbrev directory : Map Text Text
directory = (config_name (codes "42"), print_file posted) ∷ []

found_there : content_of (config_name (codes "42")) directory ≡ print_file posted
unfolding lookup config_name
found_there = refl

other_rank : first_entry (atoi (codes "1")) posted ≡ none
unfolding first_entry atoi scan_signed scan_digits skip_space skip_digits read_digits to_int32
other_rank = refl

abbrev server_host : Launch Handlers
server_host = unlaunched directory

main-ServesAll_example :
    (s : Launch Handlers) × (c : Handlers) × (main mercury (codes "2" ∷ []) site server_host ≡ ok s)
    × (s.hg_class ≡ some c)
    × ServesAll mercury mercury-RegisterLaws c
    × (s.server_count ≡ to_unsigned 32 (atoi (codes "2")))
    × (s.mover_running ≡ true)
    × (s.progress_running ≡ true)
    × (lookup (config_name (codes "42")) s.files
        ≡ some
            (list_addr (atoi (codes "1")) here (content_of (config_name (codes "42")) directory)))
unfolding lookup mercury-RegisterLaws
main-ServesAll_example =
    main-ServesAll mercury site (codes "1") (codes "42") here can_start mercury-RegisterLaws
      (codes "2") [] directory

main-meets_client_example :
    (s : Launch Handlers) × (c d : Handlers) × (ids : RpcIds) × (main mercury
        (codes "2" ∷ [])
        site
        server_host
      ≡ ok s)
    × (s.hg_class ≡ some c)
    × (client_comm_register_rpc mercury [] ≡ ok (ids, d))
    × (handler_of (lookup ids.rpc_id c) ≡ some read_call)
    × (handler_of (lookup ids.open_id c) ≡ some open_call)
    × (handler_of (lookup ids.close_id c) ≡ some close_call)
    × (handler_of (lookup ids.seek_id c) ≡ some seek_call)
    × (find_address (atoi (codes "1")) (content_of (config_name (codes "42")) s.files) ≡ some here)
unfolding lookup mercury-RegisterLaws
main-meets_client_example =
    main-meets_client mercury site (codes "1") (codes "42") here can_start mercury-RegisterLaws
      (codes "2") [] posted directory [] found_there
      (((omega arith, omega arith), ground arith), tt) other_rank (ground arith)

announce-unserved_example :
    (t : Launch Handlers) × (c : Handlers) × (announce mercury site server_host ≡ ok t)
    × (t.hg_class ≡ some c)
    × (find_address (atoi (codes "1")) (content_of (config_name (codes "42")) t.files) ≡ some here)
    × ((id : ℕ) → handler_of (lookup id c) ≡ none)
unfolding lookup mercury-RegisterLaws
announce-unserved_example =
    announce-unserved mercury site (codes "1") (codes "42") here can_start mercury-RegisterLaws
      posted server_host found_there (((omega arith, omega arith), ground arith), tt) other_rank
      (ground arith)

-- The same host for the earlier server.
abbrev earlier_site : Earlier.Launch.Site
earlier_site = record {
  pmi_rank = some (codes "1");
  slurm_job_id = some (codes "42");
  hostname = codes "node2";
  pid = 77;
  mover_created = true;
  progress_created = true;
  can_append = λ filename. true;
  can_write = λ filename. true;
}

same_host : SameHost site earlier_site (codes "42")
same_host = record {
  same_rank = refl;
  same_job = refl;
  same_mover = refl;
  same_progress = refl;
  appends = refl;
  logs = refl;
  creates = refl;
}

main-earlier_example :
    (s t : Launch Handlers) × (main mercury (codes "2" ∷ []) site server_host ≡ ok s)
    × (Earlier.Launch.main mercury (codes "2" ∷ []) earlier_site server_host ≡ ok t)
    × Alike (codes "42") s t
main-earlier_example =
    main-earlier mercury site earlier_site (codes "1") (codes "42") here can_start same_host
      mercury-RegisterLaws (codes "2") [] directory
