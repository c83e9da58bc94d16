-- ===== src/Ring.antt =====
-- hvac_hashing.h: the consistent-hashing ring, at the instance that the client uses
-- (`HashRing<string, string>`). `std::hash<string>` is the parameter `hash`.
pub mod Lookup
pub mod Points
pub mod Entries
pub mod Remap
pub mod Failures
pub mod Servers
use hvac_checkpoint.Common.{
  ℕ, zero, suc, ◌+◌, Bool, true, false, Option, none, some, List, [], ◌∷◌, ◌++◌, drop,
  if◌then◌else◌, ◌==◌, nat_eq,
}
use hvac_checkpoint.Common.Maps.{Map, erase}
use hvac_checkpoint.Common.OrderedMap.{insert_sorted, lower_bound, begin}
use hvac_checkpoint.Common.Text.{Text, codes, c_str, contains}
use hvac_checkpoint.Common.Decimal.{to_string, stoi}
use hvac_checkpoint.Common.Int.{ℤ, pos, negsuc, pred_int}
use hvac_checkpoint.Common.Run.{Run, ok, fault, Fault, uncaught, undefined, ◌>>=◌}

pub record HashRing : Type 0 where
  pub ring : Map ℕ Text
  pub replicas : ℕ

-- `HashRing(replicas)`
abbrev pub new_ring : ℕ → HashRing
new_ring replicas = record { ring = []; replicas = replicas }

-- `it->second` for the `it` that `GetNode` ends with; `none` on the empty ring.
unfoldable pub successor : ℕ → Map ℕ Text → Option Text
successor h ring = elim (lower_bound h ring) [
  | some e ↦ some e.1
  | none ↦ elim (begin ring) [ some e ↦ some e.1 | none ↦ none ]
]

-- `stoi(s.substr(6)) - 1` where `s` contains "server"; `stoi` throws on a text with no number.
unfoldable pub minus_one_int : Option ℤ → Run ℤ
minus_one_int none = fault uncaught
minus_one_int (some (pos n)) = ok (pred_int n)
minus_one_int (some (negsuc n)) =
    if suc n == 0x8000_0000 then fault undefined else ok (negsuc (suc n))

unfoldable pub convert_host_to_number : Text → Run ℤ
unfolding minus_one_int
convert_host_to_number node =
    if contains (codes "server") node then minus_one_int (stoi (drop 6 node)) else fault uncaught

module _ (hash : Text → ℕ) where
  -- The place of replica `r` of a node.
  unfoldable pub place : Text → ℕ → ℕ
  place node r = hash (c_str (node ++ to_string r))

  -- The loop of `AddNode` from replica `r`, with `left` rounds to go.
  unfoldable pub add_replicas : Text → ℕ → ℕ → Map ℕ Text → Map ℕ Text
  add_replicas node zero r ring = ring
  add_replicas node (suc left) r ring =
      add_replicas node left (r + 1) (insert_sorted (place node r) node ring)

  unfoldable pub add_node : Text → HashRing → HashRing
  add_node node h = record h { ring = add_replicas node h.replicas 0 h.ring }

  -- The loop of `RemoveNode`.
  unfoldable pub remove_replicas : Text → ℕ → ℕ → Map ℕ Text → Map ℕ Text
  remove_replicas node zero r ring = ring
  remove_replicas node (suc left) r ring =
      remove_replicas node left (r + 1) (erase (place node r) ring)

  unfoldable pub remove_node : Text → HashRing → HashRing
  remove_node node h = record h { ring = remove_replicas node h.replicas 0 h.ring }

  -- `GetNode` throws on an empty ring.
  unfoldable pub get_node : Text → HashRing → Run Text
  get_node key h = elim (successor (hash (c_str key)) h.ring) [
    | some node ↦ ok node
    | none ↦ fault uncaught
  ]
