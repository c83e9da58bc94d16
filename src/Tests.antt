-- ===== src/Tests.antt =====
-- The theorems at concrete inputs: a ring of two servers, a file system, and remote servers.
mod Rings
mod Texts
mod Starts
mod Launches
mod Disk
mod Servers
mod Caches
mod Clients
mod Heads
mod Streams
mod Movers
mod Pieces
mod Processes
mod Systems
mod Versions
mod Routes
use hvac_checkpoint.Common.{ℕ, ◌+◌, ◌*◌, [], ◌∷◌}
use hvac_checkpoint.Common.Maps.{lookup, insert, erase, index}
use hvac_checkpoint.Common.OrderedMap.{insert_sorted, lower_bound}
use hvac_checkpoint.Common.Text.{Text, c_str, contains}
use hvac_checkpoint.Common.Decimal.{to_string, digits_from, stoi, parse_unsigned, read_digits}
use hvac_checkpoint.Ring.{
  successor, place, add_replicas, add_node, remove_replicas, remove_node, get_node,
  convert_host_to_number, minus_one_int,
}
use hvac_checkpoint.Ring.Servers.{server_name, add_servers, server_ring, route}

-- A hash that tells short texts apart.
abbrev hash : Text → ℕ
hash [] = 7
hash (c ∷ s) = c + 131 * hash s

-- What a run of the ring computes with.
ring_program : Unit {0}
unfolding lookup insert_sorted lower_bound erase c_str contains to_string digits_from stoi
    parse_unsigned read_digits successor place add_replicas add_node remove_replicas remove_node
    get_node convert_host_to_number minus_one_int server_name add_servers server_ring route
ring_program = tt
