-- ===== src/Tests/Starts.antt =====
-- The start of a client, with the number of servers in the environment.
use hvac_checkpoint.Common.{some, none}
use hvac_checkpoint.Common.Text.{codes}
use hvac_checkpoint.Startup.{Surroundings, Startup}

abbrev job : Surroundings
job = record {
  hvac_server_count = some (codes "2");
  hvac_data_dir = some (codes "/data");
  horovod_rank = none;
  self_address = some (codes "ofi+verbs://10.0.0.1:9000");
  leftover = some (codes "ab:cd:ef");
}
