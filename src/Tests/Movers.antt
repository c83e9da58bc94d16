-- ===== src/Tests/Movers.antt =====
-- The earlier thread of the data mover, with a second file queued while the first is at hand.
use hvac_checkpoint.Common.{ℕ, ◌≡◌, refl, [], ◌∷◌, ◌++◌}
use hvac_checkpoint.Common.Text.{Text, codes}
use hvac_checkpoint.Server.Mover.Thread.{waiting, moving, Thread, queues, goes_on, push}
use hvac_checkpoint.Earlier.Mover.{go_on, step, run, iterate, thread}
use hvac_checkpoint.Earlier.Mover.Strands.{strands}
use hvac_checkpoint.Tests.Disk.{disk, Files}

abbrev nvme : Text
nvme = codes "/bb/XXXXXX"

abbrev stored : Files
stored = (codes "/data/a", 1 ∷ []) ∷ []

abbrev copying : Thread Files
copying = run disk nvme (queues (codes "/data/a") ∷ goes_on ∷ []) (thread stored)

copying_now : copying.at ≡ moving
unfolding run step go_on
copying_now = refl

abbrev second : Text
second = codes "/data/b"

strands_example :
    (n : ℕ) × ((iterate disk nvme n (push second copying)).at ≡ waiting)
    × ((iterate disk nvme n (push second copying)).server.data_queue
        ≡ copying.server.data_queue ++ second ∷ [])
    × ((m : ℕ)
        → iterate disk nvme m (iterate disk nvme n (push second copying))
          ≡ iterate disk nvme n (push second copying))
    × ((next : Text)
        → (k : ℕ) × ((iterate disk nvme k
              (push next (iterate disk nvme n (push second copying)))).at
            ≡ waiting)
          × ((iterate disk nvme k
                (push next (iterate disk nvme n (push second copying)))).server.data_queue
              ≡ [])
          × ((iterate disk nvme k (push next (iterate disk nvme n (push second copying)))).handled
              ≡ (copying.handled ++ copying.server.local_list)
                ++ ((copying.server.data_queue ++ second ∷ []) ++ next ∷ [])))
strands_example = strands disk nvme second copying copying_now
