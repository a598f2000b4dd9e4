-- ===== src/Scheduling/Scheduler/Queued.antt =====
-- scheduler.hpp: all that waits in the queues.
use oqpi.Base.{ℕ, List, [], ◌∷◌, ◌++◌}

-- The queues one after the other.
unfoldable pub queued : List (List ℕ) → List ℕ
queued [] = []
queued (q ∷ qs) = q ++ queued qs
