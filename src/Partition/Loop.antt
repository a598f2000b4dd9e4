-- ===== src/Partition/Loop.antt =====
-- parallel_for.hpp: the batch tasks of make_parallel_for_task_group, each of which takes ranges
-- from the shared partitioner until there are none. A schedule names the task that goes next; a
-- turn is one call of getNextValidRange with the index loop over its range.
mod Defs
mod Laws
unfoldable pub use Defs.*
pub use Laws.*
