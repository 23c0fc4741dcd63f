-- ===== src/Alarms.antt =====
-- The tables of alarms that `CustomConfig` keeps (src/customconfig.h), and the operations on them:
-- filters, saving, pruning and manual confirmation, each in a child.
pub mod State
pub mod Filter
pub mod Save
pub mod Tracks
pub mod Confirm
pub mod Prune
pub mod Clock
pub mod Tests
