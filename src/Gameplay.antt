-- ===== src/Gameplay.antt =====
-- internal/gameplay: flag submissions, hint unlocks and instance issue as transactions on a store.
-- `Store` is the state of the database that they read and write, `Submit`, `Unlock` and `Issue` the
-- three transactions.
pub mod Store
pub mod Check
pub mod Submit
pub mod Unlock
pub mod Issue
