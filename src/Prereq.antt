-- ===== src/Prereq.antt =====
-- internal/domain/prereq: challenge and hint prerequisites. `Requirements` is the decoding and
-- encoding of the column, `Cycle` the search for a cycle through a challenge.
pub mod Cycle
pub mod Requirements
