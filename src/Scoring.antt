-- ===== src/Scoring.antt =====
-- internal/domain/scoring: the price of a challenge, and the standings.
pub mod Decay
pub mod Standings
