-- ===== src/Replica.antt =====
-- storage/replica: the loop that drives one core, stores what its steps ask for and sends its
-- messages.
pub mod Step
pub mod Run
pub mod Votes
pub mod Safety
pub mod Inline
pub mod Completions
pub mod Reads
pub mod Proposals
