-- ===== src/Vrf.antt =====
-- coordinator-agent/src/vrf/flow-vrf.ts and jury-selector.ts: the seeded shuffle and the jury that is
-- cut from it. The seed's query to the Flow chain is an argument (`none` where it fails), and so are
-- the clock's texts.
pub mod Seed
pub mod Shuffle
pub mod Jury
pub mod SafeInts
pub mod Tests
