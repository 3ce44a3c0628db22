-- ===== src/Tests.antt =====
-- Every property on concrete input, with tests of the definitions it rests on.
mod Store
mod Resilience
mod Policy
mod Fold
mod Worker
mod Resolution
mod Trust
mod Units
mod Notes
mod Hops
mod TopicState
mod Packets
mod Claims
mod Extractor
