-- ===== src/Tests.antt =====
-- The theorems at concrete inputs.
mod Toy
mod Crypto
mod Publishing
mod Settings
mod Network
mod Delivery
mod Hearing
mod Merging
mod Bootstrapping
mod Topics
mod Announcing
mod Meeting
mod Living
mod Examples
mod Working
mod Listening
