-- ===== src/Gossip.antt =====
-- src/gossip: the receiver, the sender, the periodic publisher and mergers, bootstrap and topic.
pub mod Receiver
pub mod Sender
pub mod Ticker
pub mod Working
pub mod Content
pub mod Merge
pub mod Bubble
pub mod Overlap
pub mod Rounds
pub mod Bootstrap
pub mod Topic
