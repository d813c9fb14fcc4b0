-- ===== src/Lib.antt =====
-- A model of distributed-topic-tracker, which lets the nodes of an iroh-gossip topic find each other
-- through records on the mainline DHT, with proofs about it.
--
-- The parts of the program and the files that model them:
--   Crypto/Keys         src/crypto/keys.rs, and `TopicId` of src/crypto/record.rs: topics, the key pairs
--                       and the salt of a minute, and the rotation of the shared secret.
--   Crypto/Record       `Record` of src/crypto/record.rs: wire format, `sign` and `verify`.
--   Crypto/Encrypted    `EncryptedRecord` of src/crypto/record.rs: wire format, `encrypt`, `decrypt`.
--   Crypto/Dedup        the loop of `RecordPublisher::get_records`: which items count.
--   Crypto/Publisher    `RecordPublisher` and its builder: `get_records`, `publish_record` and
--                       `publish_record_cached_records`, which use the DHT actor and all of the above.
--   Config              src/config.rs: the settings, their defaults and builders. A chain of calls of a
--                       builder is a list of calls; `run` applies them in order.
--   Dht                 src/dht.rs: `DhtActor` as a state with a log of puts, waits and clients.
--   Time                `unix_minute` of src/lib.rs.
--   Timing              the random intervals of src/dht.rs, src/gossip/topic/publisher.rs and
--                       src/gossip/merge.
--   Gossip/Receiver     src/gossip/receiver.rs: the loop of `GossipReceiverActor` over its inputs, and
--                       (Handles) the handles that wait for what it sends.
--   Gossip/Sender       src/gossip/sender.rs: requests and the results of their timeouts.
--   Gossip/Ticker       `new` and `run` of the periodic publisher and of both mergers.
--   Gossip/Working      that loop together with the work that its ticks start, which is a parameter; the
--                       modules Life under Content, Bubble and Overlap put in the work of each actor.
--   Gossip/Content      `GossipRecordContent` of src/gossip/mod.rs, and `PublisherActor::publish` of
--                       src/gossip/topic/publisher.rs.
--   Gossip/Merge        what both mergers of src/gossip/merge do.
--   Gossip/Bubble       `merge` of src/gossip/merge/bubble.rs.
--   Gossip/Overlap      `merge` of src/gossip/merge/message_overlap.rs.
--   Examples            examples: the settings and the publisher of records of each example. The
--                       loop of their listening tasks is `listen` of Gossip/Receiver/Handles.
--   Gossip/Rounds       state and inputs of the bootstrap loop, and its steps without the settings.
--   Gossip/Bootstrap    `BootstrapActor` of src/gossip/topic/bootstrap.rs: the loop that looks for peers,
--                       as a state and rounds over what each of them meets.
--   Gossip/Topic        src/gossip/topic/topic.rs: `TopicActor` and the start of its workers, `Topic::new`,
--                       and (Lifetime) the values that keep the actor alive; Subscribing is
--                       `AutoDiscoveryGossip` of src/gossip/mod.rs.
--   Prelude             bytes, words, outcomes of fallible code, lists and tests.
--   Tests               runs at concrete inputs, with a stand-in for the cryptographic libraries.
--
-- Crypto/Primitives holds what the code calls of other libraries: SHA-512, ed25519, HPKE and postcard
-- are parameters, and `Laws` and `PostcardLaws` state what their documentation promises. The mainline
-- client, the clock and the random numbers are an oracle of the DHT actor, and the events of
-- iroh-gossip are inputs. The broadcast channels of tokio are a parameter of the handles, with the
-- laws `BroadcastLaws`. Bytes are natural numbers; that they are below 256 is a hypothesis where it
-- matters. A fixed-size array is a list whose length is a hypothesis. A sequence number is an
-- integer, a duration a number of nanoseconds.
--
-- Loops are recursion on lists, but for `put_mutable`, which recurs on the rounds that its range still
-- has; the range is bounded by the number of retries, whose successor wraps at 2^64 as in the code,
-- and for `listen`, which has fuel; one more than the inputs that the actor had is enough once the
-- senders of its channel are dropped.
--
-- How the parts interact: `Topic::new` starts the bootstrap, whose rounds fetch records through the
-- publisher of records and the DHT actor, and whose result decides in `background` whether the
-- workers are started; these are tickers, whose work is `PublisherActor::publish` and the two
-- `merge`. The bootstrap is unbounded in the code: `run` takes the list of what its rounds meet, and a
-- statement that the loop ends says after which round it does. A publication that the bootstrap starts
-- is a task of its own; the loop keeps its arguments, and each fetch names the state of the DHT actor
-- that it finds. Whether an actor answers a call is an input.
--
-- What two nodes do with each other stands in modules of its own: Crypto/Publisher/Meeting (a
-- publication, the DHT and a fetch), Gossip/Bootstrap/Meeting and Gossip/Bubble/Meeting (the same
-- between two bootstraps, and from the periodic publisher to a bubble merge) and Gossip/Overlap/Healing
-- (a published content and an overlap merge); what the DHT delivers is a hypothesis there.
-- Gossip/Topic/Working puts the mergers that `Topic::new` starts to work.
--
-- Not modelled: logging, the actor mailboxes, the reading of the clock, and what the examples do
-- with iroh and the terminal. A cancellation is an
-- argument that says where it strikes; that a cancelled token stops a worker is the input
-- `cancelled` of its loop.
pub mod Prelude
pub mod Crypto
pub mod Config
pub mod Time
pub mod Timing
pub mod Dht
pub mod Gossip
pub mod Examples
pub mod Tests
