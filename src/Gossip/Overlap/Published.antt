-- ===== src/Gossip/Overlap/Published.antt =====
-- How the record of one node looks to the overlap merge of another.
use distributed_topic_tracke.Prelude.{◌≡◌, refl, not, ◌&&◌, List, Bytes, take, ok, All, contains}
use distributed_topic_tracke.Gossip.Content.{record_content}
use distributed_topic_tracke.Gossip.Content.Slots.{IsKey, record_content_lem}
use distributed_topic_tracke.Gossip.Merge.{is_empty}
use distributed_topic_tracke.Gossip.Overlap.{every, remote_hashes, is_apart}

remote_hashes-record_content :
    (neighbors hashes : List Bytes)
    → All IsKey neighbors
    → All IsKey hashes
    → remote_hashes (record_content neighbors hashes) ≡ take 5 hashes
unfolding remote_hashes
remote_hashes-record_content neighbors hashes h k =
    let (peers, slots, active, last) = record_content_lem neighbors hashes h k in last

-- A node's published content counts as apart from another node exactly if the publishing node has
-- heard a message and none of its first five hashes is among those of the other, as long as no
-- neighbour and no hash of the publishing node is zero.
pub is_apart-record_content :
    (neighbors hashes local_hashes : List Bytes)
    → All IsKey neighbors
    → All IsKey hashes
    → is_apart local_hashes (ok (record_content neighbors hashes)) ≡ (
        not (is_empty (take 5 hashes))
        && every (λ h. not (contains h local_hashes)) (take 5 hashes))
unfolding is_apart
is_apart-record_content neighbors hashes local_hashes h k =
    rw (remote_hashes-record_content neighbors hashes h k) refl
