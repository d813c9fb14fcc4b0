-- ===== src/Gossip/Content/Slots.antt =====
-- What can be read back from the fixed arrays of a record's content.
use distributed_topic_tracke.Prelude.{
  ℕ, zero, suc, ◌-◌, ◌≡◌, ◌≢◌, refl, ap, true, List, [], ◌∷◌, ◌++◌, arith, Bytes, bytes_eq_iff,
  length, take, replicate, All, All-take, length-append, length-take, length-replicate, select_by,
}
use distributed_topic_tracke.Gossip.Content.{slots, record_content, zero_key, is_set}

-- A key that is not the mark of an empty slot.
abbrev pub IsKey : Bytes → Type 0
IsKey key = key ≢ zero_key

pub is_set-IsKey : (key : Bytes) → IsKey key → is_set key ≡ true
is_set-IsKey key h = ground (arith, bytes_eq_iff key zero_key)

pub IsKey-is_set : (key : Bytes) → is_set key ≡ true → IsKey key
IsKey-is_set key h = ground (arith, bytes_eq_iff key zero_key)

length-slots : (n : ℕ) (keys : List Bytes) → length (slots n keys) ≡ n
unfolding slots
length-slots n keys = omega (
  arith,
  length-append (take n keys) (replicate (n - length (take n keys)) zero_key),
  length-take n keys,
  length-replicate (n - length (take n keys)) zero_key,
)

select_by-empty : (n : ℕ) → select_by is_set (replicate n zero_key) ≡ []
unfolding select_by
select_by-empty zero = refl
select_by-empty (suc n) = select_by-empty n

select_by-append_empty :
    (n : ℕ) (keys : List Bytes)
    → All IsKey keys
    → select_by is_set (keys ++ replicate n zero_key) ≡ keys
unfolding select_by
select_by-append_empty n [] h = select_by-empty n
select_by-append_empty n (key ∷ keys) h =
    rw (is_set-IsKey key h.0) (ap (◌∷◌ key) (select_by-append_empty n keys h.1))

select_by-slots :
    (n : ℕ) (keys : List Bytes) → All IsKey keys → select_by is_set (slots n keys) ≡ take n keys
unfolding slots
select_by-slots n keys h = select_by-append_empty _ (take n keys) (All-take IsKey n keys h)

-- The content of a record always fills its two arrays of five, and the entries of it that are not
-- zero are exactly the first five neighbours and the first five message hashes, in order, as long as
-- none of these is itself zero.
pub record_content_lem :
    (neighbors hashes : List Bytes)
    → All IsKey neighbors
    → All IsKey hashes
    → (length (record_content neighbors hashes).active_peers ≡ 5)
      × (length (record_content neighbors hashes).last_message_hashes ≡ 5)
      × (select_by is_set (record_content neighbors hashes).active_peers ≡ take 5 neighbors)
      × (select_by is_set (record_content neighbors hashes).last_message_hashes ≡ take 5 hashes)
unfolding record_content
record_content_lem neighbors hashes h k = (
  length-slots 5 neighbors,
  length-slots 5 hashes,
  select_by-slots 5 neighbors h,
  select_by-slots 5 hashes k,
)
