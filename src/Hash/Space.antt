-- ===== src/Hash/Space.antt =====
-- The breadth-first search for a free entry and the moves along the path to it
-- (`rte_hash_cuckoo_make_space_mw` and `rte_hash_cuckoo_move_insert_mw` of
-- rte_lib/rte_cuckoo_hash.c).
use my_l3fwd.Prelude.{
  ℕ, zero, suc, ◌+◌, ◌-◌, Bool, false, Option, none, some, List, [], ◌∷◌, ◌++◌, ◌==◌, ltb,
  if◌then◌else◌, get_or, u32,
}
use my_l3fwd.Hash.{
  ◌>>=◌, rte_hash_bucket_entries, empty_slot, minus_one, minus_enospc, BucketPtr, main, extra,
  Config, Table, bucket, store_entry, get_alt_bucket_index, hash_rw_writer_lock,
  hash_rw_writer_unlock,
}
use my_l3fwd.Hash.Insert.{Inserted, stored, present, failed, unless_present}

abbrev pub rte_hash_bfs_queue_max_len : ℕ
rte_hash_bfs_queue_max_len = 1000

-- `struct queue_node`. A node does not change once it is in the queue, so that the pointer `prev`
-- is the node itself; the first one has none.
pub data QueueNode : Type 0 where
  first : (bkt : BucketPtr) (cur_bkt_idx : ℕ) → QueueNode
  after : (bkt : BucketPtr) (cur_bkt_idx : ℕ) (prev : QueueNode) (prev_slot : ℕ) → QueueNode

unfoldable pub bkt : QueueNode → BucketPtr
bkt (first b i) = b
bkt (after b i p s) = b

unfoldable pub cur_bkt_idx : QueueNode → ℕ
cur_bkt_idx (first b i) = i
cur_bkt_idx (after b i p s) = i

-- A pointer into `buckets` against any other.
unfoldable pub is_main : (i : ℕ) → BucketPtr → Bool
is_main i (main j) = i == j
is_main i (extra j) = false

-- The result that lets the search go on.
unfoldable pub retry : Inserted → Bool
retry stored = false
retry (present v) = false
retry (failed e) = e == minus_one

-- Each round lengthens the queue by 8.
abbrev pub bfs_fuel : ℕ
bfs_fuel = 125

module _ {R : Type 0} (h : Config) where
  unfoldable pub count_change : Table R → Table R
  count_change t =
      if h.readwrite_concur_lf_support
      then record t { tbl_chng_cnt = u32 (t.tbl_chng_cnt + 1) }
      else t

  -- The path back from a free entry: each entry moves to the free one, which is then free itself.
  -- The entry that is free at the end, or none when the path is no longer valid.
  unfoldable pub move_back :
      (curr_node : QueueNode) (curr_slot : ℕ) → Table R → Option (BucketPtr × ℕ) × Table R
  move_back (first b i) curr_slot t = (some (b, curr_slot), t)
  move_back (after b i prev prev_slot) curr_slot t =
      let from = bucket t (bkt prev) in
      let sig = get_or from.sig_current prev_slot 0 in
      let moved =
        move_back prev prev_slot
          (store_entry b curr_slot sig (get_or from.key_idx prev_slot 0) (count_change t)) in
      let curr = bucket t b in
      if is_main (get_alt_bucket_index h (cur_bkt_idx prev) sig) b
      then moved
      else (none, store_entry b curr_slot (get_or curr.sig_current curr_slot 0) empty_slot t)

  -- The moves, and the new entry in the place that they leave.
  unfoldable pub move_and_fill :
      (leaf : QueueNode) (leaf_slot sig new_idx : ℕ) → Table R → Inserted × Table R
  move_and_fill leaf leaf_slot sig new_idx t =
      let (place, t') = move_back leaf leaf_slot t in
      elim place [
        | none ↦ (failed minus_one, t')
        | some (b, slot) ↦ (stored, store_entry b slot sig new_idx (count_change t'))
      ]

  unfoldable pub rte_hash_cuckoo_move_insert_mw :
      (fuel : ℕ) (bkt alt_bkt : BucketPtr) (app_data : ℕ) (key : List ℕ) (leaf : QueueNode)
      (leaf_slot sig new_idx : ℕ)
      → Table R
      → Option (Inserted × Table R)
  rte_hash_cuckoo_move_insert_mw fuel b alt_bkt app_data key leaf leaf_slot sig new_idx t =
      let locked = hash_rw_writer_lock h t in
      let inserted = do
        (r, t') ←
            unless_present fuel b alt_bkt app_data key sig
              (move_and_fill leaf leaf_slot sig new_idx) locked
        some (r, hash_rw_writer_unlock h t')
      in if get_or (bucket locked (bkt leaf)).key_idx leaf_slot 0 == empty_slot
        then inserted
        else some (failed minus_one, hash_rw_writer_unlock h locked)

  module _ (fuel : ℕ) (b alt_bkt : BucketPtr) (app_data : ℕ) (key : List ℕ) (sig new_idx : ℕ) where
    -- The entries of one node, from `i` on: the result, or the nodes to append to the queue.
    unfoldable pub expand :
        (rounds i : ℕ) (tail : QueueNode)
        → Table R
        → Option (Option Inserted × List QueueNode × Table R)
    expand zero i tail t = some (none, [], t)
    expand (suc n) i tail t = do
      let attempt = rte_hash_cuckoo_move_insert_mw fuel b alt_bkt app_data key tail i sig new_idx t
      let free = get_or (bucket t (bkt tail)).key_idx i 0 == empty_slot
      (r, t') ← (if free then attempt else some (failed minus_one, t))
      let alt_idx =
          get_alt_bucket_index h (cur_bkt_idx tail) (get_or (bucket t' (bkt tail)).sig_current i 0)
      let more = do
        (s, nodes, t'') ← expand n (i + 1) tail t'
        some (s, after (main alt_idx) alt_idx tail i ∷ nodes, t'')
      if retry r then more else some (some r, [], t')

    -- The search, with the nodes from `tail` to `head`; `head` is the length of the queue so far.
    unfoldable pub bfs :
        (rounds head : ℕ) (queue : List QueueNode) → Table R → Option (Inserted × Table R)
    bfs rounds head [] t = some (failed minus_enospc, t)
    bfs zero head (tail ∷ queue) t = none
    bfs (suc n) head (tail ∷ queue) t =
        let next = do
          (r, nodes, t') ← expand rte_hash_bucket_entries 0 tail t
          elim r [
            | some result ↦ some (result, t')
            | none ↦ bfs n (head + rte_hash_bucket_entries) (queue ++ nodes) t'
          ]
        in if ltb head (rte_hash_bfs_queue_max_len - rte_hash_bucket_entries)
          then next
          else some (failed minus_enospc, t)

    unfoldable pub rte_hash_cuckoo_make_space_mw :
        (bucket_idx : ℕ) → Table R → Option (Inserted × Table R)
    rte_hash_cuckoo_make_space_mw bucket_idx t = bfs bfs_fuel 1 (first b bucket_idx ∷ []) t
