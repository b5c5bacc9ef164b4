-- ===== src/Hash/Insert.antt =====
-- Insertion into a bucket with a free entry (`rte_hash_cuckoo_insert_mw` of
-- rte_lib/rte_cuckoo_hash.c).
use my_l3fwd.Prelude.{ℕ, zero, suc, ◌+◌, Option, none, some, List, ◌==◌, if◌then◌else◌, get_or}
use my_l3fwd.Hash.{
  ◌>>=◌, rte_hash_bucket_entries, empty_slot, minus_one, BucketPtr, Bucket, Config, Table, bucket,
  store_entry, hash_rw_writer_lock, hash_rw_writer_unlock, search_and_update, search_chain,
}

-- The results 0, 1 with `*ret_val`, and a negative one.
pub data Inserted : Type 0 where
  stored : Inserted
  present : (ret_val : ℕ) → Inserted
  failed : (ret : ℕ) → Inserted

-- The first free entry from `i` on.
unfoldable pub first_empty : (rounds i : ℕ) → Bucket → Option ℕ
first_empty zero i b = none
first_empty (suc n) i b =
    let rest = first_empty n (i + 1) b in
    if get_or b.key_idx i empty_slot == empty_slot then some i else rest

-- The first free entry of the bucket is filled, when it has one.
unfoldable pub fill_first :
    {R : Type 0} → BucketPtr → (sig new_idx : ℕ) → Table R → Inserted × Table R
fill_first a sig new_idx t = elim (first_empty rte_hash_bucket_entries 0 (bucket t a)) [
  | none ↦ (failed minus_one, t)
  | some i ↦ (stored, store_entry a i sig new_idx t)
]

module _ {R : Type 0} (fuel : ℕ) where
  -- The two searches that each critical section starts with, and what it does when the key is in
  -- neither place.
  unfoldable pub unless_present :
      (prim_bkt sec_bkt : BucketPtr) (app_data : ℕ) (key : List ℕ) (sig : ℕ)
      → (Table R → Inserted × Table R)
      → Table R
      → Option (Inserted × Table R)
  unless_present prim_bkt sec_bkt app_data key sig absent t =
      let (ret, t') = search_and_update app_data key prim_bkt sig t in
      let more = do
        (ret', t'') ← search_chain fuel app_data key (some sec_bkt) sig t'
        some (if ret' == minus_one then absent t'' else (present ret', t''))
      in if ret == minus_one then more else some (present ret, t')

  unfoldable pub rte_hash_cuckoo_insert_mw :
      Config
      → (prim_bkt sec_bkt : BucketPtr) (app_data : ℕ) (key : List ℕ) (sig new_idx : ℕ) → Table R
      → Option (Inserted × Table R)
  rte_hash_cuckoo_insert_mw h prim_bkt sec_bkt app_data key sig new_idx t = do
    (r, t') ←
        unless_present prim_bkt sec_bkt app_data key sig (fill_first prim_bkt sig new_idx)
          (hash_rw_writer_lock h t)
    some (r, hash_rw_writer_unlock h t')
