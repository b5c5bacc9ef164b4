-- ===== src/Hash/Create/Locked.antt =====
-- The part of `rte_hash_create` of rte_lib/rte_cuckoo_hash.c that follows the lock, if the lock were
-- taken: the requests for memory, the error paths, and the new table.
use my_l3fwd.Prelude.{ℕ, Bool, not, ◌&&◌, List, if◌then◌else◌}
use my_l3fwd.Hash.{Bucket, Config, RingOps, HashKey, Table}
use my_l3fwd.Hash.Create.{
  HashParameters, has_flag, ext_table, rw_concurrency_lf, new_config, new_table,
}

-- The calls of `malloc`, by what they ask memory for.
pub data Allocation : Type 0 where
  tailq_entry : Allocation
  hash_struct : Allocation
  bucket_array : Allocation
  ext_bucket_array : Allocation
  ext_bkt_to_free : Allocation
  key_table : Allocation
  change_count : Allocation
  readwrite_lock : Allocation
  tailq_lock : Allocation

-- A table is returned, or an error path unlocks through a null pointer, or through the field of
-- the new struct that has not been set. Nothing is freed before the unlock.
pub data Ending (R : Type 0) : Type 0 where
  made : Config → Table R → Ending R
  null_unlock : Ending R
  unset_unlock : Ending R

module _ {R : Type 0} (align32pow2 : ℕ → ℕ) (ring : RingOps R) (malloc : Allocation → Bool) where
  -- `in_list` says whether the list of tables has one of the name. The name, the sizes, the
  -- functions and the index of the compare function are fields that `Config` leaves out.
  unfoldable pub create_locked :
      (in_list : Bool)
      → HashParameters
      → (junk : Bucket) (junk_ext : List Bucket) (junk_keys : List HashKey) (r r_ext : R) → Ending R
  create_locked in_list p junk junk_ext junk_keys r r_ext =
      let h = new_config align32pow2 p in
      let ext = has_flag p.extra_flag ext_table in
      let lf = has_flag p.extra_flag rw_concurrency_lf in
      if in_list
      then null_unlock
      else if not (malloc tailq_entry)
      then null_unlock
      else if not (malloc hash_struct)
      then null_unlock
      else if not (malloc bucket_array)
      then unset_unlock
      else if ext && not (malloc ext_bucket_array)
      then unset_unlock
      else if (ext && lf) && not (malloc ext_bkt_to_free)
      then unset_unlock
      else if not (malloc key_table)
      then unset_unlock
      else if not (malloc change_count)
      then unset_unlock
      else if h.writer_takes_lock && not (malloc readwrite_lock)
      then unset_unlock
      else if not (malloc tailq_lock)
      then null_unlock
      else made h (new_table align32pow2 ring p junk junk_ext junk_keys r r_ext)
