-- ===== src/Hash/Add.antt =====
-- `rte_hash_add_key` of rte_lib/rte_cuckoo_hash.c, from the hash of the key to the extendable
-- buckets.
use my_l3fwd.Prelude.{
  ℕ, zero, suc, ◌-◌, Option, none, some, List, ◌++◌, ◌==◌, if◌then◌else◌, get_or, set, take, drop,
}
use my_l3fwd.Hash.{
  ◌>>=◌, rte_hash_bucket_entries, minus_one, minus_enospc, position, BucketPtr, main, extra,
  HashKey, no_key, Config, RingOps, Table, bucket, put_bucket, store_entry, get_short_sig,
  get_prim_bucket_index, get_alt_bucket_index, hash_rw_writer_lock, hash_rw_writer_unlock,
  alloc_slot, enqueue_slot_back, search_and_update, search_chain,
}
use my_l3fwd.Hash.Insert.{Inserted, stored, present, failed, first_empty, rte_hash_cuckoo_insert_mw}
use my_l3fwd.Hash.Space.{rte_hash_cuckoo_make_space_mw}

module _ {R : Type 0} (ring : RingOps R) (h : Config) (fuel : ℕ) where
  -- The search under the lock that the function starts with: the key's position or -1.
  unfoldable pub look_up :
      (prim_bkt sec_bkt : BucketPtr) (app_data : ℕ) (key : List ℕ) (sig : ℕ)
      → Table R
      → Option (ℕ × Table R)
  look_up prim_bkt sec_bkt app_data key sig t =
      let (ret, t') = search_and_update app_data key prim_bkt sig t in
      let more = search_chain fuel app_data key (some sec_bkt) sig t' in
      if ret == minus_one then more else some (ret, t')

  -- The data and the key are written before the slot is reachable.
  unfoldable pub fill_slot : (slot_id app_data : ℕ) (key : List ℕ) → Table R → Table R
  fill_slot slot_id app_data key t =
      let old = get_or t.key_store slot_id no_key in
      let k : HashKey = record {
        pdata = app_data;
        key = take h.key_len key ++ drop h.key_len old.key;
      } in
      record t { key_store = set t.key_store slot_id k }

  -- What an attempt to insert leads to: the position, the slot given back, or the next attempt.
  unfoldable pub settle :
      (slot_id : ℕ)
      → (ℕ → Table R → Option (ℕ × Table R))
      → Inserted
      → Table R
      → Option (ℕ × Table R)
  settle slot_id next stored t = some (position slot_id, t)
  settle slot_id next (present ret_val) t = some (ret_val, enqueue_slot_back ring slot_id t)
  settle slot_id next (failed ret) t = next ret t

  -- The first bucket of a chain with a free entry, and that entry.
  unfoldable pub free_in_chain :
      (fuel : ℕ) → Option BucketPtr → Table R → Option (Option (BucketPtr × ℕ))
  free_in_chain f none t = some none
  free_in_chain zero (some a) t = none
  free_in_chain (suc f) (some a) t =
      let rest = free_in_chain f (bucket t a).next t in
      elim (first_empty rte_hash_bucket_entries 0 (bucket t a)) [
        | some i ↦ some (some (a, i))
        | none ↦ rest
      ]

  unfoldable pub rte_hash_get_last_bkt :
      (fuel : ℕ) → (lst_bkt : BucketPtr) → Table R → Option BucketPtr
  rte_hash_get_last_bkt zero a t = none
  rte_hash_get_last_bkt (suc f) a t = elim (bucket t a).next [
    | none ↦ some a
    | some b ↦ rte_hash_get_last_bkt f b t
  ]

  unfoldable pub take_ext_bkt : Table R → ℕ × Table R
  take_ext_bkt t = elim (ring.dequeue t.free_ext_bkts) [
    | none ↦ (0, t)
    | some (id, r) ↦ (id, record t { free_ext_bkts = r })
  ]

  -- A free extendable bucket is linked behind the last one. Its number is 0 when the ring is empty.
  unfoldable pub link_bucket :
      (sec_bkt : BucketPtr) (sig slot_id : ℕ) → Table R → Option (ℕ × Table R)
  link_bucket sec_bkt sig slot_id t =
      let (ext_bkt_id, t₁) = take_ext_bkt t in
      let t₂ = store_entry (extra (ext_bkt_id - 1)) 0 sig slot_id t₁ in
      let linked = do
        last ← rte_hash_get_last_bkt fuel sec_bkt t₂
        let b = bucket t₂ last
        some (
          position slot_id,
          put_bucket last (record b { next = some (extra (ext_bkt_id - 1)) }) t₂,
        )
      in if ext_bkt_id == 0 then some (minus_enospc, t₁) else linked

  -- The search for room in the chain of the secondary bucket, under the lock.
  unfoldable pub extend : (sec_bkt : BucketPtr) (sig slot_id : ℕ) → Table R → Option (ℕ × Table R)
  extend sec_bkt sig slot_id t = do
    place ← free_in_chain fuel (some sec_bkt) t
    let link = link_bucket sec_bkt sig slot_id t
    elim place [
      | some (a, i) ↦ some (position slot_id, store_entry a i sig slot_id t)
      | none ↦ link
    ]

  -- The critical section of the extendable buckets: the key is looked for once more.
  unfoldable pub add_to_chain :
      (prim_bkt sec_bkt : BucketPtr) (app_data : ℕ) (key : List ℕ) (sig slot_id : ℕ)
      → Table R
      → Option (ℕ × Table R)
  add_to_chain prim_bkt sec_bkt app_data key sig slot_id t = do
    (found, t₁) ← look_up prim_bkt sec_bkt app_data key sig (hash_rw_writer_lock h t)
    let more = extend sec_bkt sig slot_id t₁
    (result, t₂) ←
        (if found == minus_one then more else some (found, enqueue_slot_back ring slot_id t₁))
    some (result, hash_rw_writer_unlock h t₂)

  -- The last resort, when no entry could be moved. `ret` is the result of the second attempt.
  unfoldable pub add_extended :
      (prim_bkt sec_bkt : BucketPtr) (app_data : ℕ) (key : List ℕ) (sig slot_id ret : ℕ)
      → Table R
      → Option (ℕ × Table R)
  add_extended prim_bkt sec_bkt app_data key sig slot_id ret t =
      let extended = add_to_chain prim_bkt sec_bkt app_data key sig slot_id t in
      if h.ext_table_support then extended else some (ret, enqueue_slot_back ring slot_id t)

  -- The three attempts, each of which settles the call or goes on with the next.
  unfoldable pub attempts :
      (prim_bucket_idx sec_bucket_idx app_data : ℕ) (key : List ℕ) (sig slot_id : ℕ)
      → Table R
      → Option (ℕ × Table R)
  attempts prim_bucket_idx sec_bucket_idx app_data key sig slot_id t =
      let prim_bkt = main prim_bucket_idx in
      let sec_bkt = main sec_bucket_idx in
      let secondary = λ (ret : ℕ) (t' : Table R). do
        (r, t'') ←
            rte_hash_cuckoo_make_space_mw h fuel sec_bkt prim_bkt app_data key sig slot_id
              sec_bucket_idx t'
        settle slot_id (add_extended prim_bkt sec_bkt app_data key sig slot_id) r t''
      in let primary = λ (ret : ℕ) (t' : Table R). do
        (r, t'') ←
            rte_hash_cuckoo_make_space_mw h fuel prim_bkt sec_bkt app_data key sig slot_id
              prim_bucket_idx t'
        settle slot_id secondary r t''
        in do
          (r, t') ← rte_hash_cuckoo_insert_mw fuel h prim_bkt sec_bkt app_data key sig slot_id t
          settle slot_id primary r t'

  -- A key that was not found gets a slot of the key store, 0 when there is none, and is inserted.
  unfoldable pub add_absent :
      (prim_bucket_idx sec_bucket_idx app_data : ℕ) (key : List ℕ) (sig : ℕ)
      → Table R
      → Option (ℕ × Table R)
  add_absent prim_bucket_idx sec_bucket_idx app_data key sig t =
      let (slot_id, t') = alloc_slot ring t in
      attempts prim_bucket_idx sec_bucket_idx app_data key sig slot_id
        (fill_slot slot_id app_data key t')

  unfoldable pub add_key_with_hash :
      (key : List ℕ) (sig app_data : ℕ) → Table R → Option (ℕ × Table R)
  add_key_with_hash key sig app_data t =
      let short_sig = get_short_sig sig in
      let prim_bucket_idx = get_prim_bucket_index h sig in
      let sec_bucket_idx = get_alt_bucket_index h prim_bucket_idx short_sig in
      let prim_bkt = main prim_bucket_idx in
      let sec_bkt = main sec_bucket_idx in
      do
        (ret, t₁) ← look_up prim_bkt sec_bkt app_data key short_sig (hash_rw_writer_lock h t)
        let absent =
            add_absent prim_bucket_idx sec_bucket_idx app_data key short_sig
              (hash_rw_writer_unlock h t₁)
        if ret == minus_one then absent else some (ret, hash_rw_writer_unlock h t₁)

  -- The null checks are compiled in debug builds only; `hash_func` is a parameter.
  unfoldable pub rte_hash_add_key :
      (hash_func : List ℕ → (key_len init_val : ℕ) → ℕ)
      → (key : List ℕ) → Table R
      → Option (ℕ × Table R)
  rte_hash_add_key hash_func key t =
      add_key_with_hash key (hash_func key h.key_len h.hash_func_init_val) 0 t
