-- ===== src/Hash/Stored.antt =====
-- A key that has been added to the table of rte_lib/rte_cuckoo_hash.c: where it stands, and how
-- an insertion finds it.
pub mod Tests
use mathlib.Core.Path.{subst}
use my_l3fwd.Prelude.{
  ℕ, zero, suc, ◌+◌, ◌-◌, ◌%◌, ◌^◌, ◌≤◌, ◌<◌, ◌≡◌, ◌≢◌, ◌⊎◌, refl, sym, ◌∙◌, ap, arith, true, false,
  none, some, List, length, ◌==◌, ==_ne, get_or, u32, Bool-cases, inl, inr,
}
use my_l3fwd.Hash.{
  minus_one, minus_enospc, BucketPtr, main, extra, Bucket, HashKey, Config, RingOps, Table, bucket,
  no_bucket, no_key, position, rte_hash_cmp_eq, entry_matches, search_and_update, search_chain,
  alloc_slot, get_short_sig, get_prim_bucket_index, get_alt_bucket_index, hash_rw_writer_lock,
  hash_rw_writer_unlock,
}
use my_l3fwd.Hash.Add.{look_up, add_key_with_hash}
use my_l3fwd.Hash.Entries.{Sized}
use my_l3fwd.Hash.Search.{search_and_update-first}
use my_l3fwd.Hash.Found.{Found, MatchIn, OnChain-alone, Found-same, Found-unlock}
use my_l3fwd.Hash.Gives.{Gives, Gives-branch, Gives-out, Ends}
use my_l3fwd.Hash.Locks.{
  next_of, buckets-lock, buckets-unlock, slots-lock, slots-unlock, keys-lock, keys-unlock, ext-lock,
  lock-chains,
}
use my_l3fwd.Hash.Safe.{Keys, critical, Kept-of_Same, Chained, lock-Chained}
use my_l3fwd.Hash.LookedUp.{LookedUp, look_up-LookedUp}
use my_l3fwd.Hash.Release.{Room, Outcome, Settled, add_key_with_hash-Outcome}
use my_l3fwd.Hash.Hits.{Chainless, NoDummy, look_up-hit}

module _ {R : Type 0} (ring : RingOps R) (h : Config) where
  pub Chained-of_Chainless : (fuel : ℕ) (t : Table R) → Chainless t → Chained (suc fuel) t
  Chained-of_Chainless fuel t alone i = subst (Ends fuel (next_of t)) (sym (alone i)) tt

  bucket-lock : (t : Table R) (c : BucketPtr) → bucket (hash_rw_writer_lock h t) c ≡ bucket t c
  unfolding bucket
  bucket-lock t (main i) = ap (λ (l : List Bucket). get_or l i no_bucket) (buckets-lock h t)
  bucket-lock t (extra i) = ap (λ (l : List Bucket). get_or l i no_bucket) (ext-lock h t)

  key-lock :
      (t : Table R) (i : ℕ)
      → (get_or (hash_rw_writer_lock h t).key_store i no_key).key
        ≡ (get_or t.key_store i no_key).key
  key-lock t i = ap (λ (l : List HashKey). (get_or l i no_key).key) (keys-lock h t)

  lock-NoDummy :
      (key : List ℕ) (t : Table R) → NoDummy key t → NoDummy key (hash_rw_writer_lock h t)
  lock-NoDummy key t dummy i e = ap (λ l. rte_hash_cmp_eq key l) (key-lock t i) ∙ dummy i e

  -- In a table without chains a key that is found stands in a main bucket.
  pub Found-main :
      (key : List ℕ) (sig i j v : ℕ) (t : Table R)
      → Chainless t
      → Found key sig t (main i) (main j) v
      → MatchIn key sig t (bucket t (main i)) v ⊎ MatchIn key sig t (bucket t (main j)) v
  Found-main key sig i j v t alone (inl (c, on, m)) =
      inl (subst (λ a. MatchIn key sig t (bucket t a) v) (OnChain-alone (alone i) on) m)
  Found-main key sig i j v t alone (inr (c, on, m)) =
      inr (subst (λ a. MatchIn key sig t (bucket t a) v) (OnChain-alone (alone j) on) m)

  -- The key of `Found` is found by an insertion, which then changes nothing but its data.
  pub add_key_with_hash-again :
      (fuel : ℕ) (key : List ℕ) (hash app_data v : ℕ) (t : Table R)
      → Chainless t
      → NoDummy key t
      → let sig = get_short_sig hash in
        let prim = get_prim_bucket_index h hash in
        let sec = get_alt_bucket_index h prim sig in
        Found key sig t (main prim) (main sec) v
        → (ret : ℕ) × (t' : Table R) × (add_key_with_hash ring h (suc fuel) key hash app_data t
            ≡ some (ret, t'))
          × (ret ≢ minus_one)
          × (t'.buckets ≡ t.buckets)
          × (t'.free_slots ≡ t.free_slots)
          × Keys t t'
          × Found key sig t' (main prim) (main sec) ret
  unfolding add_key_with_hash
  add_key_with_hash-again fuel key hash app_data v t alone dummy found =
      let sig = get_short_sig hash in
      let prim = get_prim_bucket_index h hash in
      let sec = get_alt_bucket_index h prim sig in
      let locked = hash_rw_writer_lock h t in
      let ends = lock-Chained (suc fuel) h t (Chained-of_Chainless fuel t alone) sec in
      let looking = look_up ring h (suc fuel) (main prim) (main sec) app_data key sig locked in
      let found' =
        Found-main key sig prim sec v locked (λ i. lock-chains h t (main i) ∙ alone i)
          (Found-same key sig t locked (bucket-lock t) (key-lock t) found) in
      let (x, e, hit) =
        Gives-out (λ x. x.0 ≢ minus_one) looking
          (look_up-hit ring h (suc fuel) app_data key sig (main prim) (main sec) v locked
            (lock-NoDummy key t dummy) ends found') in
      let (quiet, where_found) =
        subst (Gives (LookedUp ring h (suc fuel) key sig (main prim) (main sec) locked)) e (
          look_up-LookedUp ring h (suc fuel) (main prim) (main sec) app_data key sig locked ends) in
      let differs : (x.0 == minus_one) ≡ false = ground (arith, hit) in
      (
        x.0,
        hash_rw_writer_unlock h (x.1),
        rw (e, differs) refl,
        hit,
        buckets-unlock h (x.1) ∙ quiet.same.same_buckets ∙ buckets-lock h t,
        slots-unlock h (x.1) ∙ quiet.same_slots ∙ slots-lock h t,
        (critical h (Kept-of_Same quiet.same)).keys,
        Found-unlock key sig h (x.1) (where_found hit),
      )

  -- If all chains of buckets fit the fuel, the table has 2 ^ k buckets of 8 entries and no
  -- extendable buckets, the slot that is taken is one of the key store, and the key has the length
  -- that the table was made for, at least 8 bytes: then adding the key returns -ENOSPC, or a value
  -- that is the position of a matching entry in the chain of one of the two buckets of the key,
  -- whether the key was there before or was stored, with or without moves of other entries.
  pub add_key_with_hash-Present :
      (fuel k : ℕ) (key : List ℕ) (hash app_data : ℕ) (t : Table R)
      → Chained fuel t
      → Sized k h t.buckets
      → h.ext_table_support ≡ false
      → Room ring h key t
      → let sig = get_short_sig hash in
        let prim = get_prim_bucket_index h hash in
        (ret : ℕ) × (t' : Table R) × (add_key_with_hash ring h fuel key hash app_data t
          ≡ some (ret, t'))
        × ((ret ≡ minus_enospc)
            ⊎ Found key sig t' (main prim) (main (get_alt_bucket_index h prim sig)) ret)
  add_key_with_hash-Present fuel k key hash app_data t c z no_ext room =
      let (x, e, p) =
        Gives-out (Outcome ring h key _ _ _ t) _
          (add_key_with_hash-Outcome ring h fuel key hash app_data t c) in
      (x.0, x.1, e, (p.1 no_ext k z room).tells)
