-- ===== src/Hash/Stored/Tests.antt =====
-- Insertions of a key into a table with a full bucket.
use my_l3fwd.Prelude.{
  ℕ, zero, suc, ◌≡◌, ◌⊎◌, refl, inl, arith, none, some, List, [], ◌∷◌, replicate,
}
use my_l3fwd.Hash.{
  minus_enospc, main, HashKey, Table, get_short_sig, get_prim_bucket_index, get_alt_bucket_index,
  write_lock, write_unlock, alloc_slot, bucket, put_bucket, store_entry, memcmp_eq,
  hash_rw_writer_lock, hash_rw_writer_unlock, search_chain, search_from, search_and_update,
  entry_matches,
}
use my_l3fwd.Prelude.Bits.{xor_low, and_low}
use my_l3fwd.Hash.Add.{look_up, fill_slot, settle, attempts, add_absent, add_key_with_hash}
use my_l3fwd.Hash.Insert.{unless_present, fill_first, first_empty, rte_hash_cuckoo_insert_mw}
use my_l3fwd.Hash.Space.{
  rte_hash_cuckoo_make_space_mw, rte_hash_cuckoo_move_insert_mw, move_and_fill, move_back, expand,
  bfs, retry, bkt, cur_bkt_idx, is_main, count_change,
}
use my_l3fwd.Hash.Found.{Found}
use my_l3fwd.Hash.Release.{Room}
use my_l3fwd.Hash.Hits.{Chainless}
use my_l3fwd.Hash.Holds.{OnlyIn, Holds}
use my_l3fwd.Hash.Distinct.{add_key_with_hash-finds}
use my_l3fwd.Hash.Stored.{add_key_with_hash-Present}
use my_l3fwd.Hash.Tests.{list_ring, config, some_key, crowded, crowded-Chained, crowded-Sized}

pub crowded-Room : Room list_ring config some_key crowded
unfolding alloc_slot
crowded-Room = record { in_store = omega arith; whole = refl; long = omega arith }

add_key_with_hash-Present_example :
    (ret : ℕ) × (t' : Table (List ℕ)) × (add_key_with_hash list_ring config 1 some_key 0x50005 77
        crowded
      ≡ some (ret, t'))
    × ((ret ≡ minus_enospc) ⊎ Found some_key 5 t' (main 1) (main 0) ret)
unfolding get_short_sig get_prim_bucket_index get_alt_bucket_index xor_low and_low
add_key_with_hash-Present_example =
    add_key_with_hash-Present list_ring config 1 1 some_key 0x50005 77 crowded crowded-Chained
      crowded-Sized refl crowded-Room

pub crowded-Chainless : Chainless crowded
unfolding bucket
crowded-Chainless zero = refl
crowded-Chainless (suc zero) = refl
crowded-Chainless (suc (suc i)) = refl

pub some_key-OnlyIn : OnlyIn 1 some_key crowded
unfolding memcmp_eq
some_key-OnlyIn zero ne = refl
some_key-OnlyIn (suc zero) ne = refl
some_key-OnlyIn (suc (suc zero)) ne = refl
some_key-OnlyIn (suc (suc (suc zero))) ne = refl
some_key-OnlyIn (suc (suc (suc (suc i)))) ne = refl

abbrev pub no_bytes : HashKey
no_bytes = record { pdata = 0; key = replicate 8 0 }

-- The first entry of bucket 1 has moved to bucket 0, and the key has its place.
abbrev pub key_added : Table (List ℕ)
key_added = record crowded {
  key_store = no_bytes ∷ record { pdata = 77; key = some_key } ∷ no_bytes ∷ no_bytes ∷ [];
  buckets =
      record { sig_current = 3 ∷ replicate 7 0; key_idx = 4 ∷ replicate 7 0; next = none }
      ∷ record { sig_current = 5 ∷ replicate 7 3; key_idx = replicate 8 1; next = none }
      ∷ [];
  free_slots = 2 ∷ 3 ∷ [];
  lock_calls =
      write_unlock ∷ write_lock ∷ write_unlock ∷ write_lock ∷ write_unlock ∷ write_lock ∷ [];
}

pub first_add :
    add_key_with_hash list_ring config 1 some_key 0x50005 77 crowded ≡ some (0, key_added)
unfolding add_key_with_hash look_up add_absent alloc_slot fill_slot attempts settle fill_first
    first_empty rte_hash_cuckoo_insert_mw rte_hash_cuckoo_make_space_mw
    rte_hash_cuckoo_move_insert_mw move_and_fill move_back expand bfs retry bkt cur_bkt_idx is_main
    count_change store_entry put_bucket bucket hash_rw_writer_lock hash_rw_writer_unlock
    search_chain search_and_update search_from entry_matches memcmp_eq get_prim_bucket_index
    get_short_sig get_alt_bucket_index xor_low and_low unless_present
first_add = refl

key_added-Chainless : Chainless key_added
unfolding bucket
key_added-Chainless zero = refl
key_added-Chainless (suc zero) = refl
key_added-Chainless (suc (suc i)) = refl

key_added-OnlyIn : OnlyIn 1 some_key key_added
unfolding memcmp_eq
key_added-OnlyIn zero ne = refl
key_added-OnlyIn (suc zero) ne = absurd (ne refl)
key_added-OnlyIn (suc (suc zero)) ne = refl
key_added-OnlyIn (suc (suc (suc zero))) ne = refl
key_added-OnlyIn (suc (suc (suc (suc i)))) ne = refl

key_added-Holds : Holds config some_key 0x50005 1 key_added
unfolding get_short_sig get_prim_bucket_index get_alt_bucket_index xor_low and_low memcmp_eq
key_added-Holds = (
  1,
  0,
  record { bucket_in = omega arith; slot_in = omega arith; has_sig = refl; has_idx = refl },
  inl refl,
  refl,
)

add_key_with_hash-finds_example :
    (t' : Table (List ℕ)) × (add_key_with_hash list_ring config 1 some_key 0x50005 78 key_added
      ≡ some (0, t'))
    × (t'.buckets ≡ key_added.buckets)
    × (t'.free_slots ≡ key_added.free_slots)
add_key_with_hash-finds_example =
    add_key_with_hash-finds list_ring config 0 some_key 0x50005 78 1 key_added key_added-Chainless
      (omega arith) (omega arith) key_added-OnlyIn key_added-Holds

-- Its primary bucket is the full one.
abbrev pub other_key : List ℕ
other_key = 8 ∷ 7 ∷ 6 ∷ 5 ∷ 4 ∷ 3 ∷ 2 ∷ 1 ∷ []

pub other_key-Room : Room list_ring config other_key key_added
unfolding alloc_slot
other_key-Room = record { in_store = omega arith; whole = refl; long = omega arith }
