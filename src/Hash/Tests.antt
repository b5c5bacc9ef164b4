-- ===== src/Hash/Tests.antt =====
-- A table of two buckets with rings as lists, runs of the insertion, and instances of the theorems
-- about the table.
use my_l3fwd.Prelude.{
  ◌⊎◌, get_or, ℕ, zero, suc, ◌<◌, ◌≡◌, refl, arith, true, false, Option, none, some, List, [], ◌∷◌,
  ◌++◌, replicate, length,
}
use my_l3fwd.Hash.{
  minus_one, no_bucket, Bucket, Config, RingOps, Table, bucket, get_alt_bucket_index,
}
use my_l3fwd.Hash.{
  write_lock, write_unlock, store_entry, put_bucket, hash_rw_writer_lock, hash_rw_writer_unlock,
  search_chain, main, memcmp_eq, position, set_pdata, search_from, search_and_update, entry_matches,
}
use my_l3fwd.Prelude.Bits.{xor_low, and_low}
use my_l3fwd.Hash.Add.{add_key_with_hash}
use my_l3fwd.Hash.Insert.{unless_present, stored}
use my_l3fwd.Hash.Space.{
  rte_hash_cuckoo_make_space_mw, rte_hash_cuckoo_move_insert_mw, move_and_fill, move_back, expand,
  bfs, retry, bkt, cur_bkt_idx, is_main, count_change,
}
use my_l3fwd.Hash.MakeSpace.{make_space_mw-Put}
use my_l3fwd.Hash.Search.{search_and_update-first}
use my_l3fwd.Hash.Lookup.{Fresh}
use my_l3fwd.Hash.Safe.{Chained}
use my_l3fwd.Hash.Locks.{Paired}
use my_l3fwd.Hash.Release.{add_key_with_hash-Paired, add_key_with_hash-Keeps}
use my_l3fwd.Hash.Entries.{Entry, Sized, Keeps}

abbrev dequeue_list : List ℕ → Option (ℕ × List ℕ)
dequeue_list [] = none
dequeue_list (x ∷ xs) = some (x, xs)

abbrev pub list_ring : RingOps (List ℕ)
list_ring = record { dequeue = dequeue_list; enqueue = λ x xs. xs ++ (x ∷ []) }

abbrev pub config : Config
config = record {
  key_len = 8;
  hw_trans_mem_support = false;
  readwrite_concur_support = true;
  ext_table_support = false;
  readwrite_concur_lf_support = false;
  writer_takes_lock = true;
  bucket_bitmask = 1;
  hash_func_init_val = 0;
}

abbrev pub zeroed : Bucket
zeroed = record { sig_current = replicate 8 0; key_idx = replicate 8 0; next = none }

abbrev pub table : Table (List ℕ)
table = record {
  key_store = replicate 4 (record { pdata = 0; key = replicate 8 0 });
  buckets = zeroed ∷ zeroed ∷ [];
  buckets_ext = [];
  free_slots = 1 ∷ 2 ∷ 3 ∷ [];
  free_ext_bkts = [];
  tbl_chng_cnt = 0;
  lock_calls = [];
}

abbrev pub some_key : List ℕ
some_key = 1 ∷ 2 ∷ 3 ∷ 4 ∷ 5 ∷ 6 ∷ 7 ∷ 8 ∷ []

table-Chained : Chained 1 table
unfolding bucket
table-Chained zero = tt
table-Chained (suc zero) = tt
table-Chained (suc (suc i)) = tt

add_key_with_hash-Paired_example :
    (ret : ℕ) × (t' : Table (List ℕ)) × (add_key_with_hash list_ring config 1 some_key 0x30005 77
        table
      ≡ some (ret, t'))
    × Paired table.lock_calls t'.lock_calls
add_key_with_hash-Paired_example =
    add_key_with_hash-Paired list_ring config 1 some_key 0x30005 77 table table-Chained

abbrev none_used : ℕ
none_used = 0

zeros : (n k : ℕ) → get_or (replicate n none_used) k 0 ≡ none_used
zeros zero k = refl
zeros (suc n) zero = refl
zeros (suc n) (suc k) = zeros n k

table-Fresh : Fresh config some_key 1 2 table
unfolding bucket
table-Fresh = record {
  in_table = omega arith;
  sigs = refl;
  idxs = refl;
  words = λ k. omega (arith, zeros 8 k);
  unused = λ k. omega (arith, zeros 8 k);
  in_store = omega arith;
  whole = refl;
  long = omega arith;
}

-- Bucket 1 is full of entries that have their other place in bucket 0.
abbrev full : Bucket
full = record { sig_current = replicate 8 3; key_idx = 4 ∷ replicate 7 1; next = none }

abbrev pub crowded : Table (List ℕ)
crowded = record table { buckets = zeroed ∷ full ∷ [] }

pub crowded-Chained : Chained 1 crowded
unfolding bucket
crowded-Chained zero = tt
crowded-Chained (suc zero) = tt
crowded-Chained (suc (suc i)) = tt

two_sigs : (i : ℕ) → i < 2 → length (get_or crowded.buckets i no_bucket).sig_current ≡ 8
two_sigs zero lt = refl
two_sigs (suc zero) lt = refl
two_sigs (suc (suc i)) lt = absurd (omega arith)

two_idxs : (i : ℕ) → i < 2 → length (get_or crowded.buckets i no_bucket).key_idx ≡ 8
two_idxs zero lt = refl
two_idxs (suc zero) lt = refl
two_idxs (suc (suc i)) lt = absurd (omega arith)

pub crowded-Sized : Sized 1 config crowded.buckets
crowded-Sized = record {
  small = omega arith;
  mask = refl;
  count = refl;
  sigs = two_sigs;
  idxs = two_idxs;
}

add_key_with_hash-Keeps_example :
    (ret : ℕ) × (t' : Table (List ℕ)) × (add_key_with_hash list_ring config 1 some_key 0x30005 77
        crowded
      ≡ some (ret, t'))
    × Sized 1 config t'.buckets
    × Keeps config crowded.buckets t'.buckets
add_key_with_hash-Keeps_example =
    add_key_with_hash-Keeps list_ring config 1 1 some_key 0x30005 77 crowded crowded-Chained
      crowded-Sized

-- The first entry of bucket 1 has moved to bucket 0.
abbrev spaced : Table (List ℕ)
spaced = record crowded {
  buckets =
      record { sig_current = 3 ∷ replicate 7 0; key_idx = 4 ∷ replicate 7 0; next = none }
      ∷ record { sig_current = 5 ∷ replicate 7 3; key_idx = 2 ∷ replicate 7 1; next = none }
      ∷ [];
  lock_calls = write_unlock ∷ write_lock ∷ [];
}

space_made :
    rte_hash_cuckoo_make_space_mw config 1 (main 1) (main 0) 77 some_key 5 2 1 crowded
    ≡ some (stored, spaced)
unfolding rte_hash_cuckoo_make_space_mw rte_hash_cuckoo_move_insert_mw move_and_fill move_back
    expand bfs retry bkt cur_bkt_idx is_main count_change store_entry put_bucket bucket
    hash_rw_writer_lock hash_rw_writer_unlock search_chain search_and_update search_from
    entry_matches memcmp_eq get_alt_bucket_index xor_low and_low unless_present
space_made = refl

make_space_mw-Put_example :
    (s : ℕ) × Entry spaced.buckets 1 s 5 2
    × Sized 1 config spaced.buckets
    × Keeps config crowded.buckets spaced.buckets
make_space_mw-Put_example =
    make_space_mw-Put config 1 1 0 77 some_key 5 2 1 crowded spaced crowded-Chained crowded-Sized
      (omega arith) space_made

search_and_update-first_example :
    let b = bucket crowded (main 1) in
    let x = search_and_update 77 some_key (main 1) 3 crowded in
    ((j : ℕ) × (j < 8)
      × (entry_matches crowded b some_key 3 j ≡ true)
      × ((l : ℕ) → l < j → entry_matches crowded b some_key 3 l ≡ false)
      × (x ≡ (position (get_or b.key_idx j 0), set_pdata (get_or b.key_idx j 0) 77 crowded)))
    ⊎ (((l : ℕ) → l < 8 → entry_matches crowded b some_key 3 l ≡ false)
        × (x ≡ (minus_one, crowded)))
search_and_update-first_example = search_and_update-first 77 some_key 3 crowded (main 1)
