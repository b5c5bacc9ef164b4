-- ===== src/Hash.antt =====
-- The cuckoo hash table of rte_lib/rte_cuckoo_hash.c: buckets, locks, slots of the key store, and
-- the search of a bucket. Insertion is in Hash/Insert.antt, Hash/Space.antt and Hash/Add.antt.
pub mod Insert
pub mod Index
pub mod Entries
pub mod Moves
pub mod Fill
pub mod MakeSpace
pub mod Locks
pub mod Safe
pub mod Found
pub mod Made
pub mod Refines
pub mod Runs
pub mod Holds
pub mod Distinct
pub mod Stored
pub mod Hits
pub mod Attempts
pub mod Slots
pub mod Answer
pub mod Gives
pub mod Extend
pub mod LookedUp
pub mod Calls
pub mod Release
pub mod Lookup
pub mod Search
pub mod Tests
pub mod Space
pub mod Add
pub mod Create
use my_l3fwd.Prelude.{
  ℕ, zero, suc, ◌+◌, ◌-◌, ◌%◌, ◌^◌, ◌/◌, Bool, true, false, not, ◌&&◌, Option, none, some, List, [],
  ◌∷◌, ◌==◌, if◌then◌else◌, get_or, set, u16, u32, ◌>>>◌,
}
use my_l3fwd.Prelude.Bits.{xor_low, and_low}

-- `none` when the fuel of a loop has run out.
infixl 5 ◌>>=◌
abbrev pub ◌>>=◌ {ℓ κ} : {A : Type ℓ} {B : Type κ} → Option A → (A → Option B) → Option B
none >>= f = none
some a >>= f = f a

abbrev pub rte_hash_bucket_entries : ℕ
rte_hash_bucket_entries = 8

abbrev pub empty_slot : ℕ
empty_slot = 0

-- An `int32_t` is its bit pattern: -1 and -ENOSPC.
abbrev pub minus_one : ℕ
minus_one = 2 ^ 32 - 1

abbrev pub minus_enospc : ℕ
minus_enospc = 2 ^ 32 - 28

-- A `struct rte_hash_bucket *`: into `buckets` or into `buckets_ext`.
pub data BucketPtr : Type 0 where
  main : ℕ → BucketPtr
  extra : ℕ → BucketPtr

-- `struct rte_hash_bucket`; the field `flag` is not used.
pub record Bucket : Type 0 where
  pub sig_current : List ℕ
  pub key_idx : List ℕ
  pub next : Option BucketPtr

-- `struct rte_hash_key`; the key is its bytes.
pub record HashKey : Type 0 where
  pub pdata : ℕ
  pub key : List ℕ

-- The fields of `struct rte_hash` that no insertion changes.
pub record Config : Type 0 where
  pub key_len : ℕ
  pub hw_trans_mem_support : Bool
  pub readwrite_concur_support : Bool
  pub ext_table_support : Bool
  pub readwrite_concur_lf_support : Bool
  pub writer_takes_lock : Bool
  pub bucket_bitmask : ℕ
  pub hash_func_init_val : ℕ

-- The calls of the read-write lock of DPDK.
pub data LockCall : Type 0 where
  read_lock : LockCall
  read_unlock : LockCall
  write_lock : LockCall
  write_unlock : LockCall

-- The ring of DPDK, as the table uses it.
pub record RingOps (R : Type 0) : Type 0 where
  pub dequeue : R → Option (ℕ × R)
  pub enqueue : ℕ → R → R

-- The contents of a table; `lock_calls` has the latest call first.
pub record Table (R : Type 0) : Type 0 where
  pub key_store : List HashKey
  pub buckets : List Bucket
  pub buckets_ext : List Bucket
  pub free_slots : R
  pub free_ext_bkts : R
  pub tbl_chng_cnt : ℕ
  pub lock_calls : List LockCall

abbrev pub no_bucket : Bucket
no_bucket = record { sig_current = []; key_idx = []; next = none }

abbrev pub no_key : HashKey
no_key = record { pdata = 0; key = [] }

unfoldable pub get_short_sig : (hash : ℕ) → ℕ
get_short_sig hash = u16 (hash >>> 16)

unfoldable pub get_prim_bucket_index : Config → (hash : ℕ) → ℕ
get_prim_bucket_index h hash = and_low 32 hash h.bucket_bitmask

unfoldable pub get_alt_bucket_index : Config → (cur_bkt_idx sig : ℕ) → ℕ
get_alt_bucket_index h cur_bkt_idx sig = and_low 32 (xor_low 32 cur_bkt_idx sig) h.bucket_bitmask

-- `memcmp` says whether the first `n` bytes are equal.
unfoldable pub memcmp_eq : (n : ℕ) (a b : List ℕ) → Bool
memcmp_eq zero a b = true
memcmp_eq (suc n) a b = memcmp_eq n a b && get_or a n 0 == get_or b n 0

-- The size that is compared is that of a pointer, whatever the length of the keys.
abbrev pub rte_hash_cmp_eq : (key1 key2 : List ℕ) → Bool
rte_hash_cmp_eq key1 key2 = memcmp_eq 8 key1 key2

-- `int32_t` arithmetic: the index of a key without the dummy entry.
abbrev pub position : (key_idx : ℕ) → ℕ
position key_idx = u32 (key_idx + minus_one)

module _ {R : Type 0} where
  unfoldable pub bucket : Table R → BucketPtr → Bucket
  bucket t (main i) = get_or t.buckets i no_bucket
  bucket t (extra i) = get_or t.buckets_ext i no_bucket

  unfoldable pub put_bucket : BucketPtr → Bucket → Table R → Table R
  put_bucket (main i) b t = record t { buckets = set t.buckets i b }
  put_bucket (extra i) b t = record t { buckets_ext = set t.buckets_ext i b }

  -- A signature and a key index are stored in one entry of a bucket.
  unfoldable pub store_entry : BucketPtr → (i sig idx : ℕ) → Table R → Table R
  store_entry a i sig idx t =
      let b = bucket t a in
      put_bucket a
        (record b { sig_current = set b.sig_current i sig; key_idx = set b.key_idx i idx }) t

  abbrev called : LockCall → Table R → Table R
  called c t = record t { lock_calls = c ∷ t.lock_calls }

  unfoldable pub hash_rw_writer_lock : Config → Table R → Table R
  hash_rw_writer_lock h t =
      if h.writer_takes_lock && h.hw_trans_mem_support
      then called write_lock t
      else if h.writer_takes_lock
      then called write_lock t
      else t

  unfoldable pub hash_rw_writer_unlock : Config → Table R → Table R
  hash_rw_writer_unlock h t =
      if h.writer_takes_lock && h.hw_trans_mem_support
      then called write_unlock t
      else if h.writer_takes_lock
      then called write_unlock t
      else t

  unfoldable pub hash_rw_reader_lock : Config → Table R → Table R
  hash_rw_reader_lock h t =
      if h.readwrite_concur_support && h.hw_trans_mem_support
      then called read_lock t
      else if h.readwrite_concur_support
      then called read_lock t
      else t

  unfoldable pub hash_rw_reader_unlock : Config → Table R → Table R
  hash_rw_reader_unlock h t =
      if h.readwrite_concur_support && h.hw_trans_mem_support
      then called read_unlock t
      else if h.readwrite_concur_support
      then called read_unlock t
      else t

  -- The slot is 0 when the ring is empty.
  unfoldable pub alloc_slot : RingOps R → Table R → ℕ × Table R
  alloc_slot ring t = elim (ring.dequeue t.free_slots) [
    | none ↦ (empty_slot, t)
    | some (slot_id, r) ↦ (slot_id, record t { free_slots = r })
  ]

  unfoldable pub enqueue_slot_back : RingOps R → (slot_id : ℕ) → Table R → Table R
  enqueue_slot_back ring slot_id t = record t { free_slots = ring.enqueue slot_id t.free_slots }

  abbrev set_pdata : (idx app_data : ℕ) → Table R → Table R
  set_pdata idx app_data t =
      let k = get_or t.key_store idx no_key in
      record t { key_store = set t.key_store idx (record k { pdata = app_data }) }

  -- Entry `i` of a bucket holds the key.
  unfoldable pub entry_matches : Table R → Bucket → (key : List ℕ) (sig i : ℕ) → Bool
  entry_matches t b key sig i =
      get_or b.sig_current i 0 == sig
      && rte_hash_cmp_eq key (get_or t.key_store (get_or b.key_idx i 0) no_key).key

  -- The loop of the search, with the entries still to look at.
  unfoldable pub search_from :
      (rounds i app_data : ℕ) (key : List ℕ) → Bucket → (sig : ℕ) → Table R → ℕ × Table R
  search_from zero i app_data key b sig t = (minus_one, t)
  search_from (suc n) i app_data key b sig t =
      let rest = search_from n (i + 1) app_data key b sig t in
      if entry_matches t b key sig i
      then (position (get_or b.key_idx i 0), set_pdata (get_or b.key_idx i 0) app_data t)
      else rest

  unfoldable pub search_and_update :
      (app_data : ℕ) (key : List ℕ) → BucketPtr → (sig : ℕ) → Table R → ℕ × Table R
  search_and_update app_data key a sig t =
      search_from rte_hash_bucket_entries 0 app_data key (bucket t a) sig t

  -- `FOR_EACH_BUCKET` with a search that ends at the first hit; no result when the chain has more
  -- buckets than the fuel.
  unfoldable pub search_chain :
      (fuel app_data : ℕ) (key : List ℕ)
      → Option BucketPtr
      → (sig : ℕ) → Table R
      → Option (ℕ × Table R)
  search_chain fuel app_data key none sig t = some (minus_one, t)
  search_chain zero app_data key (some a) sig t = none
  search_chain (suc f) app_data key (some a) sig t =
      let (ret, t') = search_and_update app_data key a sig t in
      let rest = search_chain f app_data key (bucket t a).next sig t' in
      if ret == minus_one then rest else some (ret, t')
