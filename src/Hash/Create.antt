-- ===== src/Hash/Create.antt =====
-- The creation of a table (`rte_hash_create` of rte_lib/rte_cuckoo_hash.c).
pub mod Bitmask
pub mod Locked
pub mod Tests
use my_l3fwd.Prelude.{
  ℕ, zero, suc, ◌+◌, ◌-◌, ◌*◌, ◌/◌, ◌%◌, ◌^◌, Bool, true, false, not, ◌&&◌, ◌||◌, Option, none,
  some, List, [], ◌∷◌, ◌==◌, ltb, if◌then◌else◌, u32, u64, replicate,
}
use my_l3fwd.Hash.{rte_hash_bucket_entries, Bucket, Config, RingOps, HashKey, Table}

-- `struct rte_hash_parameters`, without the name, the socket and the hash function.
pub record HashParameters : Type 0 where
  pub entries : ℕ
  pub key_len : ℕ
  pub hash_func_init_val : ℕ
  pub extra_flag : ℕ

abbrev pub rte_hash_entries_max : ℕ
rte_hash_entries_max = 2 ^ 30

-- The flags are single bits; the mask has the lowest six of the eight.
abbrev pub has_flag : (extra_flag flag : ℕ) → Bool
has_flag extra_flag flag = extra_flag / flag % 2 == 1

abbrev pub trans_mem_support : ℕ
trans_mem_support = 0x01

abbrev pub multi_writer_add : ℕ
multi_writer_add = 0x02

abbrev pub rw_concurrency : ℕ
rw_concurrency = 0x04

abbrev pub ext_table : ℕ
ext_table = 0x08

abbrev pub rw_concurrency_lf : ℕ
rw_concurrency_lf = 0x20

-- NULL is returned, or a null pointer is read through.
pub data Created : Type 0 where
  no_table : Created
  null_access : Created

-- The checks of the parameters.
unfoldable pub valid : HashParameters → Bool
valid p =
    not (
      ltb rte_hash_entries_max p.entries || ltb p.entries rte_hash_bucket_entries || p.key_len == 0)
    && p.extra_flag / 64 == 0
    && not (has_flag p.extra_flag rw_concurrency && has_flag p.extra_flag rw_concurrency_lf)

unfoldable pub num_key_slots : HashParameters → ℕ
num_key_slots p = u32 (p.entries + 1)

-- `rte_align32pow2` is that of DPDK.
module _ (align32pow2 : ℕ → ℕ) where
  unfoldable pub num_buckets : HashParameters → ℕ
  num_buckets p = align32pow2 p.entries / rte_hash_bucket_entries

  -- The fields that are set in a new table.
  unfoldable pub new_config : HashParameters → Config
  new_config p = record {
    key_len = p.key_len;
    hw_trans_mem_support = has_flag p.extra_flag trans_mem_support;
    readwrite_concur_support = has_flag p.extra_flag rw_concurrency;
    ext_table_support = has_flag p.extra_flag ext_table;
    readwrite_concur_lf_support = has_flag p.extra_flag rw_concurrency_lf;
    writer_takes_lock =
        has_flag p.extra_flag multi_writer_add || has_flag p.extra_flag rw_concurrency;
    bucket_bitmask = u32 (num_buckets p + 2 ^ 32 - 1);
    hash_func_init_val = p.hash_func_init_val;
  }

  -- `ring_create` says whether a ring of a size is made, the second time for the extendable
  -- buckets. When the parameters are valid and the rings are made, the lock is taken through `h`,
  -- which is still the null pointer.
  unfoldable pub rte_hash_create :
      (ring_create : (ext : Bool) (count : ℕ) → Bool) → Option HashParameters → Created
  rte_hash_create ring_create none = no_table
  rte_hash_create ring_create (some p) =
      let ring_made = ring_create false (align32pow2 (num_key_slots p)) in
      let ext_made =
        not (has_flag p.extra_flag ext_table)
        || ring_create true (align32pow2 (u32 (num_buckets p + 1))) in
      if not (valid p)
      then no_table
      else if not ring_made
      then no_table
      else if not ext_made
      then no_table
      else null_access

  module _ {R : Type 0} (ring : RingOps R) where
    -- The numbers from `i` on go to the ring.
    unfoldable pub populate : (rounds i : ℕ) → R → R
    populate zero i r = r
    populate (suc n) i r = populate n (i + 1) (ring.enqueue i r)

    -- The contents of a new table: the memory of one bucket, of the extendable buckets and of the
    -- key store is not cleared, so what it holds is given.
    unfoldable pub new_table :
        HashParameters
        → (junk : Bucket) (junk_ext : List Bucket) (junk_keys : List HashKey) (r r_ext : R)
        → Table R
    new_table p junk junk_ext junk_keys r r_ext = record {
      key_store = junk_keys;
      buckets = junk ∷ [];
      buckets_ext = if has_flag p.extra_flag ext_table then junk_ext else [];
      free_slots = populate (num_key_slots p - 1) 1 r;
      free_ext_bkts =
          if has_flag p.extra_flag ext_table then populate (num_buckets p) 1 r_ext else r_ext;
      tbl_chng_cnt = 0;
      lock_calls = [];
    }
