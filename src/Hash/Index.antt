-- ===== src/Hash/Index.antt =====
-- The two bucket indices of a key (`get_prim_bucket_index` and `get_alt_bucket_index` of
-- rte_lib/rte_cuckoo_hash.c) in a table of a power of two of buckets.
use my_l3fwd.Prelude.{ℕ, ◌-◌, ◌%◌, ◌^◌, ◌≤◌, ◌<◌, ◌≡◌, ap, ◌∙◌, arith}
use my_l3fwd.Prelude.Bits.{xor_low, and_low, xor_low-mod, xor_low-lt, xor_low_cancel, and_low-mask}
use native.Mathlib.Nat.{mod-lt, mod-eq_of_lt, one-le-pow}
use my_l3fwd.Hash.{Config, get_prim_bucket_index, get_alt_bucket_index}

module _ (h : Config) (k : ℕ) (small : k ≤ 32) (mask : h.bucket_bitmask ≡ 2 ^ k - 1) where
  pub masked : (x : ℕ) → and_low 32 x h.bucket_bitmask ≡ x % 2 ^ k
  masked x = ap (and_low 32 x) mask ∙ and_low-mask k 32 x small

  alt_low : (i sig : ℕ) → get_alt_bucket_index h i sig ≡ xor_low k i sig
  unfolding get_alt_bucket_index
  alt_low i sig = masked (xor_low 32 i sig) ∙ xor_low-mod k 32 i sig small

  pub alt-lt : (i sig : ℕ) → get_alt_bucket_index h i sig < 2 ^ k
  alt-lt i sig = rw (alt_low i sig) (xor_low-lt k i sig)

  pub prim-lt : (hash : ℕ) → get_prim_bucket_index h hash < 2 ^ k
  unfolding get_prim_bucket_index
  prim-lt hash = omega (arith, masked hash, mod-lt hash (one-le-pow k 2 (omega arith)))

  pub alt_alt :
      (i sig : ℕ) → i < 2 ^ k → get_alt_bucket_index h (get_alt_bucket_index h i sig) sig ≡ i
  alt_alt i sig in_range =
      alt_low (get_alt_bucket_index h i sig) sig
      ∙ ap (λ x. xor_low k x sig) (alt_low i sig)
      ∙ xor_low_cancel k i sig
      ∙ mod-eq_of_lt in_range

  -- With 2 ^ k buckets, both indices of a key are in range, and the alternative of the alternative
  -- index is the index itself: an entry can always be moved back.
  get_alt_bucket_index_involutive :
      (hash sig : ℕ)
      → let prim = get_prim_bucket_index h hash in
        let alt = get_alt_bucket_index h prim sig in
        (prim < 2 ^ k) × (alt < 2 ^ k) × (get_alt_bucket_index h alt sig ≡ prim)
  get_alt_bucket_index_involutive hash sig =
      let prim = get_prim_bucket_index h hash in
      (prim-lt hash, alt-lt prim sig, alt_alt prim sig (prim-lt hash))
