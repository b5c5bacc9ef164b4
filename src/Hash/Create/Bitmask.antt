-- ===== src/Hash/Create/Bitmask.antt =====
-- The number of buckets of a new table and its mask.
use native.Mathlib.Nat.{one-le-pow, pow-le-pow_right}
use my_l3fwd.Prelude.{
  ℕ, zero, suc, ◌+◌, ◌-◌, ◌*◌, ◌/◌, ◌^◌, ◌≤◌, ◌<◌, ◌≡◌, ◌↔◌, inl, inr, refl, ◌∙◌, ap, arith, Bool,
  true, false, not, ◌&&◌, leb, some, List, [], ◌∷◌, length, get_or, Bool-cases, u32,
}
use my_l3fwd.Hash.{Bucket, RingOps, HashKey, no_bucket}
use my_l3fwd.Hash.Entries.{Sized}
use my_l3fwd.Hash.Create.{
  null_access, rte_hash_create, ext_table, num_key_slots, HashParameters, valid, num_buckets,
  new_config, new_table, has_flag, rw_concurrency, rw_concurrency_lf,
}

-- `rte_align32pow2` gives the next power of two, for numbers up to 2 ^ 31.
abbrev pub NextPower : (ℕ → ℕ) → Type 0
NextPower align =
    (n : ℕ) → 0 < n → n ≤ 2 ^ 31 → (j : ℕ) × (align n ≡ 2 ^ j) × (n ≤ 2 ^ j) × (2 ^ j < 2 * n)

valid-entries : (p : HashParameters) → valid p ≡ true → (8 ≤ p.entries) × (p.entries ≤ 2 ^ 30)
unfolding valid
valid-entries p ok = (ground (arith, ok), ground (arith, ok))

-- An eighth of a power of two from 8 on.
eighth :
    (n j : ℕ)
    → 8 ≤ n
    → n ≤ 2 ^ j
    → 2 ^ j < 2 * n
    → n ≤ 2 ^ 30
    → (k : ℕ) × (2 ^ j / 8 ≡ 2 ^ k) × (n ≤ 8 * 2 ^ k) × (8 * 2 ^ k < 2 * n)
eighth n zero ge le lt max = absurd (omega arith)
eighth n (suc zero) ge le lt max = absurd (omega arith)
eighth n (suc (suc zero)) ge le lt max = absurd (omega arith)
eighth n (suc (suc (suc k))) ge le lt max = (k, omega arith, omega arith, omega arith)

small_exponent : (k : ℕ) → 2 ^ k < 2 ^ 28 → k ≤ 27
small_exponent k lt = elim (Bool-cases (leb k 27)) [
  | inl small ↦ ground (arith, small)
  | inr big ↦
      let le : 2 ^ 28 ≤ 2 ^ k = pow-le-pow_right (omega arith) {i = 28} (ground (arith, big)) in
      absurd (omega arith)
]

only_first : (b : Bucket) (i : ℕ) → i < 1 → get_or (b ∷ []) i no_bucket ≡ b
only_first b zero lt = refl
only_first b (suc i) lt = absurd (omega arith)

module _ (align : ℕ → ℕ) (next_power : NextPower align) (p : HashParameters)
    (ok : valid p ≡ true) where
  -- If the parameters are valid and `rte_align32pow2` gives the next power of two, then the number
  -- of buckets that is computed for a new table is 2 ^ k with k at most 27, and the mask of its
  -- indices is 2 ^ k - 1. That many buckets would have room for all entries, but not for twice as
  -- many; how many are allocated is another matter.
  pub new_config-mask :
      (k : ℕ) × (k ≤ 27)
      × (num_buckets align p ≡ 2 ^ k)
      × ((new_config align p).bucket_bitmask ≡ 2 ^ k - 1)
      × (p.entries ≤ 8 * 2 ^ k)
      × (8 * 2 ^ k < 2 * p.entries)
  unfolding num_buckets new_config
  new_config-mask =
      let (ge, max) = valid-entries p ok in
      let (j, e, le, lt) = next_power p.entries (omega arith) (omega arith) in
      let (k, quotient, room, tight) = eighth p.entries j ge le lt max in
      let small = small_exponent k (omega arith) in
      let buckets : align p.entries / 8 ≡ 2 ^ k = ap (λ x. x / 8) e ∙ quotient in
      let some_bucket = one-le-pow k 2 (omega arith) in
      (k, small, buckets, ap (λ x. u32 (x + 2 ^ 32 - 1)) buckets ∙ omega arith, room, tight)

  -- Under these conditions, and with 8 signatures and 8 key indices in whatever the memory held:
  -- the array of buckets of a new table has the number of buckets that its mask needs exactly
  -- when 8 entries are asked for.
  pub new_table-Sized_iff :
      {R : Type 0} (ring : RingOps R) (junk : Bucket) (junk_ext : List Bucket)
      (junk_keys : List HashKey) (r r_ext : R)
      → length junk.sig_current ≡ 8
      → length junk.key_idx ≡ 8
      → ((k : ℕ) × Sized k
            (new_config align p)
            (new_table align ring p junk junk_ext junk_keys r r_ext).buckets)
        ↔ (p.entries ≡ 8)
  unfolding new_table
  new_table-Sized_iff ring junk junk_ext junk_keys r r_ext sigs idxs =
      let (k, small, buckets, mask, room, tight) = new_config-mask in
      let (ge, max) = valid-entries p ok in
      (
        λ x.
            let (k', z) = x in
            omega (arith, z.count, z.mask, mask, room, ge, one-le-pow k 2 (omega arith)),
        λ e. (
          0,
          record {
            small = omega arith;
            mask = omega (arith, e, mask, tight);
            count = refl;
            sigs = λ i lt. ap (λ (b : Bucket). length b.sig_current) (only_first junk i lt) ∙ sigs;
            idxs = λ i lt. ap (λ (b : Bucket). length b.key_idx) (only_first junk i lt) ∙ idxs;
          },
        ),
      )

-- In a table with valid parameters the two kinds of concurrent reading exclude each other, and a
-- writer takes the lock when readers do.
new_config-flags :
    (align : ℕ → ℕ) (p : HashParameters)
    → valid p ≡ true
    → let h = new_config align p in
      ((h.readwrite_concur_support && h.readwrite_concur_lf_support) ≡ false)
      × ((h.readwrite_concur_support && not h.writer_takes_lock) ≡ false)
unfolding valid new_config
new_config-flags align p ok = (ground (arith, ok), ground arith)

-- The call gives no table. It reads through a null pointer exactly when 8 to 2 ^ 30 entries and a
-- key of some length are asked for, only the lowest six flags are used, those for the two kinds
-- of concurrent reading not both, and the rings are made, the second only if it is asked for. In
-- all other cases it returns NULL.
pub rte_hash_create_iff :
    (align : ℕ → ℕ) (ring_create : (ext : Bool) (count : ℕ) → Bool) (p : HashParameters)
    → (rte_hash_create align ring_create (some p) ≡ null_access) ↔ (
        (8 ≤ p.entries)
        × (p.entries ≤ 2 ^ 30)
        × (0 < p.key_len)
        × (p.extra_flag < 64)
        × ((has_flag p.extra_flag rw_concurrency && has_flag p.extra_flag rw_concurrency_lf)
            ≡ false)
        × (ring_create false (align (num_key_slots p)) ≡ true)
        × ((has_flag p.extra_flag ext_table
              && not (ring_create true (align (u32 (num_buckets align p + 1)))))
            ≡ false))
unfolding rte_hash_create valid
rte_hash_create_iff align ring_create p = (
  λ e. (
    ground (arith, e),
    ground (arith, e),
    ground (arith, e),
    ground (arith, e),
    ground (arith, e),
    ground (arith, e),
    ground (arith, e),
  ),
  λ e. ground (arith, e.0, e.1, e.2, e.3, e.4, e.5, e.6),
)
