-- ===== src/Hash/Create/Tests.antt =====
-- The next power of two by doubling, and instances of the theorems about a new table.
use native.Mathlib.Nat.{pow-suc}
use my_l3fwd.Prelude.{
  Bool, false, ℕ, zero, suc, ◌+◌, ◌-◌, ◌*◌, ◌^◌, ◌≤◌, ◌<◌, ◌≡◌, ◌↔◌, refl, sym, ◌∙◌, ap, arith,
  true, false, not, ◌&&◌, some, [], leb, if◌then◌else◌, Bool-cases, inl, inr,
}
use my_l3fwd.Hash.Entries.{Sized}
use my_l3fwd.Hash.Tests.{list_ring, zeroed}
use my_l3fwd.Hash.Create.{
  HashParameters, null_access, valid, num_buckets, new_config, new_table, has_flag, ext_table,
  rw_concurrency, rw_concurrency_lf, rte_hash_create,
}
use my_l3fwd.Hash.Create.Bitmask.{
  NextPower, new_config-mask, new_table-Sized_iff, rte_hash_create_iff,
}
use my_l3fwd.Hash.Create.Locked.{
  Allocation, tailq_entry, hash_struct, bucket_array, ext_bucket_array, ext_bkt_to_free, key_table,
  change_count, readwrite_lock, tailq_lock,
}

abbrev doubled : (rounds x n : ℕ) → ℕ
doubled zero x n = x
doubled (suc f) x n = let rest = doubled f (x * 2) n in if leb n x then x else rest

doubled_lem :
    (f j n : ℕ)
    → 2 ^ j < 2 * n
    → n ≤ 2 ^ (j + f)
    → (k : ℕ) × (doubled f (2 ^ j) n ≡ 2 ^ k) × (n ≤ 2 ^ k) × (2 ^ k < 2 * n)
doubled_lem zero j n lt le =
    let same : 2 ^ (j + 0) ≡ 2 ^ j = ap (λ x. 2 ^ x) (omega arith) in
    (j, refl, omega (arith, same), lt)
doubled_lem (suc f) j n lt le = elim (Bool-cases (leb n (2 ^ j))) [
  | inl enough ↦ (j, rw enough refl, ground (arith, enough), lt)
  | inr short ↦
      let twice : 2 ^ suc j ≡ 2 ^ j * 2 = pow-suc 2 j in
      let same : 2 ^ (j + suc f) ≡ 2 ^ (suc j + f) = ap (λ x. 2 ^ x) (omega arith) in
      let (k, e, ge, tight) =
        doubled_lem f (suc j) n (ground (arith, short, twice)) (omega (arith, same)) in
      (k, rw short (ap (λ x. doubled f x n) (sym twice) ∙ e), ge, tight)
]

abbrev align32pow2 : ℕ → ℕ
align32pow2 n = doubled 31 1 n

align32pow2-NextPower : NextPower align32pow2
align32pow2-NextPower n pos le = doubled_lem 31 0 n (omega arith) le

abbrev parameters : HashParameters
parameters = record { entries = 100; key_len = 16; hash_func_init_val = 0; extra_flag = 0x0c }

abbrev eight_entries : HashParameters
eight_entries = record parameters { entries = 8 }

new_config-mask_example :
    (k : ℕ) × (k ≤ 27)
    × (num_buckets align32pow2 parameters ≡ 2 ^ k)
    × ((new_config align32pow2 parameters).bucket_bitmask ≡ 2 ^ k - 1)
    × (100 ≤ 8 * 2 ^ k)
    × (8 * 2 ^ k < 2 * 100)
unfolding valid
new_config-mask_example = new_config-mask align32pow2 align32pow2-NextPower parameters refl

new_table-Sized_iff_example :
    ((k : ℕ) × Sized k
        (new_config align32pow2 eight_entries)
        (new_table align32pow2 list_ring eight_entries zeroed [] [] [] []).buckets)
    ↔ (eight_entries.entries ≡ 8)
unfolding valid
new_table-Sized_iff_example =
    new_table-Sized_iff align32pow2 align32pow2-NextPower eight_entries refl list_ring zeroed [] []
      [] [] refl refl

-- There is no memory for the keys.
abbrev no_keys : Allocation → Bool
no_keys key_table = false
no_keys tailq_entry = true
no_keys hash_struct = true
no_keys bucket_array = true
no_keys ext_bucket_array = true
no_keys ext_bkt_to_free = true
no_keys change_count = true
no_keys readwrite_lock = true
no_keys tailq_lock = true

rte_hash_create_iff_example :
    (rte_hash_create align32pow2 (λ ext count. true) (some parameters) ≡ null_access) ↔ (
      (8 ≤ parameters.entries)
      × (parameters.entries ≤ 2 ^ 30)
      × (0 < parameters.key_len)
      × (parameters.extra_flag < 64)
      × ((has_flag parameters.extra_flag rw_concurrency
            && has_flag parameters.extra_flag rw_concurrency_lf)
          ≡ false)
      × (true ≡ true)
      × ((has_flag parameters.extra_flag ext_table && not true) ≡ false))
rte_hash_create_iff_example = rte_hash_create_iff align32pow2 (λ ext count. true) parameters
