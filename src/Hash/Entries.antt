-- ===== src/Hash/Entries.antt =====
-- The entries of the main buckets of rte_lib/rte_cuckoo_hash.c: a signature and a key index, which
-- may move between the two buckets of a key.
pub mod Put
use mathlib.Core.Path.{subst}
use native.Mathlib.Decide.{ℕ_discrete}
use my_l3fwd.Prelude.{
  ℕ, ◌-◌, ◌^◌, ◌≤◌, ◌<◌, ◌≡◌, ◌≢◌, ◌⊎◌, refl, sym, ◌∙◌, ap, arith, Option, List, length, length-set,
  get_or, set, get_or-set_self, get_or-set_ne, get_or-set_same, inl, inr,
}
use my_l3fwd.Hash.{BucketPtr, Bucket, Config, no_bucket, get_alt_bucket_index}
use my_l3fwd.Hash.Index.{alt_alt}

-- Entry `s` of bucket `i` holds a signature and a key index.
pub record Entry (bs : List Bucket) (i s sig idx : ℕ) : Type 0 where
  pub bucket_in : i < length bs
  pub slot_in : s < 8
  pub has_sig : get_or (get_or bs i no_bucket).sig_current s 0 ≡ sig
  pub has_idx : get_or (get_or bs i no_bucket).key_idx s 0 ≡ idx

-- A table of 2 ^ k buckets of 8 entries.
pub record Sized (k : ℕ) (h : Config) (bs : List Bucket) : Type 0 where
  pub small : k ≤ 32
  pub mask : h.bucket_bitmask ≡ 2 ^ k - 1
  pub count : length bs ≡ 2 ^ k
  pub sigs : (i : ℕ) → i < length bs → length (get_or bs i no_bucket).sig_current ≡ 8
  pub idxs : (i : ℕ) → i < length bs → length (get_or bs i no_bucket).key_idx ≡ 8

-- One of the two buckets of a key with the signature.
abbrev pub OfPair : Config → (i sig i' : ℕ) → Type 0
OfPair h i sig i' = (i' ≡ i) ⊎ (i' ≡ get_alt_bucket_index h i sig)

abbrev pub Apart : (i s c hole : ℕ) → Type 0
Apart i s c hole = (i ≢ c) ⊎ (s ≢ hole)

-- Each entry of the first list that is in use stands in the second, in a bucket of its key.
abbrev pub Keeps : Config → List Bucket → List Bucket → Type 0
Keeps h bs bs' =
    (i s sig idx : ℕ)
    → idx ≢ 0
    → Entry bs i s sig idx
    → (i' : ℕ) × (s' : ℕ) × Entry bs' i' s' sig idx × OfPair h i sig i'

-- The same, in a place other than one that is to be overwritten.
abbrev pub KeepsBut : Config → (c hole : ℕ) → List Bucket → List Bucket → Type 0
KeepsBut h c hole bs bs' =
    (i s sig idx : ℕ)
    → idx ≢ 0
    → Entry bs i s sig idx
    → (i' : ℕ) × (s' : ℕ) × Entry bs' i' s' sig idx × OfPair h i sig i' × Apart i' s' c hole

abbrev pub Entries : Config → List Bucket → List Bucket → Type 0
Entries h bs bs' = (k : ℕ) → Sized k h bs → Sized k h bs' × Keeps h bs bs'

pub Entries-refl : (h : Config) (bs : List Bucket) → Entries h bs bs
Entries-refl h bs k z = (z, λ i s sig idx used e. (i, s, e, inl refl))

pub Entries-same : (h : Config) {bs bs' : List Bucket} → bs' ≡ bs → Entries h bs bs'
Entries-same h {bs} p = subst (Entries h bs) (sym p) (Entries-refl h bs)

pub OfPair-trans :
    (h : Config) (k : ℕ)
    → k ≤ 32
    → h.bucket_bitmask ≡ 2 ^ k - 1
    → (i sig i' i'' : ℕ) → i < 2 ^ k
    → OfPair h i sig i'
    → OfPair h i' sig i''
    → OfPair h i sig i''
OfPair-trans h k small mask i sig i' i'' lt (inl p) (inl q) = inl (q ∙ p)
OfPair-trans h k small mask i sig i' i'' lt (inl p) (inr q) =
    inr (q ∙ ap (λ x. get_alt_bucket_index h x sig) p)
OfPair-trans h k small mask i sig i' i'' lt (inr p) (inl q) = inr (q ∙ p)
OfPair-trans h k small mask i sig i' i'' lt (inr p) (inr q) =
    inl (q ∙ ap (λ x. get_alt_bucket_index h x sig) p ∙ alt_alt h k small mask i sig lt)

pub Entries-trans :
    (h : Config) {bs bs' bs'' : List Bucket}
    → Entries h bs bs'
    → Entries h bs' bs''
    → Entries h bs bs''
Entries-trans h p q k z =
    let (z', keep) = p k z in
    let (z'', keep') = q k z' in
    (
      z'',
      λ i s sig idx used e.
          let (i', s', e', near) = keep i s sig idx used e in
          let (i'', s'', e'', near') = keep' i' s' sig idx used e' in
          (
            i'',
            s'',
            e'',
            OfPair-trans h k z.small z.mask i sig i' i'' (omega (arith, e.bucket_in, z.count)) near
                near',
          ),
    )
