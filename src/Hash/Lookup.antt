-- ===== src/Hash/Lookup.antt =====
-- What `search_and_update` of rte_lib/rte_cuckoo_hash.c finds in a bucket after a key has been stored
-- there.
use mathlib.Core.Path.{subst}
use native.Mathlib.Decide.{ℕ_discrete}
use my_l3fwd.Prelude.{
  ℕ, zero, suc, ◌+◌, ◌^◌, ◌≤◌, ◌<◌, ◌≡◌, ◌≢◌, refl, sym, ◌∙◌, ap, arith, true, false, some, List,
  [], ◌∷◌, ◌++◌, ◌==◌, get_or, set, take, drop, length, Bool-cases, inl, inr, get_or-set_self,
  get_or-set_ne, ==_refl,
}
use my_l3fwd.Hash.{
  minus_one, empty_slot, position, main, Bucket, HashKey, Config, RingOps, Table, bucket,
  put_bucket, store_entry, no_bucket, no_key, memcmp_eq, rte_hash_cmp_eq, entry_matches, set_pdata,
  search_from, search_and_update,
}
use my_l3fwd.Hash.Insert.{stored, first_empty, fill_first}
use my_l3fwd.Hash.Add.{fill_slot}

true-ne-false : true ≢ false
true-ne-false = ground arith

module _ {R : Type 0} where
  search_from-hit :
      (n i j app_data : ℕ) (key : List ℕ) (b : Bucket) (sig : ℕ) (t : Table R)
      → i ≤ j
      → j < i + n
      → ((k : ℕ) → i ≤ k → k < j → entry_matches t b key sig k ≡ false)
      → entry_matches t b key sig j ≡ true
      → search_from n i app_data key b sig t
        ≡ (position (get_or b.key_idx j 0), set_pdata (get_or b.key_idx j 0) app_data t)
  unfolding search_from
  search_from-hit zero i j app_data key b sig t le lt before at = absurd (omega arith)
  search_from-hit (suc n) i j app_data key b sig t le lt before at = elim (ℕ_discrete i j) [
    | yes e ↦ rw (e, at)
    | no ne ↦ rw (before i (omega arith) (omega arith)) (
        search_from-hit n (i + 1) j app_data key b sig t (omega arith) (omega arith)
          (λ k p q. before k (omega arith) q) at)
  ]

  -- A search that returns -1 has met no match before the first free entry.
  search_from-miss :
      (n i j app_data : ℕ) (key : List ℕ) (b : Bucket) (sig : ℕ) (t : Table R)
      → (search_from n i app_data key b sig t).0 ≡ minus_one
      → ((k : ℕ) → get_or b.key_idx k 0 < 2 ^ 32)
      → ((k : ℕ) → i ≤ k → k < j → get_or b.key_idx k 0 ≢ 0)
      → j < i + n
      → (k : ℕ) → i ≤ k
      → k < j
      → entry_matches t b key sig k ≡ false
  unfolding search_from
  search_from-miss zero i j app_data key b sig t miss small used lt k p q = absurd (omega arith)
  search_from-miss (suc n) i j app_data key b sig t miss small used lt k p q =
      elim (Bool-cases (entry_matches t b key sig i)) [
        | inl hit ↦
            let r : (search_from (suc n) i app_data key b sig t).0
                ≡ position (get_or b.key_idx i 0) =
              rw hit refl in
            let e : position (get_or b.key_idx i 0) ≡ minus_one = sym r ∙ miss in
            absurd (omega (arith, e, small i, used i (omega arith) (omega arith)))
        | inr no_hit ↦ elim (ℕ_discrete i k) [
          | yes e ↦ subst (λ x. entry_matches t b key sig x ≡ false) e no_hit
          | no ne ↦
              let r : (search_from (suc n) i app_data key b sig t).0
                  ≡ (search_from n (i + 1) app_data key b sig t).0 =
                rw no_hit refl in
              search_from-miss n (i + 1) j app_data key b sig t (sym r ∙ miss) small
                (λ k' p' q'. used k' (omega arith) q') (omega arith) k (omega arith) q
        ]
      ]

pub first_empty-some :
    (n i j : ℕ) (b : Bucket)
    → first_empty n i b ≡ some j
    → (i ≤ j) × (j < i + n) × ((k : ℕ) → i ≤ k → k < j → get_or b.key_idx k 0 ≢ 0)
unfolding first_empty
first_empty-some zero i j b e = absurd (ground (arith, e))
first_empty-some (suc n) i j b e = elim (Bool-cases (get_or b.key_idx i empty_slot == empty_slot)) [
  | inl free ↦
      let r : first_empty (suc n) i b ≡ some i = rw free refl in
      let same : i ≡ j = ground (arith, sym r ∙ e) in
      (omega arith, omega arith, λ k p q. absurd (omega arith))
  | inr used ↦
      let r : first_empty (suc n) i b ≡ first_empty n (i + 1) b = rw used refl in
      let rest = first_empty-some n (i + 1) j b (sym r ∙ e) in
      (
        omega (arith, rest.0),
        omega (arith, rest.1),
        λ k p q. elim (ℕ_discrete i k) [
          | yes at ↦ λ zero_at. ground (arith, used, at, zero_at)
          | no ne ↦ rest.2 k (omega arith) q
        ],
      )
]

get_or-append : (a r : List ℕ) (i d : ℕ) → i < length a → get_or (a ++ r) i d ≡ get_or a i d
get_or-append [] r i d h = absurd (omega arith)
get_or-append (x ∷ a) r zero d h = refl
get_or-append (x ∷ a) r (suc i) d h = get_or-append a r i d (omega arith)

pub take_whole : (a : List ℕ) (n : ℕ) → n ≡ length a → take n a ≡ a
take_whole [] zero h = refl
take_whole [] (suc n) h = absurd (omega arith)
take_whole (x ∷ a) zero h = absurd (omega arith)
take_whole (x ∷ a) (suc n) h = ap (λ l. x ∷ l) (take_whole a n (omega arith))

pub memcmp_eq-append : (n : ℕ) (a r : List ℕ) → n ≤ length a → memcmp_eq n a (a ++ r) ≡ true
unfolding memcmp_eq
memcmp_eq-append zero a r h = refl
memcmp_eq-append (suc n) a r h =
    rw
      (
        memcmp_eq-append n a r (omega arith),
        get_or-append a r n 0 (omega arith),
        ==_refl (get_or a n 0),
      )
      refl

-- A key and a slot as the insertion meets them: the bucket is one of the table with 8 entries, it
-- does not use the slot, and the slot is one of the key store.
pub record Fresh {R : Type 0} (h : Config) (key : List ℕ) (i slot_id : ℕ) (t : Table R)
    : Type 0 where
  pub in_table : i < length t.buckets
  pub sigs : length (bucket t (main i)).sig_current ≡ 8
  pub idxs : length (bucket t (main i)).key_idx ≡ 8
  pub words : (k : ℕ) → get_or (bucket t (main i)).key_idx k 0 < 2 ^ 32
  pub unused : (k : ℕ) → get_or (bucket t (main i)).key_idx k 0 ≢ slot_id
  pub in_store : slot_id < length t.key_store
  pub whole : h.key_len ≡ length key
  pub long : 8 ≤ length key

module _ {R : Type 0} (ring : RingOps R) (h : Config) (fuel : ℕ) (key : List ℕ)
    (sig i slot_id d₁ j : ℕ) (t : Table R) (fr : Fresh h key i slot_id t)
    (free : first_empty 8 0 (bucket t (main i)) ≡ some j) where
  filled : Table R
  filled = fill_slot ring h fuel slot_id d₁ key t

  after : Table R
  unfolding filled
  after = store_entry (main i) j sig slot_id filled

  fill_first-eq : fill_first (main i) sig slot_id filled ≡ (stored, after)
  unfolding after filled fill_slot bucket fill_first store_entry
  fill_first-eq = rw (free, fill_first)

  bucket-after : bucket after (main i) ≡ record (bucket t (main i)) {
    sig_current = set (bucket t (main i)).sig_current j sig;
    key_idx = set (bucket t (main i)).key_idx j slot_id;
  }
  unfolding after filled fill_slot store_entry put_bucket bucket
  bucket-after = get_or-set_self t.buckets i _ no_bucket fr.in_table

  key_of : HashKey
  key_of = record {
    pdata = d₁;
    key = take h.key_len key ++ drop h.key_len (get_or t.key_store slot_id no_key).key;
  }

  store_after : after.key_store ≡ set t.key_store slot_id key_of
  unfolding after filled key_of fill_slot store_entry put_bucket
  store_after = refl

  sig_after :
      (k : ℕ)
      → k < j
      → get_or (bucket after (main i)).sig_current k 0 ≡ get_or (bucket t (main i)).sig_current k 0
  sig_after k q =
      rw bucket-after (get_or-set_ne (bucket t (main i)).sig_current j k sig 0 (omega arith))

  idx_after :
      (k : ℕ)
      → k < j
      → get_or (bucket after (main i)).key_idx k 0 ≡ get_or (bucket t (main i)).key_idx k 0
  idx_after k q =
      rw bucket-after (get_or-set_ne (bucket t (main i)).key_idx j k slot_id 0 (omega arith))

  other_key : (x : ℕ) → x ≢ slot_id → get_or after.key_store x no_key ≡ get_or t.key_store x no_key
  other_key x ne =
      rw store_after (get_or-set_ne t.key_store slot_id x key_of no_key (λ e. ne (sym e)))

  earlier_entries :
      (k : ℕ)
      → k < j
      → entry_matches after (bucket after (main i)) key sig k
        ≡ entry_matches t (bucket t (main i)) key sig k
  unfolding entry_matches
  earlier_entries k q = rw (
    sig_after k q,
    idx_after k q,
    other_key (get_or (bucket t (main i)).key_idx k 0) (fr.unused k),
  )

  in_bucket : j < 8
  in_bucket = omega (arith, first_empty-some 8 0 j (bucket t (main i)) free)

  in_bucket_idx : j < length (bucket t (main i)).key_idx
  in_bucket_idx = omega (arith, fr.idxs, in_bucket)

  in_bucket_sig : j < length (bucket t (main i)).sig_current
  in_bucket_sig = omega (arith, fr.sigs, in_bucket)

  sig_new : get_or (bucket after (main i)).sig_current j 0 ≡ sig
  sig_new = rw bucket-after (get_or-set_self (bucket t (main i)).sig_current j sig 0 in_bucket_sig)

  key_new : get_or after.key_store slot_id no_key ≡ key_of
  key_new = rw store_after (get_or-set_self t.key_store slot_id key_of no_key fr.in_store)

  same_key : rte_hash_cmp_eq key key_of.key ≡ true
  unfolding key_of
  same_key =
      rw (take_whole key h.key_len fr.whole)
        (memcmp_eq-append 8 key (drop h.key_len (get_or t.key_store slot_id no_key).key) fr.long)

  idx_new : get_or (bucket after (main i)).key_idx j 0 ≡ slot_id
  idx_new = rw bucket-after (get_or-set_self (bucket t (main i)).key_idx j slot_id 0 in_bucket_idx)

  new_entry : entry_matches after (bucket after (main i)) key sig j ≡ true
  unfolding entry_matches
  new_entry = rw (sig_new, idx_new, key_new, same_key, ==_refl sig) refl

  -- If the primary bucket does not have the key, has a free entry, and the slot is fresh, then
  -- after the slot has been filled and the bucket's first free entry taken, a search of the
  -- bucket finds the key at that slot, and replaces its data.
  search_and_update-fill :
      (d₀ d₂ : ℕ)
      → (search_and_update d₀ key (main i) sig t).0 ≡ minus_one
      → let (r, t') = fill_first (main i) sig slot_id (fill_slot ring h fuel slot_id d₁ key t) in
        (r ≡ stored)
        × (search_and_update d₂ key (main i) sig t' ≡ (position slot_id, set_pdata slot_id d₂ t'))
  unfolding filled search_and_update
  search_and_update-fill d₀ d₂ miss =
      let (lo, hi, used) = first_empty-some 8 0 j (bucket t (main i)) free in
      let before = search_from-miss 8 0 j d₀ key (bucket t (main i)) sig t miss fr.words used hi in
      let found : search_and_update d₂ key (main i) sig after
          ≡ (position slot_id, set_pdata slot_id d₂ after) =
        search_from-hit 8 0 j d₂ key (bucket after (main i)) sig after lo hi
          (λ k p q. earlier_entries k q ∙ before k p q) new_entry
        ∙ ap (λ x. (position x, set_pdata x d₂ after)) idx_new in
      rw fill_first-eq (refl, found)
