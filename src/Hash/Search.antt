-- ===== src/Hash/Search.antt =====
-- What `search_and_update` of rte_lib/rte_cuckoo_hash.c finds in a bucket.
use my_l3fwd.Prelude.{
  ℕ, zero, suc, ◌+◌, ◌≤◌, ◌<◌, ◌≡◌, ◌⊎◌, refl, arith, true, false, List, ◌==◌, get_or, Bool-cases,
  inl, inr,
}
use mathlib.Core.Path.{subst}
use my_l3fwd.Hash.{
  minus_one, BucketPtr, Bucket, Table, bucket, position, set_pdata, entry_matches, search_from,
  search_and_update,
}

module _ {R : Type 0} (app_data : ℕ) (key : List ℕ) (sig : ℕ) (t : Table R) where
  abbrev hit_at : Bucket → ℕ → ℕ × Table R
  hit_at b j = (position (get_or b.key_idx j 0), set_pdata (get_or b.key_idx j 0) app_data t)

  -- The result is that of the first match among the entries from `i` to `i + n`, or there is none.
  abbrev First : Bucket → (n i : ℕ) → ℕ × Table R → Type 0
  First b n i x =
      ((j : ℕ) × (i ≤ j)
        × (j < i + n)
        × (entry_matches t b key sig j ≡ true)
        × ((l : ℕ) → i ≤ l → l < j → entry_matches t b key sig l ≡ false)
        × (x ≡ hit_at b j))
      ⊎ (((l : ℕ) → i ≤ l → l < i + n → entry_matches t b key sig l ≡ false) × (x ≡ (minus_one, t)))

  earlier :
      (b : Bucket) (i l : ℕ) (rest : i + 1 ≤ l → entry_matches t b key sig l ≡ false)
      → entry_matches t b key sig i ≡ false
      → i ≤ l
      → entry_matches t b key sig l ≡ false
  earlier b i l rest here le = elim (Bool-cases (i == l)) [
    | inl same ↦ subst (λ m. entry_matches t b key sig m ≡ false) (ground (arith, same)) here
    | inr other ↦ rest (ground (arith, other, le))
  ]

  search_from-First : (n i : ℕ) (b : Bucket) → First b n i (search_from n i app_data key b sig t)
  unfolding search_from
  search_from-First zero i b = inr (λ l le lt. absurd (omega arith), refl)
  search_from-First (suc n) i b = elim (Bool-cases (entry_matches t b key sig i)) [
    | inl hit ↦ inl (i, omega arith, omega arith, hit, λ l le lt. absurd (omega arith), rw hit refl)
    | inr miss ↦ elim (search_from-First n (i + 1) b) [
      | inl (j, le, lt, hit, before, e) ↦ inl (
        j,
        omega arith,
        omega arith,
        hit,
        λ l le' lt'. earlier b i l (λ ge. before l ge lt') miss le',
        rw miss e,
      )
      | inr (none_left, e) ↦
          inr (λ l le' lt'. earlier b i l (λ ge. none_left l ge (omega arith)) miss le', rw miss e)
    ]
  ]

  -- The search of a bucket answers with the first of its 8 entries that has the signature and whose
  -- key matches, and replaces the data of that entry's key; if no entry matches, it answers -1 and
  -- changes nothing.
  pub search_and_update-first :
      (a : BucketPtr)
      → let b = bucket t a in
        let x = search_and_update app_data key a sig t in
        ((j : ℕ) × (j < 8)
          × (entry_matches t b key sig j ≡ true)
          × ((l : ℕ) → l < j → entry_matches t b key sig l ≡ false)
          × (x ≡ (position (get_or b.key_idx j 0), set_pdata (get_or b.key_idx j 0) app_data t)))
        ⊎ (((l : ℕ) → l < 8 → entry_matches t b key sig l ≡ false) × (x ≡ (minus_one, t)))
  unfolding search_and_update
  search_and_update-first a = elim (search_from-First 8 0 (bucket t a)) [
    | inl (j, le, lt, hit, before, e) ↦ inl (j, lt, hit, λ l lt'. before l (omega arith) lt', e)
    | inr (none_left, e) ↦ inr (λ l lt. none_left l (omega arith) lt, e)
  ]
