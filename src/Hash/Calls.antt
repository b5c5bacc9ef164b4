-- ===== src/Hash/Calls.antt =====
-- The insertion into a bucket with room (`rte_hash_cuckoo_insert_mw` of rte_lib/rte_cuckoo_hash.c):
-- its lock calls and its entries.
use mathlib.Core.Path.{subst}
use my_l3fwd.Prelude.{
  ℕ, zero, suc, ◌+◌, ◌<◌, ◌≡◌, refl, sym, ==_ne, arith, some, List, ◌==◌, if◌then◌else◌, get_or,
  Bool-cases, Option-cases, inl, inr,
}
use my_l3fwd.Hash.{
  minus_one, BucketPtr, main, Bucket, Config, Table, bucket, hash_rw_writer_lock, search_and_update,
  search_chain, store_entry, put_bucket,
}
use my_l3fwd.Hash.Insert.{
  Inserted, stored, failed, present, first_empty, unless_present, fill_first,
  rte_hash_cuckoo_insert_mw,
}
use my_l3fwd.Hash.Gives.{Gives, Gives-bind, Ends, Ends-same}
use my_l3fwd.Hash.Safe.{
  Kept, Same, Same-trans, Kept-refl, Chained, Framed-of_Same, store_entry-Kept, lock-Chained,
}
use my_l3fwd.Hash.Locks.{next_of}
use my_l3fwd.Hash.Lookup.{first_empty-some}
use my_l3fwd.Hash.Moves.{not_stored}
use my_l3fwd.Hash.Entries.{Entry, Sized}
use my_l3fwd.Hash.Entries.Put.{put_entry-here}
use my_l3fwd.Hash.Found.{Found, search_and_update-Searched, search_chain-Searched}
use my_l3fwd.Hash.Made.{InRange, Filled, Made, Filled-of_Same, Filled-present, critical-Made}

-- The entry that the scan finds is not in use.
pub first_empty-free :
    (n i : ℕ) (b : Bucket) {j : ℕ} → first_empty n i b ≡ some j → get_or b.key_idx j 0 ≡ 0
unfolding first_empty
first_empty-free zero i b e = absurd (ground (arith, e))
first_empty-free (suc n) i b {j} e = elim (Bool-cases (get_or b.key_idx i 0 == 0)) [
  | inl free ↦
      let at : i ≡ j = ground (arith, e, free) in
      subst (λ x. get_or b.key_idx x 0 ≡ 0) at (ground (arith, free))
  | inr taken ↦ first_empty-free n (i + 1) b (ground (arith, e, taken))
]

-- It is one of the bucket.
in_bucket : (b : Bucket) {i : ℕ} → first_empty 8 0 b ≡ some i → i < 8
in_bucket b {i} at = omega (arith, first_empty-some 8 0 i b at)

module _ {R : Type 0} (h : Config) (fuel : ℕ) where
  -- The two searches change neither buckets nor lock; the rest is what follows.
  pub unless_present-Gives :
      (P : Inserted × Table R → Type 0) (prim sec : BucketPtr) (app_data : ℕ) (key : List ℕ)
      (sig : ℕ) (absent : Table R → Inserted × Table R) (t : Table R)
      → ((u : Table R) → Same t u → P (absent u))
      → ((v : ℕ) (u : Table R) → Same t u → Found key sig u prim sec v → P (present v, u))
      → Ends fuel (next_of t) (some sec)
      → Gives P (unless_present fuel prim sec app_data key sig absent t)
  unfolding unless_present
  unless_present-Gives P prim sec app_data key sig absent t keeps found_same e =
      let (k, hit) = search_and_update-Searched key sig app_data prim t in
      let (found, t') = search_and_update app_data key prim sig t in
      let chain = search_chain fuel app_data key (some sec) sig t' in
      let then_absent = λ (x : ℕ × Table R).
        some (if x.0 == minus_one then absent (x.1) else (present (x.0), x.1)) in
      elim (Bool-cases (found == minus_one)) [
        | inl none_here ↦ rw none_here (
            Gives-bind P chain then_absent
              (search_chain-Searched key sig fuel app_data (some sec) t'
                (Ends-same fuel (Framed-of_Same k.same).chains (some sec) e))
              (λ x q.
                let both = Same-trans k.same (q.0).same in
                elim (Bool-cases (x.0 == minus_one)) [
                  | inl miss ↦ rw miss (keeps (x.1) both)
                  | inr other ↦ rw other (found_same (x.0) (x.1) both (inr (q.1 (==_ne other))))
                ]))
        | inr one ↦ rw one (found_same found t' k.same (inl (hit (==_ne one))))
      ]

  fill_first-Kept :
      (a : BucketPtr) (sig new_idx : ℕ) (t : Table R) → Kept h t (fill_first a sig new_idx t).1
  unfolding fill_first
  fill_first-Kept a sig new_idx t = elim (Option-cases (first_empty 8 0 (bucket t a))) [
    | inl full ↦ rw (full, fill_first) (Kept-refl h t)
    | inr (i, e) ↦
        rw (e, fill_first)
          (store_entry-Kept h a i sig new_idx t (first_empty-free 8 0 (bucket t a) e))
  ]

  stored_here :
      (k a i sig new_idx : ℕ) (t : Table R)
      → InRange h a
      → i < 8
      → Sized k h t.buckets
      → Entry (store_entry (main a) i sig new_idx t).buckets a i sig new_idx
  unfolding store_entry put_bucket bucket
  stored_here k a i sig new_idx t in_range lt z =
      put_entry-here k h a i sig new_idx t.buckets z
        (omega (arith, in_range k z.small z.mask, z.count)) lt

  fill_first-Filled :
      (key : List ℕ) (a alt sig new_idx : ℕ) (t : Table R)
      → InRange h a
      → Filled h key a alt sig new_idx t (fill_first (main a) sig new_idx t)
  unfolding fill_first
  fill_first-Filled key a alt sig new_idx t in_range =
      elim (Option-cases (first_empty 8 0 (bucket t (main a)))) [
        | inl full ↦
            let e : fill_first (main a) sig new_idx t ≡ (failed minus_one, t) =
              rw (full, fill_first) refl in
            subst (Filled h key a alt sig new_idx t) (sym e)
              (Kept-refl h t, λ k z p. absurd (not_stored minus_one p), refl)
        | inr (i, at) ↦
            let e : fill_first (main a) sig new_idx t
                ≡ (stored, store_entry (main a) i sig new_idx t) =
              rw (at, fill_first) refl in
            subst (Filled h key a alt sig new_idx t) (sym e) (
              store_entry-Kept h (main a) i sig new_idx t
                  (first_empty-free 8 0 (bucket t (main a)) at),
              λ k z p. (
                i,
                stored_here k a i sig new_idx t in_range (in_bucket (bucket t (main a)) at) z,
              ),
              tt,
            )
      ]

  pub insert_mw-Made :
      (prim sec : ℕ) (app_data : ℕ) (key : List ℕ) (sig new_idx : ℕ) (t : Table R)
      → InRange h prim
      → Chained fuel t
      → Gives
          (Made h key prim sec sig new_idx minus_one t)
          (rte_hash_cuckoo_insert_mw fuel h (main prim) (main sec) app_data key sig new_idx t)
  unfolding rte_hash_cuckoo_insert_mw
  insert_mw-Made prim sec app_data key sig new_idx t in_range c =
      let locked = hash_rw_writer_lock h t in
      let fill = fill_first (main prim) sig new_idx in
      critical-Made h key prim sec sig new_idx t
        (unless_present fuel (main prim) (main sec) app_data key sig fill locked)
        (unless_present-Gives (Filled h key prim sec sig new_idx locked) (main prim) (main sec)
          app_data key sig fill locked
          (λ u s.
            Filled-of_Same h key prim sec sig new_idx (fill u) s
              (fill_first-Filled key prim sec sig new_idx u in_range))
          (λ v u s f. Filled-present h key prim sec sig new_idx v s f)
          (lock-Chained fuel h t c sec))
