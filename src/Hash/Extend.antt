-- ===== src/Hash/Extend.antt =====
-- The lock calls and the entries of the extendable buckets of rte_lib/rte_cuckoo_hash.c.
use mathlib.Core.Path.{subst}
use my_l3fwd.Prelude.{
  ℕ, zero, suc, get_or, ◌-◌, ◌≡◌, refl, arith, ◌∙◌, Option, none, some, List, ◌==◌, Bool-cases,
  Option-cases, inl, inr,
}
use my_l3fwd.Hash.{
  minus_one, minus_enospc, BucketPtr, main, extra, Bucket, Config, RingOps, Table, bucket,
  put_bucket, store_entry, hash_rw_writer_lock, enqueue_slot_back,
}
use my_l3fwd.Hash.Insert.{first_empty}
use my_l3fwd.Hash.Add.{
  look_up, free_in_chain, rte_hash_get_last_bkt, take_ext_bkt, link_bucket, extend, add_to_chain,
  add_extended,
}
use my_l3fwd.Hash.Gives.{Gives, Gives-branch, Gives-bind, Gives-map, Gives-out, Ends}
use my_l3fwd.Hash.Entries.{Entries, Entries-refl, Entries-same, Entries-trans}
use my_l3fwd.Hash.Entries.Put.{put_next-Entries}
use my_l3fwd.Hash.Safe.{
  Kept, Kept-refl, Kept-trans, Kept-of_Same, Released-of_Kept, critical, Chained, Chained-same,
  store_entry-Kept, store_extra-Kept, lock-Chained,
}
use my_l3fwd.Hash.Locks.{next_of, buckets-lock, buckets-unlock, Paired-locks}
use my_l3fwd.Hash.Answer.{Locks, Locks-of_Released, Added, Added-told}
use my_l3fwd.Hash.Calls.{first_empty-free}
use my_l3fwd.Hash.LookedUp.{LookedUp, look_up-LookedUp, enqueue-Kept}

module _ {R : Type 0} (ring : RingOps R) (h : Config) (fuel : ℕ) where
  -- The place is not in use.
  abbrev Free : Table R → Option (BucketPtr × ℕ) → Type 0
  Free t none = Unit
  Free t (some (a, i)) = get_or (bucket t a).key_idx i 0 ≡ 0

  free_in_chain-Free :
      (f : ℕ) (o : Option BucketPtr) (t : Table R)
      → Ends f (next_of t) o
      → Gives (Free t) (free_in_chain ring h fuel f o t)
  unfolding free_in_chain
  free_in_chain-Free f none t e = tt
  free_in_chain-Free zero (some a) t e = absurd e
  free_in_chain-Free (suc f) (some a) t e = elim (Option-cases (first_empty 8 0 (bucket t a))) [
    | inl full ↦ rw (full, free_in_chain) (free_in_chain-Free f (bucket t a).next t e)
    | inr (i, p) ↦ rw (p, free_in_chain) (first_empty-free 8 0 (bucket t a) p)
  ]

  last-Gives :
      (f : ℕ) (a : BucketPtr) (t : Table R)
      → Ends f (next_of t) (some a)
      → Gives (λ x. Unit) (rte_hash_get_last_bkt ring h fuel f a t)
  unfolding rte_hash_get_last_bkt
  last-Gives zero a t e = absurd e
  last-Gives (suc f) a t e = elim (Option-cases (bucket t a).next) [
    | inl end ↦ rw (end, rte_hash_get_last_bkt) tt
    | inr (b, p) ↦ rw (p, rte_hash_get_last_bkt) (last-Gives f b t (subst (Ends f (next_of t)) p e))
  ]

  take_ext_bkt-Kept : (t : Table R) → Kept h t (take_ext_bkt ring h fuel t).1
  unfolding take_ext_bkt
  take_ext_bkt-Kept t = elim (Option-cases (ring.dequeue t.free_ext_bkts)) [
    | inl e ↦ rw (e, take_ext_bkt) (Kept-refl h t)
    | inr (x, e) ↦
        rw (e, take_ext_bkt)
          (Kept-of_Same record {
            same_buckets = refl;
            same_ext = refl;
            same_locks = refl;
            same_keys = λ i. refl;
          })
  ]

  put_bucket-calls :
      (a : BucketPtr) (b : Bucket) (t : Table R) → (put_bucket a b t).lock_calls ≡ t.lock_calls
  unfolding put_bucket
  put_bucket-calls (main i) b t = refl
  put_bucket-calls (extra i) b t = refl

  relink-Entries :
      (a : BucketPtr) (o : Option BucketPtr) (t : Table R)
      → Entries h t.buckets (put_bucket a (record (bucket t a) { next = o }) t).buckets
  unfolding put_bucket bucket
  relink-Entries (main i) o t = put_next-Entries h i o t.buckets
  relink-Entries (extra i) o t = Entries-refl h t.buckets

  -- No lock call is made and no entry is lost; the chains may be longer.
  abbrev pub Silent : {A : Type 0} → Table R → A × Table R → Type 0
  Silent t x = ((x.1).lock_calls ≡ t.lock_calls) × Entries h t.buckets (x.1).buckets

  link_bucket-Silent :
      (sec sig slot_id : ℕ) (t : Table R)
      → Chained fuel t
      → Gives (Silent t) (link_bucket ring h fuel (main sec) sig slot_id t)
  unfolding link_bucket
  link_bucket-Silent sec sig slot_id t c =
      let k = take_ext_bkt-Kept t in
      let (id, t₁) = take_ext_bkt ring h fuel t in
      let t₂ = store_entry (extra (id - 1)) 0 sig slot_id t₁ in
      let both = Kept-trans k (store_extra-Kept h (id - 1) 0 sig slot_id t₁) in
      let (a, ea, u) =
        Gives-out (λ x. Unit) _ (last-Gives fuel (main sec) t₂ (Chained-same fuel both c sec)) in
      elim (Bool-cases (id == 0)) [
        | inl none_left ↦ rw none_left (k.locks, k.entries)
        | inr linked ↦
            rw (linked, ea)
              (
                put_bucket-calls a _ t₂ ∙ both.locks,
                Entries-trans h both.entries (relink-Entries a (some (extra (id - 1))) t₂),
              )
      ]

  extend-Silent :
      (sec sig slot_id : ℕ) (t : Table R)
      → Chained fuel t
      → Gives (Silent t) (extend ring h fuel (main sec) sig slot_id t)
  unfolding extend
  extend-Silent sec sig slot_id t c =
      let link = link_bucket-Silent sec sig slot_id t c in
      Gives-bind (Silent t) (free_in_chain ring h fuel fuel (some (main sec)) t) _
        (free_in_chain-Free fuel (some (main sec)) t (c sec))
        (λ place free. elim (Option-cases place) [
          | inl full ↦ rw full link
          | inr ((a, i), e) ↦
              let k = store_entry-Kept h a i sig slot_id t (subst (Free t) e free) in
              rw e (k.locks, k.entries)
        ])

  add_to_chain-Locks :
      (prim sec app_data : ℕ) (key : List ℕ) (sig slot_id : ℕ) (t : Table R)
      → Chained fuel t
      → Gives
          (Locks h t)
          (add_to_chain ring h fuel (main prim) (main sec) app_data key sig slot_id t)
  unfolding add_to_chain
  add_to_chain-Locks prim sec app_data key sig slot_id t c =
      let locked = hash_rw_writer_lock h t in
      let look = look_up ring h fuel (main prim) (main sec) app_data key sig locked in
      let (x, ex, looked) =
        Gives-out (LookedUp ring h fuel key sig (main prim) (main sec) locked) look (
          look_up-LookedUp ring h fuel (main prim) (main sec) app_data key sig locked
            (lock-Chained fuel h t c sec)) in
      let p = Kept-of_Same (looked.0).same in
      let (y, ey, q) =
        Gives-out (Silent (x.1)) _
          (extend-Silent sec sig slot_id (x.1) (Chained-same fuel p (lock-Chained fuel h t c))) in
      elim (Bool-cases (x.0 == minus_one)) [
        | inl miss ↦
            rw (ex, miss, ey)
              (
                Paired-locks h t (y.1) (q.0 ∙ p.locks),
                Entries-trans h (Entries-same h (buckets-lock h t)) (
                    Entries-trans h p.entries
                      (Entries-trans h (q.1) (Entries-same h (buckets-unlock h (y.1))))),
              )
        | inr hit ↦
            rw (ex, hit)
              (Locks-of_Released (x.0, _)
                (critical h (Kept-trans p (enqueue-Kept ring h fuel slot_id (x.1)))))
      ]

  pub add_extended-Added :
      (prim sec app_data : ℕ) (key : List ℕ) (sig slot_id ret : ℕ) (t : Table R)
      → Chained fuel t
      → ret ≡ minus_enospc
      → Gives
          (Added h key prim sec sig slot_id t)
          (add_extended ring h fuel (main prim) (main sec) app_data key sig slot_id ret t)
  unfolding add_extended
  add_extended-Added prim sec app_data key sig slot_id ret t c no_room =
      Gives-branch (Added h key prim sec sig slot_id t) h.ext_table_support
        (add_to_chain ring h fuel (main prim) (main sec) app_data key sig slot_id t)
        (some (ret, enqueue_slot_back ring slot_id t))
        (λ ext.
          Gives-map (Added h key prim sec sig slot_id t)
            (add_to_chain ring h fuel (main prim) (main sec) app_data key sig slot_id t)
            (add_to_chain-Locks prim sec app_data key sig slot_id t c)
            (λ x p. (p, λ no_ext. absurd (ground (arith, ext, no_ext)))))
        (λ no_ext.
          Added-told h key prim sec sig slot_id (ret, enqueue_slot_back ring slot_id t)
            (Released-of_Kept (enqueue-Kept ring h fuel slot_id t)) (inl no_room))
