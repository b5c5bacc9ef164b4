-- ===== src/Hash/LookedUp.antt =====
-- The search that `__rte_hash_add_key_with_hash` of rte_lib/rte_cuckoo_hash.c starts with, and the
-- slot that goes from the ring and back.
use my_l3fwd.Prelude.{ℕ, ◌≢◌, refl, some, List, ◌==◌, Option-cases, inl, inr}
use my_l3fwd.Hash.{
  minus_one, BucketPtr, Config, RingOps, Table, search_and_update, search_chain, alloc_slot,
  enqueue_slot_back,
}
use my_l3fwd.Hash.Add.{look_up}
use my_l3fwd.Hash.Gives.{Gives, Gives-if, Gives-map, Ends, Ends-same}
use my_l3fwd.Hash.Safe.{Same, bucket-Same, Kept, Kept-refl, Kept-of_Same, Framed-of_Same}
use my_l3fwd.Hash.Locks.{next_of}
use my_l3fwd.Hash.Found.{
  Quiet, Quiet-trans, Found, Found-same, search_and_update-Searched, search_chain-Searched,
}

module _ {R : Type 0} (ring : RingOps R) (h : Config) (fuel : ℕ) where
  -- The two searches change only data, and a position that they answer is that of
  -- the key.
  abbrev pub LookedUp :
      (key : List ℕ) (sig : ℕ) → BucketPtr → BucketPtr → Table R → ℕ × Table R → Type 0
  LookedUp key sig prim sec t x =
      Quiet t (x.1) × (x.0 ≢ minus_one → Found key sig (x.1) prim sec (x.0))

  pub look_up-LookedUp :
      (prim sec : BucketPtr) (app_data : ℕ) (key : List ℕ) (sig : ℕ) (t : Table R)
      → Ends fuel (next_of t) (some sec)
      → Gives (LookedUp key sig prim sec t) (look_up ring h fuel prim sec app_data key sig t)
  unfolding look_up
  look_up-LookedUp prim sec app_data key sig t e =
      let (k, hit) = search_and_update-Searched key sig app_data prim t in
      let (found, t') = search_and_update app_data key prim sig t in
      let chain = search_chain fuel app_data key (some sec) sig t' in
      Gives-if (LookedUp key sig prim sec t) (found == minus_one) chain (some (found, t'))
        (Gives-map (LookedUp key sig prim sec t) chain
          (search_chain-Searched key sig fuel app_data (some sec) t'
            (Ends-same fuel (Framed-of_Same k.same).chains (some sec) e))
          (λ x q. (Quiet-trans k (q.0), λ ne. inr (q.1 ne))))
        (k, λ ne. inl (hit ne))

  enqueue-Same : (slot_id : ℕ) (t : Table R) → Same t (enqueue_slot_back ring slot_id t)
  unfolding enqueue_slot_back
  enqueue-Same slot_id t = record {
    same_buckets = refl;
    same_ext = refl;
    same_locks = refl;
    same_keys = λ i. refl;
  }

  -- The slot goes back to the ring, and the key is still found.
  pub Found-enqueue :
      (slot_id : ℕ) (key : List ℕ) (sig : ℕ) (t : Table R) {a alt : BucketPtr} {v : ℕ}
      → Found key sig t a alt v
      → Found key sig (enqueue_slot_back ring slot_id t) a alt v
  Found-enqueue slot_id key sig t f =
      Found-same key sig t _ (bucket-Same (enqueue-Same slot_id t))
        (enqueue-Same slot_id t).same_keys f

  pub enqueue-Kept : (slot_id : ℕ) (t : Table R) → Kept h t (enqueue_slot_back ring slot_id t)
  enqueue-Kept slot_id t = Kept-of_Same (enqueue-Same slot_id t)

  pub alloc_slot-Kept : (t : Table R) → Kept h t (alloc_slot ring t).1
  unfolding alloc_slot
  alloc_slot-Kept t = elim (Option-cases (ring.dequeue t.free_slots)) [
    | inl e ↦ rw (e, alloc_slot) (Kept-refl h t)
    | inr (x, e) ↦
        rw (e, alloc_slot)
          (Kept-of_Same record {
            same_buckets = refl;
            same_ext = refl;
            same_locks = refl;
            same_keys = λ i. refl;
          })
  ]
