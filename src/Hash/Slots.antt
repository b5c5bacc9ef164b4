-- ===== src/Hash/Slots.antt =====
-- The slot of the key store of rte_lib/rte_cuckoo_hash.c that an insertion takes, and the key that it
-- writes there.
use my_l3fwd.Prelude.{
  take-append, take, none, ◌∙◌, ◌<◌, ◌≤◌, ◌≢◌, sym, length, get_or, drop, get_or-set_self,
  get_or-set_ne, Option-cases, ℕ, ◌≡◌, refl, ap, Option, some, List, inl, inr,
}
use my_l3fwd.Hash.{
  HashKey, no_key, empty_slot, BucketPtr, main, extra, Bucket, bucket, Config, RingOps, Table,
  alloc_slot,
}
use my_l3fwd.Hash.Add.{fill_slot}
use my_l3fwd.Hash.Gives.{Ends-same}
use my_l3fwd.Hash.Safe.{Chained}
use my_l3fwd.Hash.Lookup.{take_whole, memcmp_eq-append}
use my_l3fwd.Hash.Answer.{HasKey, Locks}

module _ {R : Type 0} where
  -- All keys but that of one slot are as before.
  abbrev pub KeysBut : (slot_id : ℕ) → Table R → Table R → Type 0
  KeysBut slot_id t u =
      (i : ℕ) → i ≢ slot_id → (get_or u.key_store i no_key).key ≡ (get_or t.key_store i no_key).key

module _ {R : Type 0} (ring : RingOps R) (h : Config) (fuel : ℕ) where
  pub fill_slot-bucket :
      (slot_id app_data : ℕ) (key : List ℕ) (t : Table R) (a : BucketPtr)
      → bucket (fill_slot ring h fuel slot_id app_data key t) a ≡ bucket t a
  unfolding fill_slot bucket
  fill_slot-bucket slot_id app_data key t (main i) = refl
  fill_slot-bucket slot_id app_data key t (extra i) = refl

  pub fill_slot-Chained :
      (slot_id app_data : ℕ) (key : List ℕ) (t : Table R)
      → Chained fuel t
      → Chained fuel (fill_slot ring h fuel slot_id app_data key t)
  fill_slot-Chained slot_id app_data key t c i =
      Ends-same fuel (λ a. ap (λ (b : Bucket). b.next) (fill_slot-bucket slot_id app_data key t a))
        (some (main i)) (c i)

  pub fill_slot-Locks :
      (slot_id app_data : ℕ) (key : List ℕ) (t : Table R) (x : ℕ × Table R)
      → Locks h (fill_slot ring h fuel slot_id app_data key t) x
      → Locks h t x
  unfolding fill_slot
  fill_slot-Locks slot_id app_data key t x p = p

  pub fill_slot-HasKey :
      (slot_id app_data : ℕ) (key : List ℕ) (t : Table R)
      → slot_id < length t.key_store
      → h.key_len ≡ length key
      → 8 ≤ length key
      → HasKey slot_id key (fill_slot ring h fuel slot_id app_data key t)
  unfolding fill_slot
  fill_slot-HasKey slot_id app_data key t lt whole long =
      rw (get_or-set_self t.key_store slot_id _ no_key lt, take_whole key h.key_len whole)
        (memcmp_eq-append 8 key (drop h.key_len (get_or t.key_store slot_id no_key).key) long)

  -- The slot has all the bytes of the key.
  pub fill_slot-whole :
      (slot_id app_data : ℕ) (key : List ℕ) (t : Table R)
      → slot_id < length t.key_store
      → h.key_len ≡ length key
      → take h.key_len
          (get_or (fill_slot ring h fuel slot_id app_data key t).key_store slot_id no_key).key
        ≡ key
  unfolding fill_slot
  fill_slot-whole slot_id app_data key t lt whole =
      rw (get_or-set_self t.key_store slot_id _ no_key lt, take_whole key h.key_len whole)
        (take-append key (drop h.key_len (get_or t.key_store slot_id no_key).key) h.key_len whole)

  pub fill_slot-KeysBut :
      (slot_id app_data : ℕ) (key : List ℕ) (t : Table R)
      → KeysBut slot_id t (fill_slot ring h fuel slot_id app_data key t)
  unfolding fill_slot
  fill_slot-KeysBut slot_id app_data key t i ne =
      ap (λ (k : HashKey). k.key) (get_or-set_ne t.key_store slot_id i _ no_key (λ e. ne (sym e)))

  abbrev slot_of : Option (ℕ × R) → ℕ
  slot_of none = empty_slot
  slot_of (some (slot_id, r)) = slot_id

  alloc_slot-of :
      (t : Table R) (o : Option (ℕ × R))
      → ring.dequeue t.free_slots ≡ o
      → (alloc_slot ring t).0 ≡ slot_of o
  unfolding alloc_slot
  alloc_slot-of t none e = rw (e, alloc_slot) refl
  alloc_slot-of t (some x) e = rw (e, alloc_slot) refl

  -- The slot depends on the ring only.
  pub alloc_slot-ring :
      (t u : Table R) → u.free_slots ≡ t.free_slots → (alloc_slot ring u).0 ≡ (alloc_slot ring t).0
  alloc_slot-ring t u e =
      alloc_slot-of u (ring.dequeue t.free_slots) (ap ring.dequeue e)
      ∙ sym (alloc_slot-of t (ring.dequeue t.free_slots) refl)

  pub alloc_slot-store : (t : Table R) → (alloc_slot ring t).1.key_store ≡ t.key_store
  unfolding alloc_slot
  alloc_slot-store t = elim (Option-cases (ring.dequeue t.free_slots)) [
    | inl e ↦ rw (e, alloc_slot) refl
    | inr (x, e) ↦ rw (e, alloc_slot) refl
  ]
