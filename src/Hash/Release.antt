-- ===== src/Hash/Release.antt =====
-- The whole of `__rte_hash_add_key_with_hash` of rte_lib/rte_cuckoo_hash.c: its lock calls and the
-- entries of the main buckets.
use mathlib.Core.Path.{subst}
use my_l3fwd.Prelude.{
  take, ◌⊎◌, get_or, ℕ, ◌≤◌, ◌<◌, ◌≡◌, sym, ◌∙◌, ap, arith, false, some, List, length, ◌==◌, ==_ne,
  Bool-cases, inl, inr,
}
use my_l3fwd.Hash.{
  no_key, rte_hash_cmp_eq, minus_one, BucketPtr, main, Bucket, Config, RingOps, Table,
  hash_rw_writer_lock, hash_rw_writer_unlock, get_alt_bucket_index, get_prim_bucket_index,
  get_short_sig, alloc_slot,
}
use my_l3fwd.Hash.Add.{fill_slot, add_absent, add_key_with_hash}
use my_l3fwd.Hash.Gives.{Gives, Gives-map, Gives-out}
use my_l3fwd.Hash.Safe.{
  Released, Released-of_Kept, Kept-of_Same, critical, Chained, Chained-same, lock-Chained,
}
use my_l3fwd.Hash.Locks.{Paired, next_of, keys-lock, keys-unlock, slots-lock, slots-unlock}
use my_l3fwd.Hash.Index.{prim-lt, alt-lt}
use my_l3fwd.Hash.Entries.{Sized, Keeps}
use my_l3fwd.Hash.Found.{Found-unlock}
use my_l3fwd.Hash.Made.{InRange}
use my_l3fwd.Hash.Answer.{HasKey, Locks, Locks-of_Released, Locks-trans, Tells}
use my_l3fwd.Hash.Attempts.{attempts-Added}
use my_l3fwd.Hash.Slots.{
  KeysBut, fill_slot-bucket, fill_slot-Chained, fill_slot-Locks, fill_slot-HasKey, fill_slot-whole,
  fill_slot-KeysBut, alloc_slot-ring, alloc_slot-store,
}
use my_l3fwd.Hash.LookedUp.{LookedUp, look_up-LookedUp, alloc_slot-Kept}

module _ {R : Type 0} (ring : RingOps R) (h : Config) where
  -- The slot that is taken is one of the key store, and the key is as long as the table says.
  pub record Room (key : List ℕ) (t : Table R) : Type 0 where
    pub in_store : (alloc_slot ring t).0 < length t.key_store
    pub whole : h.key_len ≡ length key
    pub long : 8 ≤ length key

  -- A table without extendable buckets: what the answer means, and what is as before.
  pub record Settled (key : List ℕ) (prim sec sig : ℕ) (t : Table R) (x : ℕ × Table R)
      : Type 0 where
    pub tells : Tells key prim sec sig x
    pub chains : (a : BucketPtr) → next_of (x.1) a ≡ next_of t a
    pub keys : KeysBut (alloc_slot ring t).0 t (x.1)
    pub slot_key :
        HasKey (alloc_slot ring t).0 key (x.1)
        ⊎ ((get_or (x.1).key_store (alloc_slot ring t).0 no_key).key
            ≡ (get_or t.key_store (alloc_slot ring t).0 no_key).key)
    pub slot_bytes :
        (take h.key_len (get_or (x.1).key_store (alloc_slot ring t).0 no_key).key ≡ key)
        ⊎ ((get_or (x.1).key_store (alloc_slot ring t).0 no_key).key
            ≡ (get_or t.key_store (alloc_slot ring t).0 no_key).key)

  abbrev pub Outcome : (key : List ℕ) (prim sec sig : ℕ) → Table R → ℕ × Table R → Type 0
  Outcome key prim sec sig t x =
      Locks h t x
      × (h.ext_table_support ≡ false
          → (k : ℕ) → Sized k h t.buckets
          → Room key t
          → Settled key prim sec sig t x)

module _ {R : Type 0} (ring : RingOps R) (h : Config) (fuel : ℕ) where
  add_absent-Outcome :
      (prim sec app_data : ℕ) (key : List ℕ) (sig : ℕ) (t : Table R)
      → InRange h prim
      → InRange h sec
      → Chained fuel t
      → Gives
          (Outcome ring h key prim sec sig t)
          (add_absent ring h fuel prim sec app_data key sig t)
  unfolding add_absent fill_slot
  add_absent-Outcome prim sec app_data key sig t lt_prim lt_sec c =
      let k = Released-of_Kept (alloc_slot-Kept ring h fuel t) in
      let (slot_id, t') = alloc_slot ring t in
      let filled = fill_slot ring h fuel slot_id app_data key t' in
      Gives-map (Outcome ring h key prim sec sig t) _
        (attempts-Added ring h fuel key prim sec app_data sig slot_id filled lt_prim lt_sec
          (fill_slot-Chained ring h fuel slot_id app_data key t' (Chained-same fuel k c)))
        (λ x p. (
          Locks-trans x k (fill_slot-Locks ring h fuel slot_id app_data key t' x (p.0)),
          λ no_ext n z room.
              let (q, tells) = p.1 no_ext in
              let has : HasKey slot_id key filled =
                fill_slot-HasKey ring h fuel slot_id app_data key t'
                  (subst (λ l. slot_id < length l) (sym (alloc_slot-store ring h fuel t))
                    room.in_store)
                  room.whole room.long in
              let whole_key =
                fill_slot-whole ring h fuel slot_id app_data key t'
                  (subst (λ l. slot_id < length l) (sym (alloc_slot-store ring h fuel t))
                    room.in_store)
                  room.whole in
              record {
                tells = tells n ((k.entries n z).0) has;
                chains = λ a.
                    q.chains a
                    ∙ ap (λ (b : Bucket). b.next)
                        (fill_slot-bucket ring h fuel slot_id app_data key t' a)
                    ∙ k.chains a;
                keys = λ i ne.
                    q.keys i
                    ∙ fill_slot-KeysBut ring h fuel slot_id app_data key t' i ne
                    ∙ k.keys i;
                slot_key = inl (ap (λ l. rte_hash_cmp_eq key l) (q.keys slot_id) ∙ has);
                slot_bytes = inl (ap (λ l. take h.key_len l) (q.keys slot_id) ∙ whole_key);
              },
        ))

  Outcome-after :
      (key : List ℕ) (prim sec sig : ℕ) {t u : Table R} (x : ℕ × Table R)
      → Released h t u
      → u.free_slots ≡ t.free_slots
      → length u.key_store ≡ length t.key_store
      → Outcome ring h key prim sec sig u x
      → Outcome ring h key prim sec sig t x
  Outcome-after key prim sec sig {t} {u} x p slots count (locks, more) =
      let same_slot = alloc_slot-ring ring h fuel t u slots in
      (
        Locks-trans x p locks,
        λ no_ext n z room.
            let q = more no_ext n ((p.entries n z).0) record {
              in_store = omega (arith, same_slot, count, room.in_store);
              whole = room.whole;
              long = room.long;
            } in
            record {
              tells = q.tells;
              chains = λ a. q.chains a ∙ p.chains a;
              keys = λ i ne. q.keys i (λ e. ne (e ∙ same_slot)) ∙ p.keys i;
              slot_key =
                  subst
                    (λ j.
                      HasKey j key (x.1)
                      ⊎ ((get_or (x.1).key_store j no_key).key ≡ (get_or t.key_store j no_key).key))
                    same_slot
                    (elim q.slot_key [
                      | inl has ↦ inl has
                      | inr old ↦ inr (old ∙ p.keys (alloc_slot ring u).0)
                    ]);
              slot_bytes =
                  subst
                    (λ j.
                      (take h.key_len (get_or (x.1).key_store j no_key).key ≡ key)
                      ⊎ ((get_or (x.1).key_store j no_key).key ≡ (get_or t.key_store j no_key).key))
                    same_slot
                    (elim q.slot_bytes [
                      | inl all ↦ inl all
                      | inr old ↦ inr (old ∙ p.keys (alloc_slot ring u).0)
                    ]);
            },
      )

  pub add_key_with_hash-Outcome :
      (key : List ℕ) (hash app_data : ℕ) (t : Table R)
      → Chained fuel t
      → let prim = get_prim_bucket_index h hash in
        let sig = get_short_sig hash in
        Gives
          (Outcome ring h key prim (get_alt_bucket_index h prim sig) sig t)
          (add_key_with_hash ring h fuel key hash app_data t)
  unfolding add_key_with_hash
  add_key_with_hash-Outcome key hash app_data t c =
      let sig = get_short_sig hash in
      let prim = get_prim_bucket_index h hash in
      let sec = get_alt_bucket_index h prim sig in
      let locked = hash_rw_writer_lock h t in
      let (x, ex, looked) =
        Gives-out (LookedUp ring h fuel key sig (main prim) (main sec) locked) _ (
          look_up-LookedUp ring h fuel (main prim) (main sec) app_data key sig locked
            (lock-Chained fuel h t c sec)) in
      let quiet = looked.0 in
      let u = hash_rw_writer_unlock h (x.1) in
      let r = critical h (Kept-of_Same quiet.same) in
      let (y, ey, q) = Gives-out (Outcome ring h key prim sec sig u) _ (
        add_absent-Outcome prim sec app_data key sig u (λ k small mask. prim-lt h k small mask hash)
          (λ k small mask. alt-lt h k small mask prim sig) (Chained-same fuel r c)) in
      elim (Bool-cases (x.0 == minus_one)) [
        | inl miss ↦
            rw (ex, miss, ey)
              (Outcome-after key prim sec sig y r
                (slots-unlock h (x.1) ∙ quiet.same_slots ∙ slots-lock h t)
                (ap length (keys-unlock h (x.1)) ∙ quiet.same_count ∙ ap length (keys-lock h t)) q)
        | inr hit ↦
            rw (ex, hit)
              (
                Locks-of_Released (x.0, u) r,
                λ no_ext n z room. record {
                  tells = inr (Found-unlock key sig h (x.1) (looked.1 (==_ne hit)));
                  chains = r.chains;
                  keys = λ i ne. r.keys i;
                  slot_key = inr (r.keys (alloc_slot ring t).0);
                  slot_bytes = inr (r.keys (alloc_slot ring t).0);
                },
              )
      ]

  -- If all chains of buckets fit the fuel, then adding a key returns, whatever the table, the key
  -- and the rings hold, and on every path the calls of the lock that it has made are pairs of a
  -- lock and an unlock.
  pub add_key_with_hash-Paired :
      (key : List ℕ) (hash app_data : ℕ) (t : Table R)
      → Chained fuel t
      → (ret : ℕ) × (t' : Table R) × (add_key_with_hash ring h fuel key hash app_data t
          ≡ some (ret, t'))
        × Paired t.lock_calls t'.lock_calls
  add_key_with_hash-Paired key hash app_data t c =
      let (x, e, p) =
        Gives-out (Outcome ring h key _ _ _ t) _
          (add_key_with_hash-Outcome key hash app_data t c) in
      (x.0, x.1, e, (p.0).0)

  -- If all chains of buckets fit the fuel and the table has 2 ^ k buckets of 8 entries, then adding
  -- a key returns a table of that size, in which each entry of a main bucket that was in use still
  -- stands in one of the two buckets of its key, whichever entries were moved, and whether the key
  -- was stored or not.
  pub add_key_with_hash-Keeps :
      (k : ℕ) (key : List ℕ) (hash app_data : ℕ) (t : Table R)
      → Chained fuel t
      → Sized k h t.buckets
      → (ret : ℕ) × (t' : Table R) × (add_key_with_hash ring h fuel key hash app_data t
          ≡ some (ret, t'))
        × Sized k h t'.buckets
        × Keeps h t.buckets t'.buckets
  add_key_with_hash-Keeps k key hash app_data t c z =
      let (x, e, p) =
        Gives-out (Outcome ring h key _ _ _ t) _
          (add_key_with_hash-Outcome key hash app_data t c) in
      let (z', keep) = (p.0).1 k z in (x.0, x.1, e, z', keep)
