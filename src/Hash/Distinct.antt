-- ===== src/Hash/Distinct.antt =====
-- Keys of which no two slots of the table of rte_lib/rte_cuckoo_hash.c hold the same: insertions of
-- a new key, of a key that is there, and of another key.
use my_l3fwd.Hash.{rte_hash_cmp_eq}
use my_l3fwd.Prelude.{ℕ, suc, ◌-◌, ◌^◌, ◌<◌, ◌≡◌, ◌∙◌, ap, arith, some, List}
use my_l3fwd.Hash.{
  Config, RingOps, Table, position, rte_hash_cmp_eq, get_short_sig, get_prim_bucket_index,
  get_alt_bucket_index,
}
use my_l3fwd.Hash.Add.{add_key_with_hash}
use my_l3fwd.Hash.Gives.{Gives}
use my_l3fwd.Hash.Hits.{Chainless}
use my_l3fwd.Hash.Stored.{add_key_with_hash-again}
use my_l3fwd.Hash.Holds.{OnlyIn, Holds, Found-position, Found-of_Holds, OnlyIn-NoDummy}

module _ {R : Type 0} (ring : RingOps R) (h : Config) where
  -- If the main buckets have no chains, slot p, with 0 < p < 2 ^ 32, has the key and no other slot
  -- has a key that matches, and an entry of one of the key's two buckets has the key's signature
  -- and index p: then an insertion of the key, whatever its data, returns p - 1, takes no slot and
  -- changes no bucket.
  pub add_key_with_hash-finds :
      (fuel : ℕ) (key : List ℕ) (hash app_data p : ℕ) (t : Table R)
      → Chainless t
      → 0 < p
      → p < 2 ^ 32
      → OnlyIn p key t
      → Holds h key hash p t
      → (t' : Table R) × (add_key_with_hash ring h (suc fuel) key hash app_data t
          ≡ some (p - 1, t'))
        × (t'.buckets ≡ t.buckets)
        × (t'.free_slots ≡ t.free_slots)
  add_key_with_hash-finds fuel key hash app_data p t alone used small only holds =
      let (ret, t', e, _, buckets, slots, keys, found) =
        add_key_with_hash-again ring h fuel key hash app_data (position p) t alone
          (OnlyIn-NoDummy ring h p key t used small only)
          (Found-of_Holds ring h key hash p t holds) in
      let sig = get_short_sig hash in
      let prim = get_prim_bucket_index h hash in
      let at =
        Found-position p key sig prim (get_alt_bucket_index h prim sig) ret t'
          (λ i ne. ap (λ l. rte_hash_cmp_eq key l) (keys i) ∙ only i ne) found in
      let value : ret ≡ p - 1 = omega (arith, at, used, small) in
      (t', e ∙ ap (λ v. some (v, t')) value, buckets, slots)
