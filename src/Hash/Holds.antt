-- ===== src/Hash/Holds.antt =====
-- A key of the table of rte_lib/rte_cuckoo_hash.c that one slot holds: its entry, and what a search
-- answers.
use mathlib.Core.Path.{subst}
use native.Mathlib.Decide.{ℕ_discrete}
use my_l3fwd.Prelude.{
  zero, suc, true, false, Bool-cases, ℕ, ◌^◌, ◌<◌, ◌≡◌, ◌≢◌, ◌⊎◌, refl, sym, ◌∙◌, ap, arith, List,
  length, get_or, inl, inr,
}
use my_l3fwd.Hash.{
  memcmp_eq, main, Bucket, Config, RingOps, Table, bucket, no_bucket, no_key, position,
  rte_hash_cmp_eq, entry_matches, get_short_sig, get_prim_bucket_index, get_alt_bucket_index,
}
use my_l3fwd.Hash.Slots.{KeysBut}
use my_l3fwd.Hash.Entries.{Entries, OfPair-trans, Entry, Sized}
use my_l3fwd.Hash.Index.{prim-lt, alt-lt}
use my_l3fwd.Hash.Locks.{next_of}
use my_l3fwd.Hash.Answer.{HasKey, Entry-MatchIn}
use my_l3fwd.Hash.Found.{Found, MatchIn, OnChain, here}
use my_l3fwd.Hash.Hits.{Chainless, NoDummy}
use my_l3fwd.Hash.Stored.{Found-main}

memcmp_eq-common :
    (n : ℕ) (a b c : List ℕ)
    → memcmp_eq n a c ≡ true
    → memcmp_eq n b c ≡ true
    → memcmp_eq n a b ≡ true
unfolding memcmp_eq
memcmp_eq-common zero a b c p q = refl
memcmp_eq-common (suc n) a b c p q =
    let rest = memcmp_eq-common n a b c (ground (arith, p)) (ground (arith, q)) in
    ground (arith, p, q, rest)

memcmp_eq-differ :
    (n : ℕ) (a b c : List ℕ)
    → memcmp_eq n b c ≡ true
    → memcmp_eq n a b ≡ false
    → memcmp_eq n a c ≡ false
memcmp_eq-differ n a b c same differ = elim (Bool-cases (memcmp_eq n a c)) [
  | inl hit ↦ absurd (ground (arith, differ, memcmp_eq-common n a b c hit same))
  | inr miss ↦ miss
]

module _ {R : Type 0} where
  -- No slot but this one has a key that matches.
  abbrev pub OnlyIn : (slot_id : ℕ) (key : List ℕ) → Table R → Type 0
  OnlyIn slot_id key t =
      (i : ℕ) → i ≢ slot_id → rte_hash_cmp_eq key (get_or t.key_store i no_key).key ≡ false

  -- Slot `slot_id` has the key, and one of the key's two buckets has the entry of the slot.
  abbrev pub Holds : Config → (key : List ℕ) (hash slot_id : ℕ) → Table R → Type 0
  Holds h key hash slot_id t =
      let prim = get_prim_bucket_index h hash in
      let sig = get_short_sig hash in
      (i : ℕ) × (s : ℕ) × Entry t.buckets i s sig slot_id
      × ((i ≡ prim) ⊎ (i ≡ get_alt_bucket_index h prim sig))
      × HasKey slot_id key t

  MatchIn-Entry :
      (slot_id : ℕ) (key : List ℕ) (sig v i : ℕ) (t : Table R)
      → OnlyIn slot_id key t
      → i < length t.buckets
      → MatchIn key sig t (bucket t (main i)) v
      → (s : ℕ) × Entry t.buckets i s sig slot_id × HasKey slot_id key t × (v ≡ position slot_id)
  unfolding entry_matches bucket
  MatchIn-Entry slot_id key sig v i t only lt (s, in_bucket, hit, at) =
      let b = get_or t.buckets i no_bucket in
      elim (ℕ_discrete (get_or b.key_idx s 0) slot_id) [
        | no ne ↦ absurd (ground (arith, hit, only (get_or b.key_idx s 0) ne))
        | yes e ↦ (
          s,
          record {
            bucket_in = lt;
            slot_in = in_bucket;
            has_sig = ground (arith, hit);
            has_idx = e;
          },
          subst (λ x. HasKey x key t) e (ground (arith, hit)),
          sym at ∙ ap position e,
        )
      ]

  MatchIn-position :
      (slot_id : ℕ) (key : List ℕ) (sig v : ℕ) (b : Bucket) (t : Table R)
      → OnlyIn slot_id key t
      → MatchIn key sig t b v
      → v ≡ position slot_id
  unfolding entry_matches
  MatchIn-position slot_id key sig v b t only (s, lt, hit, at) =
      elim (ℕ_discrete (get_or b.key_idx s 0) slot_id) [
        | yes e ↦ sym at ∙ ap position e
        | no ne ↦ absurd (ground (arith, hit, only (get_or b.key_idx s 0) ne))
      ]

  pub Found-position :
      (slot_id : ℕ) (key : List ℕ) (sig i j v : ℕ) (t : Table R)
      → OnlyIn slot_id key t
      → Found key sig t (main i) (main j) v
      → v ≡ position slot_id
  Found-position slot_id key sig i j v t only (inl (c, on, m)) =
      MatchIn-position slot_id key sig v (bucket t c) t only m
  Found-position slot_id key sig i j v t only (inr (c, on, m)) =
      MatchIn-position slot_id key sig v (bucket t c) t only m

module _ {R : Type 0} (ring : RingOps R) (h : Config) where
  pub Holds-of_Found :
      (k : ℕ) (key : List ℕ) (hash slot_id v : ℕ) (t : Table R)
      → Chainless t
      → Sized k h t.buckets
      → OnlyIn slot_id key t
      → let sig = get_short_sig hash in
        let prim = get_prim_bucket_index h hash in
        Found key sig t (main prim) (main (get_alt_bucket_index h prim sig)) v
        → Holds h key hash slot_id t × (v ≡ position slot_id)
  Holds-of_Found k key hash slot_id v t alone z only found =
      let sig = get_short_sig hash in
      let prim = get_prim_bucket_index h hash in
      let sec = get_alt_bucket_index h prim sig in
      elim (Found-main ring h key sig prim sec v t alone found) [
        | inl m ↦
            let (s, e, has, at) =
              MatchIn-Entry slot_id key sig v prim t only
                (omega (arith, prim-lt h k z.small z.mask hash, z.count)) m in
            ((prim, s, e, inl refl, has), at)
        | inr m ↦
            let (s, e, has, at) =
              MatchIn-Entry slot_id key sig v sec t only
                (omega (arith, alt-lt h k z.small z.mask prim sig, z.count)) m in
            ((sec, s, e, inr refl, has), at)
      ]

  pub Found-of_Holds :
      (key : List ℕ) (hash slot_id : ℕ) (t : Table R)
      → Holds h key hash slot_id t
      → let sig = get_short_sig hash in
        let prim = get_prim_bucket_index h hash in
        Found key sig t (main prim) (main (get_alt_bucket_index h prim sig)) (position slot_id)
  Found-of_Holds key hash slot_id t (i, s, e, near, has) =
      let sig = get_short_sig hash in
      let m = Entry-MatchIn key sig slot_id i s t has e in
      elim near [
        | inl p ↦ inl (main i, subst (λ j. OnChain (next_of t) (main j) (main i)) p here, m)
        | inr p ↦ inr (main i, subst (λ j. OnChain (next_of t) (main j) (main i)) p here, m)
      ]

  pub OnlyIn-NoDummy :
      (slot_id : ℕ) (key : List ℕ) (t : Table R)
      → 0 < slot_id
      → slot_id < 2 ^ 32
      → OnlyIn slot_id key t
      → NoDummy key t
  OnlyIn-NoDummy slot_id key t used small only i zero_at =
      only i (λ at. omega (arith, at, zero_at, used, small))

  -- The entry may have moved.
  pub Holds-kept :
      (k : ℕ) (key : List ℕ) (hash p slot_id : ℕ) (t t' : Table R)
      → Sized k h t.buckets
      → Entries h t.buckets t'.buckets
      → KeysBut slot_id t t'
      → p ≢ 0
      → p ≢ slot_id
      → Holds h key hash p t
      → Holds h key hash p t'
  Holds-kept k key hash p slot_id t t' z entries keys used apart (i, s, e, near, has) =
      let sig = get_short_sig hash in
      let prim = get_prim_bucket_index h hash in
      let (_, keep) = entries k z in
      let (i', s', e', moved) = keep i s sig p used e in
      (
        i',
        s',
        e',
        OfPair-trans h k z.small z.mask prim sig i i' (prim-lt h k z.small z.mask hash) near moved,
        ap (λ l. rte_hash_cmp_eq key l) (keys p apart) ∙ has,
      )

  -- Another key has been written to a slot, or none.
  pub OnlyIn-kept :
      (key other : List ℕ) (p slot_id : ℕ) (t t' : Table R)
      → KeysBut slot_id t t'
      → HasKey slot_id other t'
        ⊎ ((get_or t'.key_store slot_id no_key).key ≡ (get_or t.key_store slot_id no_key).key)
      → rte_hash_cmp_eq key other ≡ false
      → OnlyIn p key t
      → OnlyIn p key t'
  OnlyIn-kept key other p slot_id t t' keys written differ only i ne = elim (ℕ_discrete i slot_id) [
    | no other_slot ↦ ap (λ l. rte_hash_cmp_eq key l) (keys i other_slot) ∙ only i ne
    | yes at ↦
        subst (λ j. rte_hash_cmp_eq key (get_or t'.key_store j no_key).key ≡ false) (sym at)
          (elim written [
            | inl has ↦ memcmp_eq-differ 8 key other _ has differ
            | inr old ↦
                ap (λ l. rte_hash_cmp_eq key l) old
                ∙ subst (λ j. rte_hash_cmp_eq key (get_or t.key_store j no_key).key ≡ false) at
                    (only i ne)
          ])
  ]
