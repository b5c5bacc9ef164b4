-- ===== src/Hash/Hits.antt =====
-- The searches of rte_lib/rte_cuckoo_hash.c for a key that a bucket has.
use mathlib.Core.Path.{subst}
use my_l3fwd.Prelude.{
  ℕ, zero, suc, ◌%◌, ◌^◌, ◌≡◌, ◌≢◌, ◌⊎◌, sym, ◌∙◌, ap, arith, true, false, none, some, List, ◌==◌,
  ==_ne, get_or, inl, inr,
}
use my_l3fwd.Hash.{
  minus_one, BucketPtr, main, Bucket, Config, RingOps, Table, bucket, no_key, position,
  rte_hash_cmp_eq, entry_matches, search_and_update, search_chain,
}
use my_l3fwd.Hash.Add.{look_up}
use my_l3fwd.Hash.Search.{search_and_update-first}
use my_l3fwd.Hash.Found.{MatchIn}
use my_l3fwd.Hash.Gives.{Gives, Gives-branch, Ends}
use my_l3fwd.Hash.Locks.{next_of}

module _ {R : Type 0} where
  -- No main bucket has a next one.
  abbrev pub Chainless : Table R → Type 0
  Chainless t = (i : ℕ) → next_of t (main i) ≡ none

  -- No key with the position -1 is taken for this one.
  abbrev pub NoDummy : (key : List ℕ) → Table R → Type 0
  NoDummy key t =
      (i : ℕ) → i % 2 ^ 32 ≡ 0 → rte_hash_cmp_eq key (get_or t.key_store i no_key).key ≡ false

  hit-position :
      (key : List ℕ) (sig j : ℕ) (b : Bucket) (t : Table R)
      → NoDummy key t
      → entry_matches t b key sig j ≡ true
      → position (get_or b.key_idx j 0) ≢ minus_one
  unfolding entry_matches
  hit-position key sig j b t dummy hit e =
      let no = dummy (get_or b.key_idx j 0) (omega (arith, e)) in ground (arith, hit, no)

  search-hit :
      (app_data : ℕ) (key : List ℕ) (sig : ℕ) (a : BucketPtr) (v : ℕ) (t : Table R)
      → NoDummy key t
      → MatchIn key sig t (bucket t a) v
      → (search_and_update app_data key a sig t).0 ≢ minus_one
  search-hit app_data key sig a v t dummy (s, lt, hit, _) miss =
      elim (search_and_update-first app_data key sig t a) [
        | inl (j, _, at, _, e) ↦
            hit-position key sig j (bucket t a) t dummy at (sym (ap (λ x. x.0) e) ∙ miss)
        | inr (no_match, _) ↦ absurd (ground (arith, hit, no_match s lt))
      ]

  -- A search that does not find the key leaves the table alone.
  search-miss :
      (app_data : ℕ) (key : List ℕ) (sig : ℕ) (a : BucketPtr) (t : Table R)
      → NoDummy key t
      → (search_and_update app_data key a sig t).0 ≡ minus_one
      → (search_and_update app_data key a sig t).1 ≡ t
  search-miss app_data key sig a t dummy miss =
      elim (search_and_update-first app_data key sig t a) [
        | inl (j, _, at, _, e) ↦
            absurd (hit-position key sig j (bucket t a) t dummy at (sym (ap (λ x. x.0) e) ∙ miss))
        | inr (_, e) ↦ ap (λ x. x.1) e
      ]

module _ {R : Type 0} (ring : RingOps R) (h : Config) where
  -- The key is in the bucket, or in its chain.
  chain-hit :
      (fuel app_data : ℕ) (key : List ℕ) (sig : ℕ) (a : BucketPtr) (v : ℕ) (t : Table R)
      → NoDummy key t
      → Ends fuel (next_of t) (some a)
      → MatchIn key sig t (bucket t a) v
      → Gives (λ x. x.0 ≢ minus_one) (search_chain fuel app_data key (some a) sig t)
  unfolding search_chain
  chain-hit zero app_data key sig a v t dummy e m = absurd e
  chain-hit (suc f) app_data key sig a v t dummy e m =
      let found = search_and_update app_data key a sig t in
      Gives-branch (λ x. x.0 ≢ minus_one) (found.0 == minus_one)
        (search_chain f app_data key (bucket t a).next sig (found.1)) (some found)
        (λ miss. absurd (search-hit app_data key sig a v t dummy m (ground (arith, miss))))
        (λ hit. ==_ne hit)

  pub look_up-hit :
      (fuel app_data : ℕ) (key : List ℕ) (sig : ℕ) (prim sec : BucketPtr) (v : ℕ) (t : Table R)
      → NoDummy key t
      → Ends fuel (next_of t) (some sec)
      → MatchIn key sig t (bucket t prim) v ⊎ MatchIn key sig t (bucket t sec) v
      → Gives (λ x. x.0 ≢ minus_one) (look_up ring h fuel prim sec app_data key sig t)
  unfolding look_up
  look_up-hit fuel app_data key sig prim sec v t dummy e m =
      let found = search_and_update app_data key prim sig t in
      let chain = λ (u : Table R). search_chain fuel app_data key (some sec) sig u in
      Gives-branch (λ x. x.0 ≢ minus_one) (found.0 == minus_one) (chain (found.1)) (some found)
        (λ miss.
          let none_here : found.0 ≡ minus_one = ground (arith, miss) in
          elim m [
            | inl here ↦ absurd (search-hit app_data key sig prim v t dummy here none_here)
            | inr there ↦
                subst (λ u. Gives (λ x. x.0 ≢ minus_one) (chain u))
                  (sym (search-miss app_data key sig prim t dummy none_here))
                  (chain-hit fuel app_data key sig sec v t dummy e there)
          ])
        (λ hit. ==_ne hit)
