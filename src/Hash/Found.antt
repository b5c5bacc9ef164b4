-- ===== src/Hash/Found.antt =====
-- The answer of the searches of rte_lib/rte_cuckoo_hash.c, in a bucket and along a chain, as an entry
-- of the table.
use mathlib.Core.Path.{subst}
use my_l3fwd.Prelude.{
  ℕ, zero, suc, ◌+◌, ◌≤◌, ◌<◌, ◌≡◌, ◌≢◌, ◌⊎◌, refl, sym, ◌∙◌, ap, arith, true, Option, none, some,
  List, length, length-set, ◌==◌, get_or, get_or-set_same, Bool-cases, inl, inr,
}
use my_l3fwd.Hash.{
  minus_one, BucketPtr, main, extra, Bucket, HashKey, Config, Table, bucket, no_bucket, no_key,
  position, set_pdata, entry_matches, search_from, search_and_update, search_chain,
  hash_rw_writer_unlock,
}
use my_l3fwd.Hash.Gives.{Gives, Gives-if, Gives-map, Ends, Ends-same}
use my_l3fwd.Hash.Locks.{next_of, buckets-unlock, ext-unlock, keys-unlock}
use my_l3fwd.Hash.Safe.{Keys, Same, Same-refl, Same-trans, bucket-Same, Framed-of_Same}

-- The second bucket stands in the chain that starts with the first.
pub data OnChain (next : BucketPtr → Option BucketPtr) : BucketPtr → BucketPtr → Type 0 where
  here : {a : BucketPtr} → OnChain next a a
  further : {a b c : BucketPtr} → next a ≡ some b → OnChain next b c → OnChain next a c

pub OnChain-same :
    {f g : BucketPtr → Option BucketPtr}
    → ((a : BucketPtr) → g a ≡ f a)
    → {a c : BucketPtr} → OnChain f a c
    → OnChain g a c
OnChain-same e here = here
OnChain-same e {a} (further p q) = further (e a ∙ p) (OnChain-same e q)

-- A bucket without a next one is alone on its chain.
pub OnChain-alone :
    {next : BucketPtr → Option BucketPtr} {a c : BucketPtr}
    → next a ≡ none
    → OnChain next a c
    → c ≡ a
OnChain-alone alone here = refl
OnChain-alone alone (further p q) = absurd (ground (arith, alone, p))

module _ {R : Type 0} where
  -- Only the data of the keys change.
  pub record Quiet (t u : Table R) : Type 0 where
    pub same : Same t u
    pub same_slots : u.free_slots ≡ t.free_slots
    pub same_count : length u.key_store ≡ length t.key_store

  Quiet-refl : (t : Table R) → Quiet t t
  Quiet-refl t = record { same = Same-refl t; same_slots = refl; same_count = refl }

  pub Quiet-trans : {t u v : Table R} → Quiet t u → Quiet u v → Quiet t v
  Quiet-trans p q = record {
    same = Same-trans p.same q.same;
    same_slots = q.same_slots ∙ p.same_slots;
    same_count = q.same_count ∙ p.same_count;
  }

  set_pdata-Quiet : (idx app_data : ℕ) (t : Table R) → Quiet t (set_pdata idx app_data t)
  set_pdata-Quiet idx app_data t = record {
    same = record {
      same_buckets = refl;
      same_ext = refl;
      same_locks = refl;
      same_keys = λ i. get_or-set_same (λ (k : HashKey). k.key) t.key_store idx i _ no_key refl;
    };
    same_slots = refl;
    same_count = length-set t.key_store idx _;
  }

module _ {R : Type 0} (key : List ℕ) (sig : ℕ) where
  -- An entry of the bucket has the signature and the key, and `v` is its position.
  abbrev pub MatchIn : Table R → Bucket → (v : ℕ) → Type 0
  MatchIn t b v =
      (s : ℕ) × (s < 8)
      × (entry_matches t b key sig s ≡ true)
      × (position (get_or b.key_idx s 0) ≡ v)

  -- The same of a bucket on the chain.
  abbrev pub Reached : Table R → Option BucketPtr → (v : ℕ) → Type 0
  Reached t none v = ⊥
  Reached t (some a) v = (c : BucketPtr) × OnChain (next_of t) a c × MatchIn t (bucket t c) v

  -- The key has position `v`, in the chain of one of its two buckets.
  abbrev pub Found : Table R → (a alt : BucketPtr) (v : ℕ) → Type 0
  Found t a alt v = Reached t (some a) v ⊎ Reached t (some alt) v

  entry_matches-Keys :
      (t u : Table R) (b : Bucket) (s : ℕ)
      → Keys t u
      → entry_matches u b key sig s ≡ entry_matches t b key sig s
  unfolding entry_matches
  entry_matches-Keys t u b s keys = rw (keys (get_or b.key_idx s 0)) refl

  pub MatchIn-Keys :
      (t u : Table R) {b b' : Bucket} {v : ℕ} → Keys t u → b' ≡ b → MatchIn t b v → MatchIn u b' v
  MatchIn-Keys t u {b} {v} keys e (s, lt, hit, at) =
      subst (λ c. MatchIn u c v) (sym e) (s, lt, entry_matches-Keys t u b s keys ∙ hit, at)

  -- A table with the same buckets and the same keys.
  pub Found-same :
      (t u : Table R) {a alt : BucketPtr} {v : ℕ}
      → ((c : BucketPtr) → bucket u c ≡ bucket t c)
      → Keys t u
      → Found t a alt v
      → Found u a alt v
  Found-same t u same keys (inl (c, on, m)) = inl (
    c,
    OnChain-same (λ x. ap (λ (b : Bucket). b.next) (same x)) on,
    MatchIn-Keys t u keys (same c) m,
  )
  Found-same t u same keys (inr (c, on, m)) = inr (
    c,
    OnChain-same (λ x. ap (λ (b : Bucket). b.next) (same x)) on,
    MatchIn-Keys t u keys (same c) m,
  )

  pub Found-swap : (t : Table R) {a alt : BucketPtr} {v : ℕ} → Found t a alt v → Found t alt a v
  Found-swap t (inl r) = inr r
  Found-swap t (inr r) = inl r

  bucket-unlock :
      (h : Config) (t : Table R) (c : BucketPtr) → bucket (hash_rw_writer_unlock h t) c ≡ bucket t c
  unfolding bucket
  bucket-unlock h t (main i) = ap (λ (l : List Bucket). get_or l i no_bucket) (buckets-unlock h t)
  bucket-unlock h t (extra i) = ap (λ (l : List Bucket). get_or l i no_bucket) (ext-unlock h t)

  pub Found-unlock :
      (h : Config) (t : Table R) {a alt : BucketPtr} {v : ℕ}
      → Found t a alt v
      → Found (hash_rw_writer_unlock h t) a alt v
  Found-unlock h t f =
      Found-same t _ (bucket-unlock h t)
        (λ i. ap (λ (l : List HashKey). (get_or l i no_key).key) (keys-unlock h t)) f

  -- What a search may do, and what its answer means.
  abbrev pub Searched : Table R → Option BucketPtr → ℕ × Table R → Type 0
  Searched t o x = Quiet t (x.1) × (x.0 ≢ minus_one → Reached (x.1) o (x.0))

  search_from-Match :
      (n i app_data : ℕ) (b : Bucket) (t : Table R)
      → i + n ≤ 8
      → let x = search_from n i app_data key b sig t in
        Quiet t (x.1) × (x.0 ≢ minus_one → MatchIn (x.1) b (x.0))
  unfolding search_from
  search_from-Match zero i app_data b t le = (Quiet-refl t, λ ne. absurd (ne refl))
  search_from-Match (suc n) i app_data b t le = elim (Bool-cases (entry_matches t b key sig i)) [
    | inl hit ↦
        let k = set_pdata-Quiet (get_or b.key_idx i 0) app_data t in
        rw hit (k, λ ne. (i, omega arith, entry_matches-Keys t _ b i k.same.same_keys ∙ hit, refl))
    | inr miss ↦ rw miss (search_from-Match n (i + 1) app_data b t (omega arith))
  ]

  pub search_and_update-Searched :
      (app_data : ℕ) (a : BucketPtr) (t : Table R)
      → Searched t (some a) (search_and_update app_data key a sig t)
  unfolding search_and_update
  search_and_update-Searched app_data a t =
      let (k, hit) = search_from-Match 8 0 app_data (bucket t a) t (omega arith) in
      (k, λ ne. (a, here, MatchIn-Keys _ _ (λ i. refl) (bucket-Same k.same a) (hit ne)))

  Reached-further :
      (t : Table R) {a : BucketPtr} (o : Option BucketPtr) {v : ℕ}
      → next_of t a ≡ o
      → Reached t o v
      → Reached t (some a) v
  Reached-further t none e r = absurd r
  Reached-further t (some b) e (c, on, m) = (c, further e on, m)

  pub search_chain-Searched :
      (fuel app_data : ℕ) (o : Option BucketPtr) (t : Table R)
      → Ends fuel (next_of t) o
      → Gives (Searched t o) (search_chain fuel app_data key o sig t)
  unfolding search_chain
  search_chain-Searched fuel app_data none t e = (Quiet-refl t, λ ne. absurd (ne refl))
  search_chain-Searched zero app_data (some a) t e = absurd e
  search_chain-Searched (suc f) app_data (some a) t e =
      let (k, hit) = search_and_update-Searched app_data a t in
      let t' = (search_and_update app_data key a sig t).1 in
      let rest = search_chain f app_data key (bucket t a).next sig t' in
      let found = (search_and_update app_data key a sig t).0 in
      Gives-if (Searched t (some a)) (found == minus_one) rest (some (found, t'))
        (Gives-map (Searched t (some a)) rest
          (search_chain-Searched f app_data (bucket t a).next t'
            (Ends-same f (Framed-of_Same k.same).chains _ e))
          (λ x q.
            let both = Quiet-trans k (q.0) in
            (
              both,
              λ ne.
                  Reached-further (x.1) (bucket t a).next ((Framed-of_Same both.same).chains a)
                    (q.1 ne),
            )))
        (k, hit)
