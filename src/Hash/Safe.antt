-- ===== src/Hash/Safe.antt =====
-- What a step of an insertion into the table of rte_lib/rte_cuckoo_hash.c may change: how the buckets
-- are chained, the calls of the lock, and the entries of the main buckets.
use mathlib.Core.Path.{subst}
use my_l3fwd.Prelude.{ℕ, ◌≡◌, refl, sym, ◌∙◌, ap, Option, none, some, List, get_or, get_or-set_same}
use my_l3fwd.Hash.{
  ◌>>=◌, BucketPtr, main, extra, Bucket, Config, LockCall, Table, bucket, put_bucket, store_entry,
  hash_rw_writer_lock, hash_rw_writer_unlock, no_bucket, no_key, HashKey,
}
use my_l3fwd.Hash.Entries.{Entries, Entries-refl, Entries-same, Entries-trans}
use my_l3fwd.Hash.Entries.Put.{put_entry-free}
use my_l3fwd.Hash.Locks.{
  Paired, same, Paired-trans, next_of, lock-chains, unlock-chains, buckets-lock, buckets-unlock,
  keys-lock, keys-unlock, Paired-locks,
}
use my_l3fwd.Hash.Gives.{Gives, Ends, Ends-same}

module _ {R : Type 0} where
  -- The keys of the store are as before.
  abbrev pub Keys : Table R → Table R → Type 0
  Keys t u = (i : ℕ) → (get_or u.key_store i no_key).key ≡ (get_or t.key_store i no_key).key

  -- The chains and the keys are as before, and there is no lock call.
  pub record Framed (t t' : Table R) : Type 0 where
    pub chains : (a : BucketPtr) → next_of t' a ≡ next_of t a
    pub locks : t'.lock_calls ≡ t.lock_calls
    pub keys : Keys t t'

  pub Framed-trans : {t u v : Table R} → Framed t u → Framed u v → Framed t v
  Framed-trans p q = record {
    chains = λ a. q.chains a ∙ p.chains a;
    locks = q.locks ∙ p.locks;
    keys = λ i. q.keys i ∙ p.keys i;
  }

  -- The chains and the keys are as before, the lock calls are related, and no entry is lost.
  pub record Step (calls : List LockCall → List LockCall → Type 0) (h : Config) (t t' : Table R)
      : Type 0 where
    pub chains : (a : BucketPtr) → next_of t' a ≡ next_of t a
    pub locks : calls t.lock_calls t'.lock_calls
    pub entries : Entries h t.buckets t'.buckets
    pub keys : Keys t t'

  -- Within a critical section there is no lock call; around them the calls are paired.
  abbrev pub Kept : Config → Table R → Table R → Type 0
  Kept = Step (λ c d. d ≡ c)

  abbrev pub Released : Config → Table R → Table R → Type 0
  Released = Step (λ c d. Paired c d)

  pub Kept-of_Framed :
      {h : Config} {t u : Table R} → Framed t u → Entries h t.buckets u.buckets → Kept h t u
  Kept-of_Framed p e = record { chains = p.chains; locks = p.locks; entries = e; keys = p.keys }

  pub Kept-refl : (h : Config) (t : Table R) → Kept h t t
  Kept-refl h t = record {
    chains = λ a. refl;
    locks = refl;
    entries = Entries-refl h t.buckets;
    keys = λ i. refl;
  }

  pub Kept-trans : {h : Config} {t u v : Table R} → Kept h t u → Kept h u v → Kept h t v
  Kept-trans {h} p q = record {
    chains = λ a. q.chains a ∙ p.chains a;
    locks = q.locks ∙ p.locks;
    entries = Entries-trans h p.entries q.entries;
    keys = λ i. q.keys i ∙ p.keys i;
  }

  pub Released-trans :
      {h : Config} {t u v : Table R} → Released h t u → Released h u v → Released h t v
  Released-trans {h} p q = record {
    chains = λ a. q.chains a ∙ p.chains a;
    locks = Paired-trans p.locks q.locks;
    entries = Entries-trans h p.entries q.entries;
    keys = λ i. q.keys i ∙ p.keys i;
  }

  pub Released-of_Kept : {h : Config} {t u : Table R} → Kept h t u → Released h t u
  Released-of_Kept {t} p = record {
    chains = p.chains;
    locks = subst (Paired t.lock_calls) (sym p.locks) same;
    entries = p.entries;
    keys = p.keys;
  }

  -- A critical section.
  pub critical :
      (h : Config) {t u : Table R}
      → Kept h (hash_rw_writer_lock h t) u
      → Released h t (hash_rw_writer_unlock h u)
  critical h {t} {u} p = record {
    chains = λ a. unlock-chains h u a ∙ p.chains a ∙ lock-chains h t a;
    locks = Paired-locks h t u p.locks;
    entries =
        Entries-trans h (Entries-same h (buckets-lock h t))
          (Entries-trans h p.entries (Entries-same h (buckets-unlock h u)));
    keys = λ i.
        ap (λ (l : List HashKey). (get_or l i no_key).key) (keys-unlock h u)
        ∙ p.keys i
        ∙ ap (λ (l : List HashKey). (get_or l i no_key).key) (keys-lock h t);
  }

  -- All the chains from main buckets fit the fuel.
  abbrev pub Chained : ℕ → Table R → Type 0
  Chained fuel t = (i : ℕ) → Ends fuel (next_of t) (some (main i))

  pub Chained-same :
      (fuel : ℕ) {calls : List LockCall → List LockCall → Type 0} {h : Config} {t u : Table R}
      → Step calls h t u
      → Chained fuel t
      → Chained fuel u
  Chained-same fuel p c i = Ends-same fuel p.chains (some (main i)) (c i)

  pub lock-Chained :
      (fuel : ℕ) (h : Config) (t : Table R)
      → Chained fuel t
      → Chained fuel (hash_rw_writer_lock h t)
  lock-Chained fuel h t c i = Ends-same fuel (lock-chains h t) (some (main i)) (c i)

  -- Only the data of the keys, the rings or the counter change.
  pub record Same (t u : Table R) : Type 0 where
    pub same_buckets : u.buckets ≡ t.buckets
    pub same_ext : u.buckets_ext ≡ t.buckets_ext
    pub same_locks : u.lock_calls ≡ t.lock_calls
    pub same_keys : Keys t u

  pub Same-refl : (t : Table R) → Same t t
  Same-refl t = record {
    same_buckets = refl;
    same_ext = refl;
    same_locks = refl;
    same_keys = λ i. refl;
  }

  pub Same-trans : {t u v : Table R} → Same t u → Same u v → Same t v
  Same-trans p q = record {
    same_buckets = q.same_buckets ∙ p.same_buckets;
    same_ext = q.same_ext ∙ p.same_ext;
    same_locks = q.same_locks ∙ p.same_locks;
    same_keys = λ i. q.same_keys i ∙ p.same_keys i;
  }

  pub bucket-Same : {t u : Table R} → Same t u → (a : BucketPtr) → bucket u a ≡ bucket t a
  unfolding bucket
  bucket-Same p (main i) = ap (λ (l : List Bucket). get_or l i no_bucket) p.same_buckets
  bucket-Same p (extra i) = ap (λ (l : List Bucket). get_or l i no_bucket) p.same_ext

  pub Framed-of_Same : {t u : Table R} → Same t u → Framed t u
  Framed-of_Same p = record {
    chains = λ a. ap (λ (b : Bucket). b.next) (bucket-Same p a);
    locks = p.same_locks;
    keys = p.same_keys;
  }

  pub Kept-of_Same : {h : Config} {t u : Table R} → Same t u → Kept h t u
  Kept-of_Same {h} p = Kept-of_Framed (Framed-of_Same p) (Entries-same h p.same_buckets)

  store_entry-chains :
      (a : BucketPtr) (i sig idx : ℕ) (t : Table R) (c : BucketPtr)
      → next_of (store_entry a i sig idx t) c ≡ next_of t c
  unfolding store_entry put_bucket bucket
  store_entry-chains (main j) i sig idx t (main k) =
      get_or-set_same (λ (b : Bucket). b.next) t.buckets j k _ no_bucket refl
  store_entry-chains (main j) i sig idx t (extra k) = refl
  store_entry-chains (extra j) i sig idx t (main k) = refl
  store_entry-chains (extra j) i sig idx t (extra k) =
      get_or-set_same (λ (b : Bucket). b.next) t.buckets_ext j k _ no_bucket refl

  store_entry-calls :
      (a : BucketPtr) (i sig idx : ℕ) (t : Table R)
      → (store_entry a i sig idx t).lock_calls ≡ t.lock_calls
  unfolding store_entry put_bucket
  store_entry-calls (main j) i sig idx t = refl
  store_entry-calls (extra j) i sig idx t = refl

  store_entry-keys :
      (a : BucketPtr) (i sig idx : ℕ) (t : Table R)
      → (store_entry a i sig idx t).key_store ≡ t.key_store
  unfolding store_entry put_bucket
  store_entry-keys (main j) i sig idx t = refl
  store_entry-keys (extra j) i sig idx t = refl

  pub store_entry-Framed :
      (a : BucketPtr) (i sig idx : ℕ) (t : Table R) → Framed t (store_entry a i sig idx t)
  store_entry-Framed a i sig idx t = record {
    chains = store_entry-chains a i sig idx t;
    locks = store_entry-calls a i sig idx t;
    keys = λ j. ap (λ (l : List HashKey). (get_or l j no_key).key) (store_entry-keys a i sig idx t);
  }

  store_entry-Entries :
      (h : Config) (a : BucketPtr) (i sig idx : ℕ) (t : Table R)
      → get_or (bucket t a).key_idx i 0 ≡ 0
      → Entries h t.buckets (store_entry a i sig idx t).buckets
  unfolding store_entry put_bucket bucket
  store_entry-Entries h (main c) i sig idx t free = put_entry-free h c i sig idx t.buckets free
  store_entry-Entries h (extra c) i sig idx t free = Entries-refl h t.buckets

  -- A store over a free entry.
  pub store_entry-Kept :
      (h : Config) (a : BucketPtr) (i sig idx : ℕ) (t : Table R)
      → get_or (bucket t a).key_idx i 0 ≡ 0
      → Kept h t (store_entry a i sig idx t)
  store_entry-Kept h a i sig idx t free =
      Kept-of_Framed (store_entry-Framed a i sig idx t) (store_entry-Entries h a i sig idx t free)

  pub store_extra-Kept :
      (h : Config) (c i sig idx : ℕ) (t : Table R) → Kept h t (store_entry (extra c) i sig idx t)
  unfolding store_entry put_bucket
  store_extra-Kept h c i sig idx t =
      Kept-of_Framed (store_entry-Framed (extra c) i sig idx t) (Entries-refl h t.buckets)

  abbrev pub KeptIn : {A : Type 0} → Config → Table R → A × Table R → Type 0
  KeptIn h t x = Kept h t (x.1)

  abbrev pub ReleasedIn : {A : Type 0} → Config → Table R → A × Table R → Type 0
  ReleasedIn h t x = Released h t (x.1)

  -- A critical section that may run out of fuel.
  pub critical-Gives :
      {A : Type 0} (h : Config) (t : Table R) (o : Option (A × Table R))
      → Gives (KeptIn h (hash_rw_writer_lock h t)) o
      → Gives (ReleasedIn h t) (o >>= λ x. some (x.0, hash_rw_writer_unlock h (x.1)))
  critical-Gives h t none p = p
  critical-Gives h t (some x) p = critical h p
