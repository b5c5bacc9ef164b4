-- ===== src/Hash/Locks.antt =====
-- The calls of the lock of the table (`__hash_rw_writer_lock` and `__hash_rw_writer_unlock` of
-- rte_lib/rte_cuckoo_hash.c) in pairs.
use mathlib.Core.Path.{subst}
use my_l3fwd.Prelude.{◌≡◌, sym, ◌∙◌, ap, arith, Bool, true, false, Option, List, ◌∷◌}
use my_l3fwd.Hash.{
  BucketPtr, main, extra, Config, LockCall, write_lock, write_unlock, Table, bucket,
  hash_rw_writer_lock, hash_rw_writer_unlock,
}

-- Later calls are pairs of a lock and an unlock.
pub data Paired (c : List LockCall) : List LockCall → Type 0 where
  same : Paired c c
  pair : {d : List LockCall} → Paired c d → Paired c (write_unlock ∷ write_lock ∷ d)

pub Paired-trans : {b c d : List LockCall} → Paired b c → Paired c d → Paired b d
Paired-trans p same = p
Paired-trans p (pair q) = pair (Paired-trans p q)

abbrev calls_of : Bool → LockCall → List LockCall → List LockCall
calls_of true c d = c ∷ d
calls_of false c d = d

calls_of-Paired :
    (b : Bool) (c : List LockCall) → Paired c (calls_of b write_unlock (calls_of b write_lock c))
calls_of-Paired true c = pair same
calls_of-Paired false c = same

module _ {R : Type 0} where
  abbrev pub next_of : Table R → BucketPtr → Option BucketPtr
  next_of t a = (bucket t a).next

  pub lock-chains :
      (h : Config) (t : Table R) (a : BucketPtr) → next_of (hash_rw_writer_lock h t) a ≡ next_of t a
  unfolding hash_rw_writer_lock bucket
  lock-chains h t (main i) = ground arith
  lock-chains h t (extra i) = ground arith

  pub unlock-chains :
      (h : Config) (t : Table R) (a : BucketPtr)
      → next_of (hash_rw_writer_unlock h t) a ≡ next_of t a
  unfolding hash_rw_writer_unlock bucket
  unlock-chains h t (main i) = ground arith
  unlock-chains h t (extra i) = ground arith

  pub buckets-lock : (h : Config) (t : Table R) → (hash_rw_writer_lock h t).buckets ≡ t.buckets
  unfolding hash_rw_writer_lock
  buckets-lock h t = ground arith

  pub buckets-unlock : (h : Config) (t : Table R) → (hash_rw_writer_unlock h t).buckets ≡ t.buckets
  unfolding hash_rw_writer_unlock
  buckets-unlock h t = ground arith

  pub keys-lock : (h : Config) (t : Table R) → (hash_rw_writer_lock h t).key_store ≡ t.key_store
  unfolding hash_rw_writer_lock
  keys-lock h t = ground arith

  pub keys-unlock : (h : Config) (t : Table R) → (hash_rw_writer_unlock h t).key_store ≡ t.key_store
  unfolding hash_rw_writer_unlock
  keys-unlock h t = ground arith

  pub ext-lock : (h : Config) (t : Table R) → (hash_rw_writer_lock h t).buckets_ext ≡ t.buckets_ext
  unfolding hash_rw_writer_lock
  ext-lock h t = ground arith

  pub slots-lock : (h : Config) (t : Table R) → (hash_rw_writer_lock h t).free_slots ≡ t.free_slots
  unfolding hash_rw_writer_lock
  slots-lock h t = ground arith

  pub slots-unlock :
      (h : Config) (t : Table R) → (hash_rw_writer_unlock h t).free_slots ≡ t.free_slots
  unfolding hash_rw_writer_unlock
  slots-unlock h t = ground arith

  pub ext-unlock :
      (h : Config) (t : Table R) → (hash_rw_writer_unlock h t).buckets_ext ≡ t.buckets_ext
  unfolding hash_rw_writer_unlock
  ext-unlock h t = ground arith

  lock_calls-lock :
      (h : Config) (t : Table R)
      → (hash_rw_writer_lock h t).lock_calls ≡ calls_of h.writer_takes_lock write_lock t.lock_calls
  unfolding hash_rw_writer_lock
  lock_calls-lock h t = ground arith

  lock_calls-unlock :
      (h : Config) (t : Table R)
      → (hash_rw_writer_unlock h t).lock_calls
        ≡ calls_of h.writer_takes_lock write_unlock t.lock_calls
  unfolding hash_rw_writer_unlock
  lock_calls-unlock h t = ground arith

  pub Paired-locks :
      (h : Config) (t u : Table R)
      → u.lock_calls ≡ (hash_rw_writer_lock h t).lock_calls
      → Paired t.lock_calls (hash_rw_writer_unlock h u).lock_calls
  Paired-locks h t u e =
      subst (Paired t.lock_calls)
        (sym (
          lock_calls-unlock h u
          ∙ ap (calls_of h.writer_takes_lock write_unlock) (e ∙ lock_calls-lock h t)))
        (calls_of-Paired h.writer_takes_lock t.lock_calls)
