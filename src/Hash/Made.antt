-- ===== src/Hash/Made.antt =====
-- What an attempt to insert a key into the table of rte_lib/rte_cuckoo_hash.c has done, by its
-- answer: stored, found, or failed.
use mathlib.Core.Path.{subst}
use my_l3fwd.Prelude.{sym, ℕ, ◌-◌, ◌^◌, ◌≤◌, ◌<◌, ◌≡◌, refl, Option, none, some, List}
use my_l3fwd.Hash.{
  ◌>>=◌, minus_one, main, Config, Table, hash_rw_writer_lock, hash_rw_writer_unlock,
}
use my_l3fwd.Hash.Insert.{Inserted, stored, present, failed}
use my_l3fwd.Hash.Entries.{Entry, Sized}
use my_l3fwd.Hash.Moves.{Put, not_stored, present-not_stored}
use my_l3fwd.Hash.Found.{Found, Found-unlock}
use my_l3fwd.Hash.Locks.{buckets-lock, buckets-unlock}
use my_l3fwd.Hash.Gives.{Gives}
use my_l3fwd.Hash.Safe.{
  Kept, Kept-refl, Kept-trans, Kept-of_Same, Same, Released, Released-trans, Released-of_Kept,
  critical,
}

-- An index of a bucket of the table.
abbrev pub InRange : Config → ℕ → Type 0
InRange h a = (k : ℕ) → k ≤ 32 → h.bucket_bitmask ≡ 2 ^ k - 1 → a < 2 ^ k

module _ {R : Type 0} (h : Config) (key : List ℕ) (a alt sig idx : ℕ) where
  -- The new entry stands in bucket `a` of the later table, if the call says so.
  abbrev pub Puts : Table R → Inserted × Table R → Type 0
  Puts t x = (k : ℕ) → Sized k h t.buckets → Put a sig idx x

  -- A key that is said to be present is in the table, and there is one way to fail.
  abbrev pub Told : (err : ℕ) → Inserted × Table R → Type 0
  Told err (stored, u) = Unit
  Told err (present v, u) = Found key sig u (main a) (main alt) v
  Told err (failed e, u) = e ≡ err

  -- Within a critical section, and after it.
  abbrev pub Filled : Table R → Inserted × Table R → Type 0
  Filled t x = Kept h t (x.1) × Puts t x × Told minus_one x

  abbrev pub Made : (err : ℕ) → Table R → Inserted × Table R → Type 0
  Made err t x = Released h t (x.1) × Puts t x × Told err x

  pub Filled-of_Same : {t u : Table R} (x : Inserted × Table R) → Same t u → Filled u x → Filled t x
  Filled-of_Same x s p = (
    Kept-trans (Kept-of_Same s) (p.0),
    λ k z. p.1 k (subst (Sized k h) (sym s.same_buckets) z),
    p.2,
  )

  pub Filled-present :
      (v : ℕ) {t u : Table R}
      → Same t u
      → Found key sig u (main a) (main alt) v
      → Filled t (present v, u)
  Filled-present v s f = (Kept-of_Same s, λ k z e. absurd (present-not_stored v e), f)

  pub Made-failed : (r : ℕ) (t : Table R) → Made r t (failed r, t)
  Made-failed r t = (Released-of_Kept (Kept-refl h t), λ k z e. absurd (not_stored r e), refl)

  pub Made-after :
      (err : ℕ) {t u : Table R} (x : Inserted × Table R)
      → Released h t u
      → Made err u x
      → Made err t x
  Made-after err x p q = (Released-trans p (q.0), λ k z. q.1 k ((p.entries k z).0), q.2)

  Told-unlock :
      (err : ℕ) (x : Inserted × Table R)
      → Told err x
      → Told err (x.0, hash_rw_writer_unlock h (x.1))
  Told-unlock err (stored, u) q = tt
  Told-unlock err (present v, u) q = Found-unlock key sig h u q
  Told-unlock err (failed e, u) q = q

  -- A critical section that may run out of fuel.
  pub critical-Made :
      (t : Table R) (o : Option (Inserted × Table R))
      → Gives (Filled (hash_rw_writer_lock h t)) o
      → Gives (Made minus_one t) (o >>= λ x. some (x.0, hash_rw_writer_unlock h (x.1)))
  critical-Made t none p = p
  critical-Made t (some x) p = (
    critical h (p.0),
    λ k z e.
        let (s, entry) = p.1 k (subst (Sized k h) (sym (buckets-lock h t)) z) e in
        (s, subst (λ bs. Entry bs a s sig idx) (sym (buckets-unlock h (x.1))) entry),
    Told-unlock minus_one x (p.2),
  )
