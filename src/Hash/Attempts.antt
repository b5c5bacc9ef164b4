-- ===== src/Hash/Attempts.antt =====
-- The attempts to insert a key into the table of rte_lib/rte_cuckoo_hash.c (the last part of
-- `__rte_hash_add_key_with_hash`): in the primary bucket, by moves from it, by moves from the
-- secondary bucket, and in an extendable bucket.
use my_l3fwd.Prelude.{ℕ, ◌≡◌, Option, List, inr}
use my_l3fwd.Hash.{◌>>=◌, minus_one, minus_enospc, main, Config, RingOps, Table, enqueue_slot_back}
use my_l3fwd.Hash.Insert.{Inserted, stored, present, failed}
use my_l3fwd.Hash.Space.{rte_hash_cuckoo_make_space_mw}
use my_l3fwd.Hash.Add.{settle, add_extended, attempts}
use my_l3fwd.Hash.Gives.{Gives, Gives-bind, Gives-map}
use my_l3fwd.Hash.Safe.{Released, Released-trans, Released-of_Kept, Chained, Chained-same}
use my_l3fwd.Hash.Calls.{insert_mw-Made}
use my_l3fwd.Hash.Found.{Found, Found-swap}
use my_l3fwd.Hash.Made.{InRange, Made, Made-after}
use my_l3fwd.Hash.MakeSpace.{make_space_mw-Made}
use my_l3fwd.Hash.Answer.{Added, Added-after, Added-told, Added-stored}
use my_l3fwd.Hash.LookedUp.{Found-enqueue, enqueue-Kept}
use my_l3fwd.Hash.Extend.{add_extended-Added}

module _ {R : Type 0} (ring : RingOps R) (h : Config) (fuel : ℕ) where
  module _ (key : List ℕ) (prim sec app_data sig slot_id : ℕ) where
    -- What an attempt in one bucket or the other leads to.
    settle-Added :
        (a alt err : ℕ) (next : ℕ → Table R → Option (ℕ × Table R)) (t : Table R)
        → ((u : Table R) (v : ℕ)
            → Found key sig u (main a) (main alt) v
            → Found key sig u (main prim) (main sec) v)
        → ((ret : ℕ) (u : Table R)
            → Released h t u
            → ret ≡ err
            → Gives (Added h key prim sec sig slot_id t) (next ret u))
        → (x : Inserted × Table R) → Made h key a alt sig slot_id err t x
        → Gives (Added h key prim sec sig slot_id t) (settle ring h fuel slot_id next (x.0) (x.1))
    unfolding settle
    settle-Added a alt err next t turn go (stored, u) p =
        Added-stored h key prim sec sig slot_id a alt err u (turn u) p
    settle-Added a alt err next t turn go (present v, u) p =
        Added-told h key prim sec sig slot_id (v, enqueue_slot_back ring slot_id u)
          (Released-trans (p.0) (Released-of_Kept (enqueue-Kept ring h fuel slot_id u)))
          (inr (Found-enqueue ring h fuel slot_id key sig u (turn u v (p.2))))
    settle-Added a alt err next t turn go (failed e, u) p = go e u (p.0) (p.2)

    -- An attempt by `make_space` that settles the call or goes on.
    space-Added :
        (a alt : ℕ) (next : ℕ → Table R → Option (ℕ × Table R)) (t u : Table R)
        → ((v : Table R) (w : ℕ)
            → Found key sig v (main a) (main alt) w
            → Found key sig v (main prim) (main sec) w)
        → InRange h a
        → Chained fuel t
        → Released h t u
        → ((ret : ℕ) (v : Table R)
            → Released h t v
            → ret ≡ minus_enospc
            → Gives (Added h key prim sec sig slot_id t) (next ret v))
        → Gives (Added h key prim sec sig slot_id t) (
            rte_hash_cuckoo_make_space_mw h fuel (main a) (main alt) app_data key sig slot_id a u
            >>= λ x. settle ring h fuel slot_id next (x.0) (x.1))
    space-Added a alt next t u turn in_range c p go =
        Gives-bind (Added h key prim sec sig slot_id t) _
          (λ x. settle ring h fuel slot_id next (x.0) (x.1))
          (make_space_mw-Made h fuel a alt app_data key sig slot_id u in_range
            (Chained-same fuel p c))
          (λ x q.
            settle-Added a alt minus_enospc next t turn go x
              (Made-after h key a alt sig slot_id minus_enospc x p q))

    pub attempts-Added :
        (t : Table R)
        → InRange h prim
        → InRange h sec
        → Chained fuel t
        → Gives
            (Added h key prim sec sig slot_id t)
            (attempts ring h fuel prim sec app_data key sig slot_id t)
    unfolding attempts
    attempts-Added t lt_prim lt_sec c =
        let third = add_extended ring h fuel (main prim) (main sec) app_data key sig slot_id in
        let second = λ (ret : ℕ) (u : Table R).
          rte_hash_cuckoo_make_space_mw h fuel (main sec) (main prim) app_data key sig slot_id sec u
          >>= λ x. settle ring h fuel slot_id third (x.0) (x.1) in
        let first = λ (ret : ℕ) (u : Table R).
          rte_hash_cuckoo_make_space_mw h fuel (main prim) (main sec) app_data key sig slot_id prim
            u
          >>= λ x. settle ring h fuel slot_id second (x.0) (x.1) in
        Gives-bind (Added h key prim sec sig slot_id t) _
          (λ x. settle ring h fuel slot_id first (x.0) (x.1))
          (insert_mw-Made h fuel prim sec app_data key sig slot_id t lt_prim c)
          (settle-Added prim sec minus_one first t (λ u v f. f)
            (λ ret u p e.
              space-Added prim sec second t u (λ v w f. f) lt_prim c p
                (λ ret v q e'.
                  space-Added sec prim third t v (λ w x f. Found-swap key sig w f) lt_sec c q
                    (λ ret w r no_room.
                      Gives-map (Added h key prim sec sig slot_id t) _
                        (add_extended-Added ring h fuel prim sec app_data key sig slot_id ret w
                          (Chained-same fuel r c) no_room)
                        (λ x p'. Added-after h key prim sec sig slot_id x r p')))))
