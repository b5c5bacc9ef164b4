-- ===== src/Hash/Gives.antt =====
-- Results that have a property, and chains of buckets that end, for the functions on fuel of the
-- table of rte_lib/rte_cuckoo_hash.c.
use mathlib.Core.Path.{subst}
use my_l3fwd.Prelude.{
  ℕ, zero, suc, ◌≡◌, refl, sym, Bool, true, false, Option, none, some, if◌then◌else◌,
}
use my_l3fwd.Hash.{◌>>=◌, BucketPtr}

-- There is a result, and it has the property.
abbrev pub Gives {ℓ} : {A : Type ℓ} → (A → Type 0) → Option A → Type 0
Gives P none = ⊥
Gives P (some a) = P a

pub Gives-bind {ℓ κ} :
    {A : Type ℓ} {B : Type κ} {P : A → Type 0} (Q : B → Type 0) (o : Option A) (f : A → Option B)
    → Gives P o
    → ((a : A) → P a → Gives Q (f a))
    → Gives Q (o >>= f)
Gives-bind Q none f p step = absurd p
Gives-bind Q (some a) f p step = step a p

pub Gives-if {ℓ} :
    {A : Type ℓ} (P : A → Type 0) (b : Bool) (x y : Option A)
    → Gives P x
    → Gives P y
    → Gives P (if b then x else y)
Gives-if P true x y p q = p
Gives-if P false x y p q = q

-- The condition is known in each branch.
pub Gives-branch {ℓ} :
    {A : Type ℓ} (P : A → Type 0) (b : Bool) (x y : Option A)
    → (b ≡ true → Gives P x)
    → (b ≡ false → Gives P y)
    → Gives P (if b then x else y)
Gives-branch P true x y p q = p refl
Gives-branch P false x y p q = q refl

-- The result.
pub Gives-out {ℓ} :
    {A : Type ℓ} (P : A → Type 0) (o : Option A) → Gives P o → (a : A) × (o ≡ some a) × P a
Gives-out P none p = absurd p
Gives-out P (some a) p = (a, refl, p)

pub Gives-map {ℓ} :
    {A : Type ℓ} {P : A → Type 0} (Q : A → Type 0) (o : Option A)
    → Gives P o
    → ((a : A) → P a → Q a)
    → Gives Q o
Gives-map Q none p f = absurd p
Gives-map Q (some a) p f = f a p

-- The chain from a pointer has at most `n` buckets.
abbrev pub Ends : (n : ℕ) → (BucketPtr → Option BucketPtr) → Option BucketPtr → Type 0
Ends n next none = Unit
Ends zero next (some a) = ⊥
Ends (suc n) next (some a) = Ends n next (next a)

pub Ends-same :
    (n : ℕ) {f g : BucketPtr → Option BucketPtr}
    → ((a : BucketPtr) → g a ≡ f a)
    → (o : Option BucketPtr) → Ends n f o
    → Ends n g o
Ends-same n e none p = tt
Ends-same zero e (some a) p = absurd p
Ends-same (suc n) {f} {g} e (some a) p = Ends-same n e (g a) (subst (Ends n f) (sym (e a)) p)
