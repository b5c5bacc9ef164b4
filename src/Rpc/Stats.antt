-- ===== src/Rpc/Stats.antt =====
-- The container of statistics (`StatsContainer` of rpc_shm/rpc.h and rpc_shm/statContainer.tpp). An
-- element of `w` bytes is the number that they make, a file the list of its bytes; the file is opened.
use my_l3fwd.Prelude.{
  ℕ, zero, suc, ◌+◌, ◌-◌, ◌*◌, ◌/◌, ◌%◌, ◌^◌, ◌<◌, ◌≡◌, refl, ◌∙◌, ap, arith, Bool, true, false,
  none, some, List, [], ◌∷◌, ◌++◌, length, take, drop, replicate, get_elem?, length-append,
  length-take, length-replicate,
}
use my_l3fwd.Rpc.{Outcome, done, throws}

unfoldable pub append {ℓ} : {T : Type ℓ} → (append_me : T) → List T → List T
append append_me xs = xs ++ append_me ∷ []

unfoldable pub get {ℓ} : {T : Type ℓ} → (idx : ℕ) → List T → Outcome T
get idx xs = elim (get_elem? xs idx) [ none ↦ throws | some x ↦ done x ]

-- The bytes of an element in the order in which they stand in memory.
unfoldable pub bytes_of : (w v : ℕ) → List ℕ
bytes_of zero v = []
bytes_of (suc w) v = v % 256 ∷ bytes_of w (v / 256)

unfoldable pub write_to_file : (w : ℕ) → List ℕ → List ℕ
write_to_file w [] = []
write_to_file w (x ∷ xs) = bytes_of w x ++ write_to_file w xs

-- `vector::resize`
unfoldable pub resize : (num_elements : ℕ) → List ℕ → List ℕ
resize num_elements xs = take num_elements xs ++ replicate (num_elements - length xs) 0

-- What a read of the next element of a file gives: the element, which keeps the bytes for which the
-- file has none, the rest of the file, and whether the stream is still good.
pub record Got : Type 0 where
  pub value : ℕ
  pub rest : List ℕ
  pub good : Bool

unfoldable pub read : (w : ℕ) (file : List ℕ) (old : ℕ) → Got
read zero file old = record { value = 0; rest = file; good = true }
read (suc w) [] old = record { value = old; rest = []; good = false }
read (suc w) (b ∷ file) old =
    let more = read w file (old / 256) in
    record { value = b + 256 * more.value; rest = more.rest; good = more.good }

-- The loop over the elements; a stream that has failed reads nothing any more.
unfoldable pub read_each : (w : ℕ) (file : List ℕ) (good : Bool) → List ℕ → List ℕ
read_each w file good [] = []
read_each w file false (x ∷ xs) = x ∷ read_each w file false xs
read_each w file true (x ∷ xs) =
    let got = read w file x in got.value ∷ read_each w got.rest got.good xs

unfoldable pub read_from_file : (w num_elements : ℕ) (file : List ℕ) → List ℕ → List ℕ
read_from_file w num_elements file xs = read_each w file true (resize num_elements xs)

-- Each element has as many bytes as its type.
unfoldable pub Fits : (w : ℕ) → List ℕ → Type 0
Fits w [] = Unit
Fits w (x ∷ xs) = (x < 256 ^ w) × Fits w xs

read-bytes_of :
    (w x old : ℕ) (rest : List ℕ)
    → x < 256 ^ w
    → read w (bytes_of w x ++ rest) old ≡ record { value = x; rest = rest; good = true }
unfolding read bytes_of
read-bytes_of zero x old rest lt =
    ap (λ v. record { value = v; rest = rest; good = true }) (omega arith)
read-bytes_of (suc w) x old rest lt =
    let more = read-bytes_of w (x / 256) (old / 256) rest (omega arith) in
    ap (λ (g : Got). record { value = x % 256 + 256 * g.value; rest = g.rest; good = g.good }) more
    ∙ ap (λ v. record { value = v; rest = rest; good = true }) (omega arith)

read_each-failed : (w : ℕ) (file xs : List ℕ) → read_each w file false xs ≡ xs
unfolding read_each
read_each-failed w file [] = refl
read_each-failed w file (x ∷ xs) = ap (λ t. x ∷ t) (read_each-failed w file xs)

read_each-write :
    (w : ℕ) (xs ys : List ℕ)
    → Fits (suc w) xs
    → read_each (suc w) (write_to_file (suc w) xs) true ys
      ≡ take (length ys) xs ++ drop (length xs) ys
unfolding read_each write_to_file Fits read
read_each-write w [] [] fits = refl
read_each-write w [] (y ∷ ys) fits = ap (λ t. y ∷ t) (read_each-failed (suc w) [] ys)
read_each-write w (x ∷ xs) [] fits = refl
read_each-write w (x ∷ xs) (y ∷ ys) fits =
    let first = read-bytes_of (suc w) x y (write_to_file (suc w) xs) (fits.0) in
    ap (λ (g : Got). g.value ∷ read_each (suc w) g.rest g.good ys) first
    ∙ ap (λ t. x ∷ t) (read_each-write w xs ys (fits.1))

length-resize : (n : ℕ) (xs : List ℕ) → length (resize n xs) ≡ n
unfolding resize
length-resize n xs = omega (
  arith,
  length-append (take n xs) (replicate (n - length xs) 0),
  length-take n xs,
  length-replicate {A = ℕ} (n - length xs) 0,
)

-- A container that is written to a file and read into another gives back its elements, as many as
-- are asked for and as it has; the elements that are asked for beyond these are as the resizing of
-- the other container leaves them. Each element must have the width of its type, which is not zero.
pub read_from_file-write_to_file :
    (w num_elements : ℕ) (xs ys : List ℕ)
    → 0 < w
    → Fits w xs
    → read_from_file w num_elements (write_to_file w xs) ys
      ≡ take num_elements xs ++ drop (length xs) (resize num_elements ys)
unfolding read_from_file
read_from_file-write_to_file zero n xs ys pos fits = absurd (omega arith)
read_from_file-write_to_file (suc w) n xs ys pos fits =
    read_each-write w xs (resize n ys) fits
    ∙ ap (λ k. take k xs ++ drop (length xs) (resize n ys)) (length-resize n ys)
