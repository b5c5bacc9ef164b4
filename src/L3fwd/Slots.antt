-- ===== src/L3fwd/Slots.antt =====
-- What posts leave in the slots of the work queue, request by request.
use mathlib.Core.Path.{subst}
use native.Mathlib.Decide.{ℕ_discrete}
use my_l3fwd.Prelude.{
  ℕ, suc, ◌+◌, ◌-◌, ◌*◌, ◌≤◌, ◌<◌, ◌≡◌, ◌≢◌, sym, ◌∙◌, ap, arith, u16, get_or, false, length,
}
use my_l3fwd.Nic.{CqEntry, WqEntry, Wq, no_wqe, rmc_send, rmc_recv}
use my_l3fwd.Nic.Rounds.{slot_of}
use my_l3fwd.Nic.Post.{Room, put, put-Room, put_self, put_other}

-- Post `s` is the reply to the sender of `e`, and post `s + 1` gives the receive slot of `e` back.
abbrev pub Replied : Wq → CqEntry → ℕ → Type 0
Replied w e s =
    let send = get_or w.q (slot_of s) no_wqe in
    let recv = get_or w.q (slot_of (s + 1)) no_wqe in
    ((send.op ≡ rmc_send) × (send.nid ≡ u16 e.tid))
    × ((recv.op ≡ rmc_recv) × (recv.buf_addr ≡ e.recv_buf_addr))

-- Requests `n` to `stop - 1` of the stream have been answered in order, by the posts from `q` on.
abbrev pub Answered : (stream : ℕ → CqEntry) (n stop q : ℕ) → Wq → Type 0
Answered stream n stop q w = (j : ℕ) → n ≤ j → j < stop → Replied w (stream j) (q + 2 * (j - n))

abbrev completed : WqEntry → WqEntry
completed e = record e { valid = false }

-- An entry is as it was, but it may have been completed: `valid` is unset and never set.
abbrev pub SameEntry : WqEntry → WqEntry → Type 0
SameEntry e e' = (completed e' ≡ completed e) × (e.valid ≡ false → e'.valid ≡ false)

-- What the hardware may do to the work queue: complete some of its entries.
pub record Completes (w w' : Wq) : Type 0 where
  pub size : length w'.q ≡ length w.q
  pub head : w'.head ≡ w.head
  pub sr : w'.sr ≡ w.sr
  pub entries : (i : ℕ) → SameEntry (get_or w.q i no_wqe) (get_or w'.q i no_wqe)

-- Completing entries takes no room.
pub Completes-Room : {n stop : ℕ} {w w' : Wq} → Completes w w' → Room n stop w → Room n stop w'
Completes-Room c r = record {
  size = c.size ∙ r.size;
  at = (c.head ∙ r.at.0, c.sr ∙ r.at.1);
  fits = r.fits;
  free = λ j p q. (c.entries (slot_of j)).1 (r.free j p q);
}

-- The slots that none of the posts `q` to `q + count - 1` uses are as before, but for completions.
abbrev pub Untouched : (q count : ℕ) → Wq → Wq → Type 0
Untouched q count w w' =
    (i : ℕ)
    → ((j : ℕ) → q ≤ j → j < q + count → i ≢ slot_of j)
    → SameEntry (get_or w.q i no_wqe) (get_or w'.q i no_wqe)

pub Untouched-Completes :
    {q : ℕ} (count : ℕ) {w w₁ : Wq} (w₂ : Wq)
    → Completes w w₁
    → Untouched q count w₁ w₂
    → Untouched q count w w₂
Untouched-Completes count w₂ c rest i apart =
    let (same, freed) = rest i apart in
    let (same₀, freed₀) = c.entries i in (same ∙ same₀, λ h. freed (freed₀ h))

-- The two posts of a request stand in its slots, in front of those of later requests.
module _ (q k : ℕ) {w w₁ : Wq} (send recv : WqEntry) (room : Room q (q + (2 * suc k + 1)) w)
    (posted : w₁ ≡ put recv (put send w)) where
  room₁ : Room (q + 1) (q + (2 * suc k + 1)) (put send w)
  room₁ = put-Room room send (omega arith)

  pub room₂ : Room (q + 2) (q + 2 + (2 * k + 1)) w₁
  room₂ = subst (Room (q + 2) (q + 2 + (2 * k + 1))) (sym posted) (
      subst (λ a. Room a (q + 2 + (2 * k + 1)) (put recv (put send w))) (omega arith)
        (subst (λ b. Room (q + 1 + 1) b (put recv (put send w))) (omega arith)
          (put-Room room₁ recv (omega arith))))

  slot_send : get_or w₁.q (slot_of q) no_wqe ≡ send
  slot_send =
      ap (λ (x : Wq). get_or x.q (slot_of q) no_wqe) posted
      ∙ put_other room₁ recv (slot_of q) (omega arith)
      ∙ put_self room send

  slot_recv : get_or w₁.q (slot_of (q + 1)) no_wqe ≡ recv
  slot_recv = ap (λ (x : Wq). get_or x.q (slot_of (q + 1)) no_wqe) posted ∙ put_self room₁ recv

  pub Untouched-suc : (w₂ : Wq) → Untouched (q + 2) (2 * k) w₁ w₂ → Untouched q (2 * suc k) w w₂
  Untouched-suc w₂ rest i apart =
      subst (λ e. SameEntry e (get_or w₂.q i no_wqe))
        (ap (λ (x : Wq). get_or x.q i no_wqe) posted
          ∙ put_other room₁ recv i (apart (q + 1) (omega arith) (omega arith))
          ∙ put_other room send i (apart q (omega arith) (omega arith)))
        (rest i (λ j a b. apart j (omega arith) (omega arith)))

  pub Answered-suc :
      (stream : ℕ → CqEntry) (n stop : ℕ) (w₂ : Wq)
      → n + suc k ≡ stop
      → (send.op ≡ rmc_send) × (send.nid ≡ u16 (stream n).tid)
      → (recv.op ≡ rmc_recv) × (recv.buf_addr ≡ (stream n).recv_buf_addr)
      → Untouched (q + 2) (2 * k) w₁ w₂
      → Answered stream (n + 1) stop (q + 2) w₂
      → Answered stream n stop q w₂
  Answered-suc stream n stop w₂ span to from rest others j a b = elim (ℕ_discrete j n) [
    | yes e ↦
        subst (Replied w₂ (stream j)) (omega arith)
          (subst (λ (x : CqEntry). Replied w₂ x q) (ap stream (sym e)) first)
    | no ne ↦
        let back : q + 2 + 2 * (j - (n + 1)) ≡ q + 2 * (j - n) = omega arith in
        subst (Replied w₂ (stream j)) back (others j (omega arith) b)
  ]
    where
      first : Replied w₂ (stream n) q
      first =
          let at₀ =
            (rest (slot_of q) (λ j p r. omega (arith, room.fits))).0
            ∙ ap (λ (e : WqEntry). completed e) slot_send in
          let at₁ =
            (rest (slot_of (q + 1)) (λ j p r. omega (arith, room.fits))).0
            ∙ ap (λ (e : WqEntry). completed e) slot_recv in
          (
            (ap (λ (e : WqEntry). e.op) at₀ ∙ to.0, ap (λ (e : WqEntry). e.nid) at₀ ∙ to.1),
            (
              ap (λ (e : WqEntry). e.op) at₁ ∙ from.0,
              ap (λ (e : WqEntry). e.buf_addr) at₁ ∙ from.1,
            ),
          )
