-- ===== src/Nic/Check.antt =====
-- `rmc_check_cq` of libzsim/zsim_nic_defines.cpp: the two nested polling loops. The hardware acts
-- at the start of each round of the outer loop, as the parameter `hw` says; a round of the inner
-- loop that it interrupts is one that it follows.
use my_l3fwd.Prelude.{
  ℕ, zero, suc, ◌+◌, Bool, true, false, not, ◌&&◌, Option, none, some, ◌==◌, ltb, if◌then◌else◌,
  get_or, set, u32,
}
use my_l3fwd.Nic.{
  max_num_wq, rmc_sabre, rmc_incoming_send, rmc_incoming_resp, rmc_inval, CqEntry, Wq, Cq, Success,
  no_wqe, no_cqe, Machine, register_buffer, head_entry,
}

abbrev pub same_sense : Bool → Bool → Bool
same_sense true b = b
same_sense false b = not b

abbrev pub tail_entry : Cq → CqEntry
tail_entry c = get_or c.q c.tail no_cqe

-- The entry at the tail is marked as read, and the tail moves on as the head does.
unfoldable pub consume : Cq → Cq
consume c =
    let q' = set c.q c.tail (record (tail_entry c) { valid = false }) in
    if ltb (u32 (c.tail + 1)) max_num_wq
    then record c { q = q'; tail = u32 (c.tail + 1) }
    else record c { q = q'; tail = 0; sr = not c.sr }

-- The function's start, over `junk`, what the uninitialised `ret` holds.
abbrev pub fresh : Success → Success
fresh junk = record junk { success = 1; op = rmc_inval }

-- A round of the inner loop returns from the function, or goes on with a new `ret`.
pub data Round : Type 0 where
  returned : Success → Round
  goes_on : Success → Round

-- What a round makes of the entry `raw` copied from the queue. `again` is the field `success` of
-- the queue's own slot, read once more for a SABRe operation.
unfoldable pub classify : Wq → (raw : CqEntry) (again : ℕ) → Success → Round
classify w raw again ret =
    if raw.success == 0x7f
    then returned
        (record ret { recv_buf_addr = raw.recv_buf_addr; op = rmc_incoming_send; tid = raw.tid })
    else if raw.success == 1
    then returned
        (record ret { recv_buf_addr = raw.recv_buf_addr; op = rmc_incoming_resp; tid = raw.tid })
    else if (get_or w.q raw.tid no_wqe).op == rmc_sabre
    then (if again == 0
        then goes_on (record ret { op = rmc_sabre; success = again; tid = raw.tid })
        else goes_on (record ret { op = rmc_sabre; success = again }))
    else goes_on (record ret { op = 0 })

-- The magic call counts every round but the first.
unfoldable pub count_round : (first : Bool) (field : ℕ) → Machine → Machine
unfolding register_buffer
count_round true field m = m
count_round false field m = register_buffer 1 field m

-- The inner loop; `none` when the fuel runs out.
unfoldable pub inner : (fuel : ℕ) (first : Bool) → Success → Machine → Option (Round × Machine)
inner zero first ret m = none
inner (suc f) first ret m =
    let raw = tail_entry m.cq in
    let m' = count_round first 0x11 m in
    let done : Machine = record m' { cq = consume m.cq } in
    let rest = λ (r : Success). inner f false r done in
    if same_sense raw.sr m.cq.sr && not (ret.success == 0)
    then elim (classify m.wq raw raw.success ret) [
      | returned r ↦ some (returned r, done)
      | goes_on r ↦ rest r
    ]
    else some (goes_on ret, m)

-- No more than 128 rounds can be made between two moments of the hardware.
abbrev pub inner_fuel : ℕ
inner_fuel = 129

module _ (hw : ℕ → Machine → Machine) where
  -- The hardware acts; it cannot turn back the clock.
  unfoldable pub tick : Machine → Machine
  tick m = record (hw m.clock m) { clock = m.clock + 1 }

  unfoldable pub outer : (fuel : ℕ) (first : Bool) → Success → Machine → Option (Success × Machine)
  outer zero first ret m = none
  outer (suc f) first ret m =
      let now = count_round first 0x12 (tick m) in
      let busy = (head_entry now).valid in
      elim (inner inner_fuel true ret now) [
        | none ↦ none
        | some (returned r, m') ↦ some (r, m')
        | some (goes_on r, m') ↦
            (let again = outer f false r m' in
              if busy && not (r.success == 0) then again else some (r, register_buffer 1 0x11 m'))
      ]

  unfoldable pub rmc_check_cq : (fuel : ℕ) (junk : Success) → Machine → Option (Success × Machine)
  rmc_check_cq fuel junk m = outer fuel true (fresh junk) m
