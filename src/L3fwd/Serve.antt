-- ===== src/L3fwd/Serve.antt =====
-- What a worker does with the requests in its completion queue: one round, and the whole loop.
use my_l3fwd.Prelude.{
  ℕ, suc, ◌+◌, ◌≤◌, ◌<◌, ◌≡◌, refl, arith, Bool, true, false, ◌∷◌, ltb, u32, length, get_elem?,
  Option-cases, get_elem?-lt, inl, inr,
}
use my_l3fwd.Nic.{Machine, CqEntry, WqEntry, Wq, register_buffer, word}
use my_l3fwd.Nic.Check.{tick}
use my_l3fwd.Nic.Post.{
  Room, put, post, send_entry, recv_entry, rmc_hw_send-free, rmc_hw_recv-free, put-Room,
  head_of_Room,
}
use my_l3fwd.Nic.Pending.{Delivered}
use my_l3fwd.Rpc.{
  done, Context, Qp, qp_at, RpcWithHeader, send_loop, send_to_node_zsim, do_recv_zsim,
  get_underlying_address, lbuf_offset,
}
use my_l3fwd.L3fwd.{ThreadParams, Locals, serve, timestamp}
use my_l3fwd.L3fwd.Slots.{Completes, Completes-Room}

-- The simulated hardware with all the entries of a stream in the completion queue: at each moment
-- it may complete any entries of the work queue, and do what it likes to the rest of the machine; it
-- does not touch the completion queue, and says that the clients have finished at the first moment
-- at which all entries have been read, and not before.
pub record Simulator (stream : ℕ → CqEntry) (stop : ℕ) (hw : ℕ → Machine → Machine) : Type 0 where
  pub keeps :
      (t n : ℕ) (m : Machine)
      → Delivered stream n stop m.cq
      → n ≤ stop
      → ((hw t m).cq ≡ m.cq) × Completes m.wq (hw t m).wq
  pub waits :
      (t n : ℕ) (m : Machine)
      → Delivered stream n stop m.cq
      → n < stop
      → (hw t m).client_done ≡ m.client_done
  pub finishes :
      (t : ℕ) (m : Machine) → Delivered stream stop stop m.cq → (hw t m).client_done ≡ true

module _ {stream : ℕ → CqEntry} {stop : ℕ} {hw : ℕ → Machine → Machine}
    (sim : Simulator stream stop hw) where
  pub tick_finishes :
      (m : Machine) → Delivered stream stop stop m.cq → (tick hw m).client_done ≡ true
  unfolding tick
  tick_finishes m d = sim.finishes m.clock m d

  -- What a moment of the hardware leaves.
  pub tick_queues :
      (n : ℕ) (m : Machine)
      → Delivered stream n stop m.cq
      → n ≤ stop
      → Completes m.wq (tick hw m).wq
        × ((tick hw m).cq ≡ m.cq)
        × (n < stop → (tick hw m).client_done ≡ m.client_done)
  unfolding tick
  tick_queues n m d h =
      let (same, completed) = sim.keeps m.clock n m d h in
      (completed, same, λ q. sim.waits m.clock n m d q)

  -- With room in the work queue the first attempt to send succeeds.
  send_loop-Room :
      (n q top : ℕ) (m : Machine)
      → Delivered stream n stop m.cq
      → n ≤ stop
      → Room q top m.wq
      → q < top
      → (f ctx_id addr bytes dest : ℕ)
      → send_loop hw (suc f) ctx_id addr bytes dest m
        ≡ done (post (send_entry (tick hw m).wq.sr ctx_id addr bytes dest) (tick hw m))
  unfolding send_loop
  send_loop-Room n q top m d le r h f ctx_id addr bytes dest =
      let sent =
        rmc_hw_send-free ctx_id addr bytes dest (tick hw m)
          (head_of_Room (tick hw m) (Completes-Room ((tick_queues n m d le).0) r) h) in
      rw (sent, send_loop, sent)

-- A worker that has registered passes the assertion of `do_recv_zsim`.
qp_at-lt : (c : Context) (i : ℕ) (qp : Qp) → qp_at c i ≡ done qp → ltb (length c.qps) i ≡ false
unfolding qp_at
qp_at-lt c i qp h = elim (Option-cases (get_elem? c.qps i)) [
  | inl out ↦ absurd (ground (arith, out))
  | inr (o, at) ↦ ground (arith, get_elem?-lt c.qps i at)
]

-- What one request leaves: the two posts on a queue in which entries may have been completed, and
-- otherwise the queues as they were.
pub record Served (m : Machine) (w : Wq) (send recv : WqEntry) (going : Type 0) (m' : Machine)
    : Type 0 where
  pub completed : Completes m.wq w
  pub wq : m'.wq ≡ put recv (put send w)
  pub cq : m'.cq ≡ m.cq
  pub flag : going → m'.client_done ≡ m.client_done

abbrev pub reply_to : (sr : Bool) → Locals → Context → (buf nb_tx_tot dest : ℕ) → WqEntry
reply_to sr l c buf nb_tx_tot dest =
    send_entry sr c.ctx_struct.ctx_id
      (get_underlying_address buf (lbuf_offset c.ctx_struct (u32 nb_tx_tot))) 64 dest

abbrev pub free_slot : (sr : Bool) → Context → (payload : ℕ) → WqEntry
free_slot sr c payload = recv_entry sr c.ctx_struct.ctx_id payload 64

module _ {stream : ℕ → CqEntry} {stop : ℕ} {hw : ℕ → Machine → Machine}
    (sim : Simulator stream stop hw) (f : ℕ) (l : Locals) (p : ThreadParams) (c : Context) {qp : Qp}
    (reg : qp_at c p.id ≡ done qp) where
  pub serve_lem :
      (buf t nb : ℕ) (rpc : RpcWithHeader) (source : ℕ) (n q top : ℕ) (m : Machine)
      → Delivered stream n stop m.cq
      → n ≤ stop
      → Room q top m.wq
      → q + 1 < top
      → (m' : Machine) × (serve hw (suc f) l p c buf t nb rpc source m ≡ done m')
        × (w : Wq) × (sr' : Bool) × Served m w
            (reply_to w.sr l c buf nb (u32 source))
            (free_slot sr' c rpc.payload)
            (n < stop)
            m'
  unfolding serve send_to_node_zsim do_recv_zsim register_buffer
  serve_lem buf t nb rpc source n q top m d le r h =
      let moved = tick_queues sim n started d le in
      let room₁ = Completes-Room (moved.0) r in
      let room₂ = put-Room room₁ first (omega arith) in
      (
        timestamp t (post second sent),
        rw (
          reg,
          send_loop-Room sim n q top started d le r (omega arith) f c.ctx_struct.ctx_id addr 64
              (u32 source),
          qp_at-lt c p.id qp reg,
          rmc_hw_recv-free c.ctx_struct.ctx_id rpc.payload 64 sent (head_of_Room sent room₂ h),
        ),
        (tick hw started).wq,
        sent.wq.sr,
        record { completed = moved.0; wq = refl; cq = moved.1; flag = moved.2 },
      )
    where
      addr : ℕ
      addr = get_underlying_address buf (lbuf_offset c.ctx_struct (u32 nb))

      started : Machine
      started =
          let stamped = timestamp t (timestamp t m) in
          record stamped { stores = word addr 0x1234 ∷ stamped.stores }

      first : WqEntry
      first = send_entry (tick hw started).wq.sr c.ctx_struct.ctx_id addr 64 (u32 source)

      sent : Machine
      sent = timestamp t (post first (tick hw started))

      second : WqEntry
      second = recv_entry sent.wq.sr c.ctx_struct.ctx_id rpc.payload 64
