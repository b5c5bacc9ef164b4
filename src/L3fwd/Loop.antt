-- ===== src/L3fwd/Loop.antt =====
-- The whole loop of a worker against the stream of completions: each request is answered in order.
use mathlib.Core.Path.{subst}
use my_l3fwd.Prelude.{
  ℕ, zero, suc, ◌+◌, ◌*◌, ◌%◌, ◌/◌, ◌^◌, ◌<◌, ◌≡◌, ◌↔◌, refl, sym, ◌∙◌, ap, arith, false, ◌==◌, u16,
  u32,
}
use my_l3fwd.Nic.{Machine, CqEntry, Wq, register_buffer, head_entry}
use my_l3fwd.Nic.Check.{tick, consume}
use my_l3fwd.Nic.Post.{Room, head_of_Room}
use my_l3fwd.Nic.Pending.{Delivered, rmc_check_cq-incoming, rmc_check_cq-nothing, consume-Delivered}
use my_l3fwd.Rpc.{
  done, Context, Qp, qp_at, Junk, RpcWithHeader, poll_loop, receive_rpc_request_zsim_l3fwd, store16,
}
use my_l3fwd.L3fwd.{ThreadParams, Locals, serve_round, serve_loop}
use my_l3fwd.L3fwd.Slots.{
  Answered, Untouched, Completes-Room, Untouched-Completes, room₂, Untouched-suc, Answered-suc,
}
use my_l3fwd.L3fwd.Serve.{Simulator, tick_queues, tick_finishes, serve_lem, reply_to, free_slot}

-- The node that a reply goes to is the sender exactly when the upper half of the low word of the
-- uninitialised variable happens to be zero.
reply_node_iff : (old tid : ℕ) → (u32 (store16 old tid) ≡ u16 tid) ↔ (old / 2 ^ 16 % 2 ^ 16 ≡ 0)
reply_node_iff old tid = (λ h. omega arith, λ h. omega arith)

module _ {stream : ℕ → CqEntry} {stop : ℕ} {hw : ℕ → Machine → Machine}
    (sim : Simulator stream stop hw) (f : ℕ) (c : Context) (i : ℕ) {qp : Qp}
    (reg : qp_at c i ≡ done qp) where
  pub receive_pending :
      (n : ℕ) (junk : Junk) (m : Machine)
      → Delivered stream n stop m.cq
      → n < stop
      → (stream n).success ≡ 0x7f
      → m.client_done ≡ false
      → receive_rpc_request_zsim_l3fwd hw (suc f) c i junk m
        ≡ done (
          record junk.rpc { payload = (stream n).recv_buf_addr; senders_nid = u16 (stream n).tid },
          store16 junk.source_node_id (stream n).tid,
          record (tick hw m) { cq = consume (tick hw m).cq },
        )
  unfolding receive_rpc_request_zsim_l3fwd poll_loop
  receive_pending n junk m d h e going =
      let moved = tick_queues sim n m d (omega arith) in
      let d' = subst (Delivered stream n stop) (sym (moved.1)) d in
      rw (reg, rmc_check_cq-incoming hw m d' h e f junk.poll, poll_loop, moved.2 h, going)

  pub receive_finished :
      (junk : Junk) (m : Machine)
      → Delivered stream stop stop m.cq
      → (head_entry (tick hw m)).valid ≡ false
      → receive_rpc_request_zsim_l3fwd hw (suc f) c i junk m
        ≡ done (
          record junk.rpc { payload_len = 0xdead },
          junk.source_node_id,
          register_buffer 1 0x11 (tick hw m),
        )
  unfolding receive_rpc_request_zsim_l3fwd poll_loop register_buffer
  receive_finished junk m d free =
      let moved = tick_queues sim stop m d (omega arith) in
      let over = tick_finishes sim m d in
      let d' = subst (Delivered stream stop stop) (sym (moved.1)) d in
      rw (reg, rmc_check_cq-nothing hw m d' free f junk.poll, poll_loop, over)

-- What the loop must find in the uninitialised variables to work.
pub record Benign (l : Locals) : Type 0 where
  pub upper : (t : ℕ) → (l.junk t).source_node_id / 2 ^ 16 % 2 ^ 16 ≡ 0
  pub length_differs : (t : ℕ) → ((l.junk t).rpc.payload_len == 0xdead) ≡ false

-- How a worker leaves its loop.
pub record Finished (stream : ℕ → CqEntry) (n stop q count : ℕ) (w : Wq) (m' : Machine)
    : Type 0 where
  pub read : Delivered stream stop stop m'.cq
  pub answered : Answered stream n stop q m'.wq
  pub untouched : Untouched q (2 * count) w m'.wq

module _ {stream : ℕ → CqEntry} {stop : ℕ} {hw : ℕ → Machine → Machine}
    (sim : Simulator stream stop hw) (sends : (j : ℕ) → j < stop → (stream j).success ≡ 0x7f)
    (f : ℕ) {l : Locals} (benign : Benign l) (p : ThreadParams) (c : Context) {qp : Qp}
    (reg : qp_at c p.id ≡ done qp) where
  -- A worker whose completion queue holds `k` requests, with room for their posts and one more,
  -- answers all of them in order, writes no other slot, and then stops with its count raised by `k`.
  pub serve_loop-Finished :
      (k rounds buf t nb n q : ℕ) (m : Machine)
      → n + k ≡ stop
      → k < rounds
      → Delivered stream n stop m.cq
      → (n < stop → m.client_done ≡ false)
      → Room q (q + (2 * k + 1)) m.wq
      → (m' : Machine) × (serve_loop hw (suc f) l p c rounds buf t nb m ≡ done (t + k, m'))
        × Finished stream n stop q k m.wq m'
  unfolding serve_loop serve_round register_buffer
  serve_loop-Finished k zero buf t nb n q m span enough d going room = absurd (omega arith)
  serve_loop-Finished zero (suc rounds) buf t nb n q m span enough d going room =
      let e : n ≡ stop = omega arith in
      let d' = subst (λ x. Delivered stream x stop m.cq) e d in
      let moved = tick_queues sim stop m d' (omega arith) in
      (
        register_buffer 1 0x11 (tick hw m),
        rw
            (receive_finished sim f c p.id reg (l.junk t) m d'
              (head_of_Room (tick hw m) (Completes-Room (moved.0) room) (omega arith)))
            (ap (λ a. done (a, register_buffer 1 0x11 (tick hw m))) (omega arith)),
        record {
          read = subst (Delivered stream stop stop) (sym (moved.1)) d';
          answered = λ j a b. absurd (omega arith);
          untouched = λ i apart. moved.0.entries i;
        },
      )
  serve_loop-Finished (suc k) (suc rounds) buf t nb n q m span enough d going room =
      let h : n < stop = omega arith in
      let moved = tick_queues sim n m d (omega arith) in
      let got = receive_pending sim f c p.id reg n (l.junk t) m d h (sends n h) (going h) in
      let d₁ = consume-Delivered (subst (Delivered stream n stop) (sym (moved.1)) d) h in
      let room' = Completes-Room (moved.0) room in
      let (m₂, e₂, w, sr, sv) =
        serve_lem sim f l p c reg buf (t + 1) nb rpc source (n + 1) q (q + (2 * suc k + 1)) m₁ d₁
          (omega arith) room' (omega arith) in
      let room_w = Completes-Room sv.completed room' in
      let send = reply_to w.sr l c buf nb (u32 source) in
      let recv = free_slot sr c rpc.payload in
      let (m₃, e₃, fin) =
        serve_loop-Finished k rounds buf (t + 1) (nb + 1) (n + 1) (q + 2) m₂ (omega arith)
          (omega arith) (subst (Delivered stream (n + 1) stop) (sym (sv.cq)) d₁)
          (λ h'. sv.flag h' ∙ moved.2 h ∙ going h) (room₂ q k send recv room_w sv.wq) in
      (
        m₃,
        rw (got, benign.length_differs t, e₂, e₃) (ap (λ a. done (a, m₃)) (omega arith)),
        record {
          read = fin.read;
          answered =
              Answered-suc q k send recv room_w sv.wq stream n stop m₃.wq span
                (refl, (reply_node_iff (l.junk t).source_node_id (stream n).tid).1 (benign.upper t))
                (refl, refl) fin.untouched fin.answered;
          untouched = Untouched-Completes (2 * suc k) m₃.wq (moved.0) (
              Untouched-Completes (2 * suc k) m₃.wq sv.completed
                (Untouched-suc q k send recv room_w sv.wq m₃.wq fin.untouched));
        },
      )
    where
      rpc : RpcWithHeader
      rpc = record (l.junk t).rpc {
        payload = (stream n).recv_buf_addr;
        senders_nid = u16 (stream n).tid;
      }

      source : ℕ
      source = store16 (l.junk t).source_node_id (stream n).tid

      m₁ : Machine
      m₁ = record (tick hw m) { cq = consume (tick hw m).cq }
