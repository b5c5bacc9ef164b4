-- ===== src/L3fwd/Threads/Acts.antt =====
-- Each thing that a thread of l3fwd/worker.c does keeps what holds of it, and lowers the work that is
-- left by one.
use mathlib.Core.Path.{subst}
use my_l3fwd.Prelude.{
  ℕ, zero, suc, ◌+◌, ◌-◌, ◌*◌, ◌<◌, ◌≡◌, ◌≢◌, ◌⊎◌, inl, inr, refl, sym, ◌∙◌, ap, arith, Bool, true,
  some, ltb, length, set, get_elem?, get_elem?-set_ne, length-set, u32,
}
use my_l3fwd.Nic.{Machine, register_buffer}
use my_l3fwd.Nic.Post.{Room}
use my_l3fwd.Nic.Pending.{Delivered}
use my_l3fwd.Rpc.{done, Qp, qp_at, register_new_local_buffer, register_new_sonuma_qp, get_lbuf_size}
use my_l3fwd.L3fwd.{serve_loop, init_dest_eth_addr, rte_max_ethports}
use my_l3fwd.L3fwd.Loop.{Finished, serve_loop-Finished}
use my_l3fwd.L3fwd.Worker.{qp_at-set, lt-ltb}
use my_l3fwd.L3fwd.Threads.{
  Process, Shared, Phase, not_created, created, with_buffer, at_barrier, in_loop, ended, failed,
  act, arrived, passed, can_act,
}
use my_l3fwd.L3fwd.Threads.Rounds.{stops, goes_on, serve_loop-Next, serve_loop-le}
use my_l3fwd.L3fwd.Threads.Invariant.{
  Load, Fed, SameQueues, Holds, work, is_created, registered, addresses,
}

module _ (g : Process) (loads : ℕ → Load) (i : ℕ) (opened : Bool) (s : Shared) where
  -- What becomes of the shared state and of the thread.
  pub record Acts (ph : Phase) (r : Shared × Phase) : Type 0 where
    pub holds : Holds g loads i (r.0).context (r.1)
    pub lowers : work g loads i ph ≡ suc (work g loads i (r.1))
    pub kept_qps : length (r.0).context.qps ≡ length s.context.qps
    pub kept_buffers : length (r.0).context.app_buffers ≡ length s.context.app_buffers
    pub others : (j : ℕ) → i ≢ j → get_elem? (r.0).context.qps j ≡ get_elem? s.context.qps j
    pub still : arrived ph ≡ true → (r.0).context ≡ s.context
    pub exists : is_created (r.1) ≡ true
    pub fills :
        (registered ph ≡ true → s.eth_table ≡ addresses)
        → registered (r.1) ≡ true
        → (r.0).eth_table ≡ addresses
    pub stays : s.eth_table ≡ addresses → (r.0).eth_table ≡ addresses
    pub arrives : arrived ph ≡ true → arrived (r.1) ≡ true
    pub passes : passed (r.1) ≡ true → (passed ph ≡ true) ⊎ (opened ≡ true)

  module _ (id : (g.params i).id ≡ i) (pos : 0 < g.fuel)
      (fed : Fed (loads i) (g.hw i) (g.locals i) (g.machine i)) (in_qps : i < length s.context.qps)
      (in_buffers : i < length s.context.app_buffers) where
    created-Acts :
        (m : Machine)
        → SameQueues m (g.machine i)
        → (r : Shared × Phase) × (act g i s (created m) ≡ done r) × Acts (created m) r
    unfolding act is_created registered register_new_local_buffer register_buffer Holds work arrived
        passed
    created-Acts m same =
        let l = g.locals i in
        let c = s.context in
        let at = (g.params i).id in
        let inside : ltb at (length c.app_buffers) ≡ true = lt-ltb (omega (arith, id)) in
        (
          (
            record {
              context = record c { app_buffers = set c.app_buffers at (some l.lbuf) };
              multithread_check = at;
              eth_table = init_dest_eth_addr rte_max_ethports 0;
            },
            with_buffer l.lbuf
                (register_buffer l.lbuf_var 2 (register_buffer (get_lbuf_size c) 3 m)),
          ),
          rw inside,
          record {
            holds = record { wq = same.wq; cq = same.cq; flag = same.flag };
            lowers = omega arith;
            kept_qps = refl;
            kept_buffers = length-set c.app_buffers at (some l.lbuf);
            others = λ j apart. refl;
            still = λ h. absurd (cc);
            exists = refl;
            fills = λ _ _. refl;
            stays = λ _. refl;
            arrives = λ h. absurd (cc);
            passes = λ h. absurd (cc);
          },
        )

    with_buffer-Acts :
        (buf : ℕ) (m : Machine)
        → SameQueues m (g.machine i)
        → (r : Shared × Phase) × (act g i s (with_buffer buf m) ≡ done r)
          × Acts (with_buffer buf m) r
    unfolding act is_created registered register_new_sonuma_qp register_buffer Holds work arrived
        passed
    with_buffer-Acts buf m same =
        let l = g.locals i in
        let c = s.context in
        let at = (g.params i).id in
        let qp : Qp = record { qp_id = u32 at } in
        let inside : ltb at (length c.qps) ≡ true = lt-ltb (omega (arith, id)) in
        let set_at : set c.qps at (some qp) ≡ set c.qps i (some qp) =
          ap (λ x. set c.qps x (some qp)) id in
        (
          (
            record s { context = record c { qps = set c.qps at (some qp) } },
            at_barrier buf (register_buffer l.cq_var 1 (register_buffer l.wq_var 0 m)),
          ),
          rw inside,
          record {
            holds = (
              record { wq = same.wq; cq = same.cq; flag = same.flag },
              (qp, ap (λ x. qp_at (record c { qps = x }) i) set_at ∙ qp_at-set c i qp in_qps),
            );
            lowers = omega arith;
            kept_qps = length-set c.qps at (some qp);
            kept_buffers = refl;
            others = λ j apart.
                ap (λ x. get_elem? x j) set_at ∙ get_elem?-set_ne c.qps i j (some qp) apart;
            still = λ h. absurd (cc);
            exists = refl;
            fills = λ e _. e refl;
            stays = λ e. e;
            arrives = λ h. refl;
            passes = λ h. absurd (cc);
          },
        )

    at_barrier-Acts :
        (buf : ℕ) (m : Machine)
        → opened ≡ true
        → SameQueues m (g.machine i)
        → {qp : Qp} → (qp_at s.context i ≡ done qp)
        → (r : Shared × Phase) × (act g i s (at_barrier buf m) ≡ done r) × Acts (at_barrier buf m) r
    unfolding act is_created registered register_buffer Holds work arrived passed
    at_barrier-Acts buf m free same {qp} reg =
        let l = g.locals i in
        let d = loads i in
        let m' = register_buffer l.client_done_var 0xd m in
        let (left, e, fin) =
          serve_loop-Finished fed.sim fed.sends (g.fuel - 1) fed.benign (g.params i) s.context
            (subst (λ x. qp_at s.context x ≡ done qp) (sym id) reg) d.pending (suc d.pending) buf 0
            0 d.first d.slot m' fed.span (omega arith)
            (subst (Delivered d.stream d.first d.stop) (sym same.cq) fed.delivered)
            (λ h. same.flag ∙ fed.going)
            (subst (Room d.slot (d.slot + (2 * d.pending + 1))) (sym same.wq) fed.room) in
        let fuel : suc (g.fuel - 1) ≡ g.fuel = omega (arith, pos) in
        (
          (s, in_loop buf 0 0 m'),
          refl,
          record {
            holds = record {
              rounds = suc d.pending;
              left = left;
              runs =
                  subst
                    (λ x.
                      serve_loop (g.hw i) x l (g.params i) s.context (suc d.pending) buf 0 0 m'
                      ≡ done (d.pending, left))
                    fuel (e ∙ ap (λ x. done (x, left)) (omega arith));
              finished =
                  subst (λ w. Finished d.stream d.first d.stop d.slot d.pending w left) same.wq fin;
            };
            lowers = omega arith;
            kept_qps = refl;
            kept_buffers = refl;
            others = λ j apart. refl;
            still = λ h. refl;
            exists = refl;
            fills = λ e _. e refl;
            stays = λ e. e;
            arrives = λ h. refl;
            passes = λ h. inr free;
          },
        )

    in_loop-Acts :
        (buf t nb : ℕ) (m : Machine) (rounds : ℕ) {left : Machine}
        → (serve_loop (g.hw i) g.fuel (g.locals i) (g.params i) s.context rounds buf t nb m
            ≡ done ((loads i).pending, left))
        → Finished
            (loads i).stream
            (loads i).first
            (loads i).stop
            (loads i).slot
            (loads i).pending
            (g.machine i).wq
            left
        → (r : Shared × Phase) × (act g i s (in_loop buf t nb m) ≡ done r)
          × Acts (in_loop buf t nb m) r
    unfolding act is_created registered serve_loop register_buffer Holds work arrived passed
    in_loop-Acts buf t nb m zero runs fin = absurd (cc)
    in_loop-Acts buf t nb m (suc rounds) {left} runs fin =
        elim (serve_loop-Next (g.hw i) g.fuel (g.locals i) (g.params i) s.context buf rounds t nb m
          runs) [
            | stops e same ↦ (
              (s, ended t (register_buffer 0 0xdead left)),
              rw e,
              record {
                holds = record {
                  counted = same;
                  answered = fin.answered;
                  untouched = fin.untouched;
                };
                lowers = omega (arith, same);
                kept_qps = refl;
                kept_buffers = refl;
                others = λ j apart. refl;
                still = λ h. refl;
                exists = refl;
                fills = λ e _. e refl;
                stays = λ e. e;
                arrives = λ h. refl;
                passes = λ h. inl refl;
              },
            )
            | goes_on m' e rest ↦
                let le =
                  serve_loop-le (g.hw i) g.fuel (g.locals i) (g.params i) s.context buf rounds
                    (t + 1) (nb + 1) m' rest in
                (
                  (s, in_loop buf (t + 1) (nb + 1) m'),
                  rw e,
                  record {
                    holds = record { rounds = rounds; left = left; runs = rest; finished = fin };
                    lowers = omega (arith, le);
                    kept_qps = refl;
                    kept_buffers = refl;
                    others = λ j apart. refl;
                    still = λ h. refl;
                    exists = refl;
                    fills = λ e _. e refl;
                    stays = λ e. e;
                    arrives = λ h. refl;
                    passes = λ h. inl refl;
                  },
                )
          ]

    -- A thread that is not waiting makes its step.
    pub act-Acts :
        (ph : Phase)
        → Holds g loads i s.context ph
        → can_act opened ph ≡ true
        → (r : Shared × Phase) × (act g i s ph ≡ done r) × Acts ph r
    unfolding Holds can_act
    act-Acts not_created holds can = absurd (cc)
    act-Acts (created m) holds can = created-Acts m holds
    act-Acts (with_buffer buf m) holds can = with_buffer-Acts buf m holds
    act-Acts (at_barrier buf m) holds can = at_barrier-Acts buf m can (holds.0) (holds.1.1)
    act-Acts (in_loop buf t nb m) holds can =
        in_loop-Acts buf t nb m holds.rounds holds.runs holds.finished
    act-Acts (ended count m) holds can = absurd (cc)
    act-Acts failed holds can = absurd (cc)
