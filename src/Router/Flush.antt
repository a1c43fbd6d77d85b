-- ===== src/Router/Flush.antt =====
-- The rounds of `flush_mc_queues` (spin_emu_dispatcher.c), and a measure on the packets for them.
use spi_nnaker_emulator.Base.{
  ℕ, zero, suc, ◌+◌, ◌<◌, ◌≡◌, ◌≢◌, inl, inr, refl, ap, ◌∙◌, sym, arith, false, Bool-cases,
  eq-cases, List, [], ◌∷◌, All, All-map, some, Option, ltb, if◌then◌else◌, length,
}
use spi_nnaker_emulator.Grid.{num_links, num_chips}
use spi_nnaker_emulator.McQueue.{Mc, Queue, queue_size, contents}
use spi_nnaker_emulator.McQueue.Fifo.{contents_of_empty, length-contents}
use spi_nnaker_emulator.Wire.{num_routes}
use spi_nnaker_emulator.Router.{
  Net, State, route_one_mc_queue, after, flush_round, flush_rounds, flush_mc_queues,
}
use spi_nnaker_emulator.Router.Match.{IsFirst}
use spi_nnaker_emulator.Router.Forward.{HasLinks, Leads}
use spi_nnaker_emulator.Router.Keep.{IsReady, AllQueued, Noticed}
use spi_nnaker_emulator.Router.Drain.{Spreads, IsDrained, route_one_mc_queue-IsDrained}
use spi_nnaker_emulator.Router.Sweep.{
  for_each_inv, for_each_same, route_one_empty, flush_cores_quiet,
}

-- A rank of the packets on the chips that falls along every link that the router takes.
abbrev pub IsRanked : Net → (ℕ → Mc → ℕ) → Type 0
IsRanked net rank =
    (chip : ℕ) (mc : Mc) (k j t : ℕ)
    → chip < num_chips net.dims
    → k < num_routes
    → IsFirst net chip mc 0 k
    → j < num_links
    → Leads net chip (net.routes chip k) mc j t
    → rank t mc < rank chip mc

-- What `flush_mc_queues` ends with.
pub record IsFlushed (net : Net) (result : Option State) : Type 0 where
  pub state : State
  pub returns : result ≡ some state
  pub ready : IsReady state.queues
  pub idle : state.mc_pending ≡ false
  pub empty : (t : ℕ) → t < num_chips net.dims → (state.queues t 0).len ≡ 0

module _ (net : Net) (rank : ℕ → Mc → ℕ) (w : HasLinks net) (falls : IsRanked net rank) (fuel : ℕ)
    (enough : queue_size < fuel) where
  -- On the chips of the board all ranks are below `bound`.
  abbrev pub Below : ℕ → ℕ → Mc → Type 0
  Below bound t mc = t < num_chips net.dims → rank t mc < bound

  -- The same with the chips before `c` one lower, as in the middle of a round.
  abbrev Stage : ℕ → ℕ → ℕ → Mc → Type 0
  Stage k c t mc = Below (if ltb t c then k else suc k) t mc

  record IsStage (k c : ℕ) (s : State) : Type 0 where
    ready : IsReady s.queues
    queued : AllQueued (Stage k c) s.queues
    noticed : Noticed c s.queues s.mc_pending

  Stage-Spreads : (k c : ℕ) → c < num_chips net.dims → Spreads net c (Stage k c)
  Stage-Spreads k c hc mc e j t q lt first hj l ht =
      ground (arith, falls c mc e j t hc lt first hj l, q hc)

  next-IsStage :
      (k c : ℕ) (s : State)
      → c < num_chips net.dims
      → IsStage k c s
      → (s' : State) × (route_one_mc_queue net fuel c s ≡ some s') × IsStage k (c + 1) s'
  next-IsStage k c s hc st = (
    d.state,
    d.returns,
    record {
      ready = d.ready;
      queued = λ t. elim (eq-cases t c) [
        | inl e ↦ rw (e, contents_of_empty (d.state.queues c 0) d.empty) tt
        | inr ne ↦ All-map _ _ (contents (d.state.queues t 0)) (later t ne) (d.queued t)
      ];
      noticed = λ t lt. elim (eq-cases t c) [
        | inl e ↦ inl (rw e (d.empty))
        | inr ne ↦ d.noticed t (omega arith)
      ];
    },
  )
    where
      d : IsDrained net c w hc (Stage k c) (route_one_mc_queue net fuel c s)
      d =
          route_one_mc_queue-IsDrained net c w hc (Stage k c) fuel s (Stage-Spreads k c hc)
            (omega (arith, st.ready.fits c)) st.ready st.queued st.noticed

      later : (t : ℕ) → t ≢ c → (mc : Mc) → Stage k c t mc → Stage k (c + 1) t mc
      later t ne mc q ht = ground (arith, q ht)

  -- The state after a round of `flush_mc_queues`.
  record IsRound (k : ℕ) (result : Option State) : Type 0 where
    state : State
    returns : result ≡ some state
    ready : IsReady state.queues
    queued : AllQueued (Below k) state.queues
    noticed : Noticed (num_chips net.dims) state.queues state.mc_pending

  flush_round-IsRound :
      (k : ℕ) (s : State)
      → IsReady s.queues
      → AllQueued (Below (suc k)) s.queues
      → IsRound k (flush_round net fuel s)
  unfolding flush_round
  flush_round-IsRound k s v a =
      let start : State = record s { mc_pending = false } in
      let (s', r, st) =
        for_each_inv (IsStage k) (route_one_mc_queue net fuel) (num_chips net.dims) 0
          (num_chips net.dims) start (omega arith) (λ j s hj. next-IsStage k j s hj)
          (record {
            ready = v;
            queued = λ t. All-map _ _ (contents (s.queues t 0)) (first t) (a t);
            noticed = λ t lt. absurd (omega arith);
          }) in
      record {
        state = s';
        returns = rw (r, after) (flush_cores_quiet net fuel s' (omega arith) (st.ready));
        ready = st.ready;
        queued = λ t. All-map _ _ (contents (s'.queues t 0)) (last t) (st.queued t);
        noticed = st.noticed;
      }
    where
      first : (t : ℕ) (mc : Mc) → Below (suc k) t mc → Stage k 0 t mc
      first t mc q ht = ground (arith, q ht)

      last : (t : ℕ) (mc : Mc) → Stage k (num_chips net.dims) t mc → Below k t mc
      last t mc q ht = ground (arith, q ht)

  -- On an empty board a round does nothing but lower `mc_pending`.
  flush_round_empty :
      (s : State)
      → IsReady s.queues
      → ((t : ℕ) → t < num_chips net.dims → (s.queues t 0).len ≡ 0)
      → flush_round net fuel s ≡ some (record s { mc_pending = false })
  unfolding flush_round
  flush_round_empty s v none_queued =
      rw
        (
          for_each_same (route_one_mc_queue net fuel) (num_chips net.dims) 0
              (record s { mc_pending = false })
              (λ t p q.
                route_one_empty net fuel t (record s { mc_pending = false }) (omega arith)
                  (none_queued t (omega arith))),
          after,
        )
        (flush_cores_quiet net fuel (record s { mc_pending = false }) (omega arith) v)

  no_rank-Below :
      (t : ℕ) (q : Queue) → t < num_chips net.dims → All (Below 0 t) (contents q) → q.len ≡ 0
  no_rank-Below t q ht a = sym (length-contents q) ∙ ap length (nothing (contents q) a)
    where
      nothing : (xs : List Mc) → All (Below 0 t) xs → xs ≡ []
      nothing [] h = refl
      nothing (x ∷ xs) h = absurd (omega (arith, h.0 ht))

  stops :
      (rounds : ℕ) (s : State)
      → 0 < rounds
      → s.mc_pending ≡ false
      → IsReady s.queues
      → ((t : ℕ) → t < num_chips net.dims → (s.queues t 0).len ≡ 0)
      → IsFlushed net (flush_rounds net fuel rounds s)
  unfolding flush_rounds
  stops zero s lt p v e = absurd (omega arith)
  stops (suc rounds) s lt p v e = record {
    state = s;
    returns = ground arith;
    ready = v;
    idle = p;
    empty = e;
  }

  idle_empty :
      (s : State)
      → s.mc_pending ≡ false
      → Noticed (num_chips net.dims) s.queues s.mc_pending
      → (t : ℕ) → t < num_chips net.dims
      → (s.queues t 0).len ≡ 0
  idle_empty s p n t ht = ground (arith, n t ht)

  flush_rounds-IsFlushed :
      (k rounds : ℕ) (s : State)
      → k + 1 < rounds
      → IsReady s.queues
      → AllQueued (Below k) s.queues
      → Noticed (num_chips net.dims) s.queues s.mc_pending
      → IsFlushed net (flush_rounds net fuel rounds s)
  unfolding flush_rounds
  flush_rounds-IsFlushed k zero s lt v a n = absurd (omega arith)
  flush_rounds-IsFlushed zero (suc rounds) s lt v a n = elim (Bool-cases (s.mc_pending)) [
    | inl more ↦
        let e : ((t : ℕ) → t < num_chips net.dims → (s.queues t 0).len ≡ 0) =
          λ t ht. no_rank-Below t (s.queues t 0) ht (a t) in
        rw (more, flush_rounds)
          (rw (flush_round_empty s v e) (stops rounds _ (omega arith) refl v e))
    | inr idle ↦ stops (suc rounds) s (omega arith) idle v (idle_empty s idle n)
  ]
  flush_rounds-IsFlushed (suc k) (suc rounds) s lt v a n = elim (Bool-cases (s.mc_pending)) [
    | inl more ↦
        let r = flush_round-IsRound k s v a in
        rw (more, flush_rounds)
          (rw (r.returns) (
            flush_rounds-IsFlushed k rounds (r.state) (omega arith) (r.ready) (r.queued)
              (r.noticed)))
    | inr idle ↦ stops (suc rounds) s (omega arith) idle v (idle_empty s idle n)
  ]

-- On a board with the computed link table, where a rank of the packets falls along every link that
-- the routing entries take, and from queues that hold at most 1024 packets, all of them in the
-- queues with index 0 and noticed by `mc_pending`, `flush_mc_queues` ends: with more fuel than a
-- queue has room and than the bound of the ranks it comes back with `mc_pending` lowered and every
-- queue of the board empty.
pub flush_mc_queues-IsFlushed :
    (net : Net) (rank : ℕ → Mc → ℕ) (k fuel : ℕ) (s : State)
    → HasLinks net
    → IsRanked net rank
    → queue_size < fuel
    → k + 1 < fuel
    → IsReady s.queues
    → AllQueued (λ t mc. t < num_chips net.dims → rank t mc < k) s.queues
    → Noticed (num_chips net.dims) s.queues s.mc_pending
    → IsFlushed net (flush_mc_queues net fuel s)
unfolding flush_mc_queues
flush_mc_queues-IsFlushed net rank k fuel s w falls enough lt v a n =
    flush_rounds-IsFlushed net rank w falls fuel enough k fuel s lt v a n
