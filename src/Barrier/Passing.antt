-- ===== src/Barrier/Passing.antt =====
-- How `barrier_wait` (spin_emu_api.c) ends.
use spi_nnaker_emulator.Base.{
  ℕ, ◌+◌, ◌<◌, ◌≤◌, ◌≡◌, refl, ap, ◌∙◌, arith, Bool, true, false, not, ◌||◌, List, [], ◌∷◌, ◌++◌,
  Option, none, some, ltb, sub32, if◌then◌else◌, replicate,
}
use spi_nnaker_emulator.Core.Packets.{go_key, rdygo_key, rdy1_key, rdy2_key}
use spi_nnaker_emulator.Barrier.{Barrier}
use spi_nnaker_emulator.Barrier.Loops.{
  Advances, Ended, wait_while-Stops, root_wait-RootStops, go_loop-Goes,
}
use spi_nnaker_emulator.Barrier.Wait.{
  Seen, View, rdygo_lck, go_wait, rdygo_wait, lock_wait, wait_while, Waited, ◌>>=◌, go_loop,
  barrier_wait,
}

-- What the core waits for first, and how long.
abbrev pub first_wait : Barrier → Seen → Bool
first_wait b v =
    if b.root_ap
    then (if b.root_chip
        then ltb v.rdy1 b.my_ncores || ltb v.rdy2 b.nchips
        else ltb v.rdy1 b.my_ncores || not v.rdygo)
    else ltb v.lock rdygo_lck

abbrev pub first_limit : Barrier → ℕ
first_limit b = if b.root_ap then 25000 else lock_wait

-- The packets that the core sends: RDYGO, some times again, and GO from the root chip's root core,
-- RDY2 from the root core of another chip, RDY1 from the other cores.
abbrev pub packets : Barrier → ℕ → List ℕ
packets b times =
    if b.root_ap
    then (if b.root_chip
        then ((rdygo_key ∷ []) ++ replicate times rdygo_key) ++ go_key ∷ []
        else rdy2_key ∷ [])
    else rdy1_key ∷ []

pub record IsPassed (view : View) (b : Barrier) (o : Option Waited) : Type 0 where
  pub times : ℕ
  pub ready : ℕ
  pub end : ℕ
  pub returns :
      o
      ≡ some (record {
        sent = packets b times;
        lock = if b.root_ap then some rdygo_lck else none;
        calls = end + 1;
      })
  pub was_ready : Ended view (view 0).now (first_limit b) (first_wait b) ready
  pub was_released : Ended view (view (ready + 1)).now go_wait (λ v. not v.go) end

module _ (fuel n : ℕ) (view : View) (clock : Advances view n) (enough : n + 3 < fuel) where
  from_start : (i : ℕ) → n ≤ i → i ≤ n + 2 → 50000 ≤ sub32 (view i).now (view 0).now
  from_start i lo hi =
      let same : 0 + i ≡ i = omega arith in rw same at (clock 0 i (omega arith) lo hi)

  after_start : (i : ℕ) → i ≡ 1 + n → 50000 ≤ sub32 (view i).now (view 0).now
  after_start i e = from_start i (omega arith) (omega arith)

  -- A first wait that only waits, and the wait for GO.
  then_go :
      (sent : List ℕ) (lock : Option ℕ) (limit : ℕ) (waiting : Seen → Bool)
      → limit ≤ 50000
      → (e₁ e₂ : ℕ) × ((wait_while fuel view (view 0).now limit waiting 1 >>= λ k.
            go_loop fuel view sent lock k)
          ≡ some (record { sent = sent; lock = lock; calls = e₂ + 1 }))
        × Ended view (view 0).now limit waiting e₁
        × Ended view (view (e₁ + 1)).now go_wait (λ v. not v.go) e₂
  then_go sent lock limit waiting short =
      let s =
        wait_while-Stops fuel n view (view 0).now limit waiting 1
          (omega (arith, after_start (1 + n) refl)) (omega arith) in
      let g =
        go_loop-Goes fuel n view sent lock (s.end + 1) clock (omega (arith, s.in_time))
          (omega arith) in
      (
        s.end,
        g.end,
        ap (λ (o : Option ℕ). o >>= λ k. go_loop fuel view sent lock k) s.returns ∙ g.returns,
        s.because,
        g.because,
      )

  abbrev in_role : Bool → Bool → Barrier → Barrier
  in_role root_ap root_chip b = record b { root_ap = root_ap; root_chip = root_chip }

  passes :
      (root_ap root_chip : Bool) (b : Barrier)
      → IsPassed view
          (in_role root_ap root_chip b)
          (barrier_wait fuel view (in_role root_ap root_chip b))
  unfolding barrier_wait
  passes true true b =
      let r =
        root_wait-RootStops fuel n view (in_role true true b) (view 0).now (view 0).now 1
          (rdygo_key ∷ []) (λ i lo hi. omega (arith, from_start i lo hi)) (omega arith)
          (omega arith) in
      let sent = packets (in_role true true b) r.times in
      let g =
        go_loop-Goes fuel n view sent (some rdygo_lck) (r.end + 1) clock (omega (arith, r.in_time))
          (omega arith) in
      record {
        times = r.times;
        ready = r.end;
        end = g.end;
        returns =
            ap
              (λ (o : Option (ℕ × List ℕ)).
                o >>= λ p. go_loop fuel view (p.1 ++ go_key ∷ []) (some rdygo_lck) (p.0))
              r.returns
            ∙ g.returns;
        was_ready = r.because;
        was_released = g.because;
      }
  passes true false b =
      let (e₁, e₂, returns, ready, released) =
        then_go (rdy2_key ∷ []) (some rdygo_lck) rdygo_wait (first_wait (in_role true false b))
          (omega arith) in
      record {
        times = 0;
        ready = e₁;
        end = e₂;
        returns = returns;
        was_ready = ready;
        was_released = released;
      }
  passes false root_chip b =
      let (e₁, e₂, returns, ready, released) =
        then_go (rdy1_key ∷ []) none lock_wait (first_wait (in_role false root_chip b))
          (omega arith) in
      record {
        times = 0;
        ready = e₁;
        end = e₂;
        returns = returns;
        was_ready = ready;
        was_released = released;
      }

-- If the clock advances by 50 seconds within `n` calls, counted from any of its first calls,
-- `barrier_wait` returns, whatever the other cores do, with fuel above `n` + 3. It sends RDYGO,
-- any number of times again, and GO from the root chip's root core, RDY2 once from the root core
-- of another chip, RDY1 once from another core; a root core raises the lock. It sends the last of
-- these once it has seen what it waits for or its time limit has passed, and returns once it has
-- seen GO or 50 seconds have passed.
pub barrier_wait-IsPassed :
    (fuel n : ℕ) (view : View) (b : Barrier)
    → Advances view n
    → n + 3 < fuel
    → IsPassed view b (barrier_wait fuel view b)
barrier_wait-IsPassed fuel n view b clock enough =
    passes fuel n view clock enough b.root_ap b.root_chip b
