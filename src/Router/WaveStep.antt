-- ===== src/Router/WaveStep.antt =====
-- A step of a packet along a tree of chips (`route_one_mc_queue`, spin_emu_dispatcher.c).
use spi_nnaker_emulator.Base.{
  ℕ, zero, suc, ◌+◌, ◌<◌, ◌≤◌, ◌≡◌, ◌≢◌, ◌⊎◌, inl, inr, refl, ap, ap₂, ◌∙◌, sym, arith, true, false,
  Bool, Bool-cases, eq-cases, has_bit, List, ◌∷◌, ◌++◌, All, All-append, if◌then◌else◌, ◌==◌, put,
  put_self, put_ne, replicate, append_assoc, ==_ne, ==_refl,
}
use spi_nnaker_emulator.Grid.{num_links, num_cpus, num_chips}
use spi_nnaker_emulator.McQueue.{Mc, contents, front, advance}
use spi_nnaker_emulator.McQueue.Fifo.{enqueue, contents-advance}
use spi_nnaker_emulator.Wire.{Route}
use spi_nnaker_emulator.Router.{Net, State, Datagram, route_next}
use spi_nnaker_emulator.Router.Forward.{HasLinks, core_datagrams}
use spi_nnaker_emulator.Router.Drain.{route_next_self, route_next-IsReady}
use spi_nnaker_emulator.Router.Broadcast.{
  count, count-append, count_other, count_hit, IsTree, route_next_sent, route_next_below,
  route_next_beside,
}
use spi_nnaker_emulator.Router.Wave.{Carries, IsWave, at_most}

uncons-replicate :
    (x g : Mc) (xs : List Mc) (n : ℕ)
    → x ∷ xs ≡ replicate n g
    → (m : ℕ) × (n ≡ suc m) × (x ≡ g) × (xs ≡ replicate m g)
uncons-replicate x g xs zero e = absurd (cc)
uncons-replicate x g xs (suc m) e = (m, refl, cc, cc)

-- The numbers of waiting and routed packets behind a step on `chip`.
abbrev waits_after : ℕ → ℕ → (ℕ → ℕ) → (ℕ → ℕ) → ℕ → ℕ
waits_after root chip par q c =
    if chip == c then 0 else if c == root then q c else if par c == chip then 1 else q c

core_datagrams-Carries :
    (net : Net) (chip : ℕ) (r : Route) (g : Mc)
    → chip < num_chips net.dims
    → (n i : ℕ) → i + n ≤ num_cpus
    → All (Carries net g) (core_datagrams net chip r g n i)
core_datagrams-Carries net chip r g h zero i le = tt
core_datagrams-Carries net chip r g h (suc n) i le =
    let later = core_datagrams-Carries net chip r g h n (i + 1) (omega arith) in
    elim (Bool-cases (has_bit r.route (i + num_links))) [
      | inl bit ↦ rw bit ((h, omega arith, refl), later)
      | inr off ↦ rw off later
    ]

add_if :
    (b : Bool) {x y n n' : ℕ}
    → x ≡ (if b then n else 0)
    → y ≡ (if b then 1 else 0)
    → n ≡ 0
    → n' ≡ 1
    → x + y ≡ (if b then n' else 0)
add_if true e e' z o = omega arith
add_if false e e' z o = omega arith

module _ (net : Net) (g : Mc) (root : ℕ) (par : ℕ → ℕ) (entry : ℕ → Route)
    (t : IsTree net g root par entry) (w : HasLinks net) (base : List Datagram) where
  -- The step on `chip`, where one packet waits that has not been routed there.
  module _ (chip : ℕ) (s : State) (q r : ℕ → ℕ) (h : chip < num_chips net.dims)
      (pos : 0 < (s.queues chip 0).len) (v : IsWave net g root par entry t w base s q r) where
    first :
        (m : ℕ) × (q chip ≡ suc m)
        × (front (s.queues chip 0) ≡ g)
        × (contents (advance (s.queues chip 0)) ≡ replicate m g)
    first =
        uncons-replicate (front (s.queues chip 0)) g (contents (advance (s.queues chip 0))) (q chip)
          (sym (contents-advance (s.queues chip 0) pos) ∙ v.queued chip h)

    fresh : (first.0 ≡ 0) × (r chip ≡ 0)
    fresh =
        let bound =
          at_most net g root par entry t w base (suc (t.depth chip)) chip q r v.start v.flow h
            (omega arith) in
        (omega (arith, first.1, bound), omega (arith, first.1, bound))

    below_empty : (c : ℕ) → c < num_chips net.dims → c ≢ root → par c ≡ chip → (q c ≡ 0) × (r c ≡ 0)
    below_empty c hc inner up =
        let none_yet : q c + r c ≡ 0 = v.flow c hc inner ∙ ap r up ∙ fresh.1 in
        (omega (arith, none_yet), omega (arith, none_yet))

    abbrev q' : ℕ → ℕ
    q' = waits_after root chip par q

    abbrev r' : ℕ → ℕ
    r' = put r chip 1

    -- How a chip stands to `chip`, with the number of packets that wait on it behind the step.
    data Place (c : ℕ) : Type 0 where
      itself : c ≡ chip → q' c ≡ 0 → Place c
      below : chip ≢ c → c ≢ root → par c ≡ chip → q' c ≡ 1 → Place c
      beside : chip ≢ c → (c ≡ root) ⊎ (par c ≢ chip) → q' c ≡ q c → Place c

    place : (c : ℕ) → Place c
    place c = elim (eq-cases chip c) [
      | inl e ↦ itself (sym e) (rw (← e, ==_refl chip) refl)
      | inr ne ↦ elim (eq-cases c root) [
        | inl e ↦ beside ne (inl e) (ground arith)
        | inr inner ↦ elim (eq-cases (par c) chip) [
          | inl up ↦
              below ne inner up (rw (==_ne chip c ne, ==_ne c root inner, up, ==_refl chip) refl)
          | inr off ↦
              beside ne (inr off)
                (rw (==_ne chip c ne, ==_ne c root inner, ==_ne (par c) chip off) refl)
        ]
      ]
    ]

    queued_after :
        (c : ℕ)
        → c < num_chips net.dims
        → contents ((route_next net chip s).queues c 0) ≡ replicate (q' c) g
    queued_after c hc = elim (place c) [
      | itself e z ↦
          rw (e) (ap contents (route_next_self net chip w h s) ∙ (first.3))
          ∙ ap (λ n. replicate n g) (fresh.0 ∙ sym z)
      | below ne inner up one ↦
          route_next_below net g root par entry t w chip h s c (first.2) ne hc inner up
          ∙ ap (λ xs. enqueue xs g)
              (v.queued c hc ∙ ap (λ n. replicate n g) ((below_empty c hc inner up).0))
          ∙ ap (λ n. replicate n g) (sym one)
      | beside ne away same ↦
          route_next_beside net g root par entry t w chip h s c (first.2) ne away
          ∙ v.queued c hc
          ∙ ap (λ n. replicate n g) (sym same)
    ]

    routed_self : r' chip ≡ 1
    routed_self = put_self r chip 1

    routed_other : (c : ℕ) → chip ≢ c → r' c ≡ r c
    routed_other c ne = put_ne r chip c 1 ne

    start_after : q' root + r' root ≡ 1
    start_after = elim (place root) [
      | itself e z ↦ omega (arith, z, ap r' e ∙ routed_self)
      | below ne inner up one ↦ absurd (inner refl)
      | beside ne away same ↦ omega (arith, same, routed_other root ne, v.start)
    ]

    not_own_parent : (c : ℕ) → c < num_chips net.dims → c ≢ root → c ≡ chip → chip ≢ par c
    not_own_parent c hc inner e own =
        omega (arith, t.deeper c hc inner, ap t.depth (sym own ∙ sym e))

    flow_after : (c : ℕ) → c < num_chips net.dims → c ≢ root → q' c + r' c ≡ r' (par c)
    flow_after c hc inner = elim (place c) [
      | itself e z ↦
          let one : q c + r c ≡ 1 =
            ap₂ ◌+◌ (ap q e ∙ first.1 ∙ ap suc (fresh.0)) (ap r e ∙ fresh.1) in
          omega (
            arith,
            z,
            one,
            ap r' e ∙ routed_self,
            v.flow c hc inner,
            routed_other (par c) (not_own_parent c hc inner e),
          )
      | below ne inner' up one ↦
          omega
            (arith, one, routed_other c ne, (below_empty c hc inner up).1, ap r' up ∙ routed_self)
      | beside ne (inl top) same ↦ absurd (inner top)
      | beside ne (inr off) same ↦ omega (
        arith,
        same,
        routed_other c ne,
        v.flow c hc inner,
        routed_other (par c) (λ e. off (sym e)),
      )
    ]

    abbrev new : List Datagram
    new = core_datagrams net chip (entry chip) g num_cpus 0

    counts_after :
        (c i : ℕ)
        → c < num_chips net.dims
        → i < num_cpus
        → count c i (v.news ++ new) ≡ (if has_bit (entry c).route (i + num_links) then r' c else 0)
    counts_after c i hc hi = count-append c i v.news new ∙ elim (eq-cases chip c) [
      | inl e ↦ rw (← e) (
          add_if (has_bit (entry chip).route (i + num_links)) (v.counts chip i h hi)
            (count_hit net chip (entry chip) g num_cpus 0 i (omega arith) hi) (fresh.1) routed_self)
      | inr ne ↦
          omega (arith, count_other net chip (entry chip) g num_cpus 0 c i ne, v.counts c i hc hi)
          ∙ ap (λ n. if has_bit (entry c).route (i + num_links) then n else 0)
              (sym (routed_other c ne))
    ]

    pub route_next-IsWave : IsWave net g root par entry t w base (route_next net chip s) q' r'
    route_next-IsWave = record {
      news = v.news ++ new;
      ready = route_next-IsReady net chip w h s v.ready;
      queued = queued_after;
      start = start_after;
      flow = flow_after;
      sent =
          route_next_sent net g root par entry t w chip h s (first.2)
          ∙ ap (λ l. l ++ new) v.sent
          ∙ append_assoc base v.news new;
      counts = counts_after;
      carried =
          All-append (Carries net g) v.news new v.carried
            (core_datagrams-Carries net chip (entry chip) g h num_cpus 0 (omega arith));
    }
