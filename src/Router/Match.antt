-- ===== src/Router/Match.antt =====
-- The search of `route_mc` for the entry that decides on a packet (spin_emu_dispatcher.c).
use spi_nnaker_emulator.Base.{
  ℕ, zero, suc, ◌+◌, ◌<◌, ◌≤◌, ◌≡◌, ◌⊎◌, inl, inr, refl, arith, true, Bool-cases, eq-cases,
}
use spi_nnaker_emulator.McQueue.{Mc}
use spi_nnaker_emulator.Wire.{num_routes}
use spi_nnaker_emulator.Router.{Net, State, matches, forward, route_from, route_mc}

module _ (net : Net) (chip : ℕ) (mc : Mc) where
  -- Entry `i` of the chip's table matches the packet.
  abbrev pub Matches : ℕ → Type 0
  Matches i = matches (net.routes chip i) mc ≡ true

  -- From entry `i` on, entry `k` is the first that matches.
  pub record IsFirst (i k : ℕ) : Type 0 where
    pub from : i ≤ k
    pub hit : Matches k
    pub before : (j : ℕ) → i ≤ j → j < k → ¬ (Matches j)

  from_next : {i k : ℕ} → ¬ (Matches i) → IsFirst (i + 1) k → IsFirst i k
  from_next {i} {k} miss f = record {
    from = omega (arith, f.from);
    hit = f.hit;
    before = λ j p q. elim (eq-cases i j) [
      | inl e ↦ rw (← e) miss
      | inr ne ↦ f.before j (omega arith) q
    ];
  }

  miss_next :
      {i e : ℕ}
      → ¬ (Matches i)
      → ((j : ℕ) → i + 1 ≤ j → j < e → ¬ (Matches j))
      → (j : ℕ) → i ≤ j
      → j < e
      → ¬ (Matches j)
  miss_next {i} miss later j p q = elim (eq-cases i j) [
    | inl e ↦ rw (← e) miss
    | inr ne ↦ later j (omega arith) q
  ]

  route_from_cases :
      (n i e : ℕ) (s : State)
      → i + n ≡ e
      → ((k : ℕ) × (k < e)
          × IsFirst i k
          × (route_from net n i chip mc s ≡ forward net chip (net.routes chip k) mc s))
        ⊎ (((j : ℕ) → i ≤ j → j < e → ¬ (Matches j)) × (route_from net n i chip mc s ≡ s))
  unfolding route_from
  route_from_cases zero i e s eq = inr ((λ j p q. absurd (omega arith)), refl)
  route_from_cases (suc n) i e s eq = elim (Bool-cases (matches (net.routes chip i) mc)) [
    | inl hit ↦ inl (
      i,
      omega arith,
      record { from = omega arith; hit = hit; before = λ j p q. absurd (omega arith) },
      ground arith,
    )
    | inr miss ↦ elim (route_from_cases n (i + 1) e s (omega arith)) [
      | inl (k, lt, first, eq') ↦ inl (k, lt, from_next (λ h. cc) first, ground arith)
      | inr (none_hits, eq') ↦ inr (miss_next (λ h. cc) none_hits, ground arith)
    ]
  ]

  -- No entry of the chip's table matches.
  abbrev pub NoneMatches : Type 0
  NoneMatches = (j : ℕ) → 0 ≤ j → j < num_routes → ¬ (Matches j)

  -- Either an entry below 1024 is the first that matches the packet, and `route_mc` forwards by
  -- that entry; or no entry matches, and `route_mc` drops the packet and changes nothing.
  pub route_mc_cases :
      (s : State)
      → ((k : ℕ) × (k < num_routes)
          × IsFirst 0 k
          × (route_mc net chip mc s ≡ forward net chip (net.routes chip k) mc s))
        ⊎ (NoneMatches × (route_mc net chip mc s ≡ s))
  unfolding route_mc
  route_mc_cases s = route_from_cases num_routes 0 num_routes s (omega arith)
