-- ===== src/Router/Wave.antt =====
-- A packet on its way along a tree of chips in `flush_mc_queues` (spin_emu_dispatcher.c): no chip gets
-- it twice, and in the end every chip has got it.
use spi_nnaker_emulator.Base.{
  ℕ, zero, suc, ◌+◌, ◌<◌, ◌≤◌, ◌≡◌, ◌≢◌, inl, inr, arith, eq-cases, has_bit, List, ◌++◌, All,
  if◌then◌else◌, replicate,
}
use spi_nnaker_emulator.Grid.{num_links, num_cpus, num_chips}
use spi_nnaker_emulator.McQueue.{Mc, contents}
use spi_nnaker_emulator.Wire.{Route, send_mc}
use spi_nnaker_emulator.Router.{Net, State, Datagram}
use spi_nnaker_emulator.Router.Forward.{HasLinks}
use spi_nnaker_emulator.Router.Keep.{IsReady}
use spi_nnaker_emulator.Router.Broadcast.{count, IsTree}

-- `d` carries `g` to a core of the board.
abbrev pub Carries : Net → Mc → Datagram → Type 0
Carries net g d = (d.chip < num_chips net.dims) × (d.core < num_cpus) × (d.bytes ≡ send_mc g)

module _ (net : Net) (g : Mc) (root : ℕ) (par : ℕ → ℕ) (entry : ℕ → Route)
    (t : IsTree net g root par entry) (w : HasLinks net) (base : List Datagram) where
  -- How often the packet waits on a chip, and how often it was routed there.
  pub record IsWave (s : State) (q r : ℕ → ℕ) : Type 0 where
    pub news : List Datagram
    pub ready : IsReady s.queues
    pub queued : (c : ℕ) → c < num_chips net.dims → contents (s.queues c 0) ≡ replicate (q c) g
    pub start : q root + r root ≡ 1
    pub flow : (c : ℕ) → c < num_chips net.dims → c ≢ root → q c + r c ≡ r (par c)
    pub sent : s.sent ≡ base ++ news
    pub counts :
        (c i : ℕ)
        → c < num_chips net.dims
        → i < num_cpus
        → count c i news ≡ (if has_bit (entry c).route (i + num_links) then r c else 0)
    pub carried : All (Carries net g) news

  -- No chip gets the packet more than once.
  pub at_most :
      (n c : ℕ) (q r : ℕ → ℕ)
      → q root + r root ≡ 1
      → ((c : ℕ) → c < num_chips net.dims → c ≢ root → q c + r c ≡ r (par c))
      → c < num_chips net.dims
      → t.depth c < n
      → q c + r c ≤ 1
  at_most zero c q r start flow h lt = absurd (omega arith)
  at_most (suc n) c q r start flow h lt = elim (eq-cases c root) [
    | inl e ↦ rw e (omega (arith, start))
    | inr ne ↦
        let above = (t.linked c h ne).0 in
        omega (
          arith,
          flow c h ne,
          t.deeper c h ne,
          at_most n (par c) q r start flow above (omega (arith, t.deeper c h ne)),
        )
  ]

  -- Where nothing waits any more, every chip has got it.
  pub exactly :
      (n c : ℕ) (q r : ℕ → ℕ)
      → q root + r root ≡ 1
      → ((c : ℕ) → c < num_chips net.dims → c ≢ root → q c + r c ≡ r (par c))
      → ((c : ℕ) → c < num_chips net.dims → q c ≡ 0)
      → c < num_chips net.dims
      → t.depth c < n
      → r c ≡ 1
  exactly zero c q r start flow none_left h lt = absurd (omega arith)
  exactly (suc n) c q r start flow none_left h lt = elim (eq-cases c root) [
    | inl e ↦ rw e (omega (arith, start, none_left root t.is_root))
    | inr ne ↦
        let above = (t.linked c h ne).0 in
        omega (
          arith,
          flow c h ne,
          none_left c h,
          exactly n (par c) q r start flow none_left above (omega (arith, t.deeper c h ne)),
        )
  ]
