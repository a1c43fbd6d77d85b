-- ===== src/Router/Reached.antt =====
-- A packet that `flush_mc_queues` (spin_emu_dispatcher.c) sends along a tree of chips reaches each of
-- them.
use spi_nnaker_emulator.Base.{
  ℕ, zero, suc, ◌+◌, ◌<◌, ◌≡◌, refl, ap, ◌∙◌, sym, arith, true, false, Bool, has_bit, List, [], ◌∷◌,
  ◌++◌, All, if◌then◌else◌, ◌==◌, length, replicate, append-nil, ==_ne, some,
}
use spi_nnaker_emulator.Grid.{num_links, num_cpus, num_chips}
use spi_nnaker_emulator.McQueue.{Mc, contents}
use spi_nnaker_emulator.McQueue.Fifo.{length-contents}
use spi_nnaker_emulator.Wire.{Route}
use spi_nnaker_emulator.Router.{Net, State, Datagram, flush_mc_queues}
use spi_nnaker_emulator.Router.Forward.{HasLinks}
use spi_nnaker_emulator.Router.Keep.{IsReady}
use spi_nnaker_emulator.Router.Kept.{flush_mc_queues-Keeps}
use spi_nnaker_emulator.Router.Broadcast.{count, IsTree}
use spi_nnaker_emulator.Router.Wave.{Carries, IsWave, exactly}
use spi_nnaker_emulator.Router.WaveStep.{route_next-IsWave}

module _ (net : Net) (g : Mc) (root : ℕ) (par : ℕ → ℕ) (entry : ℕ → Route)
    (t : IsTree net g root par entry) (w : HasLinks net) (base : List Datagram) where
  abbrev Wave : State → Type 0
  Wave s = (q : ℕ → ℕ) × (r : ℕ → ℕ) × IsWave net g root par entry t w base s q r

  lowered-Wave : (s : State) → Wave s → Wave (record s { mc_pending = false })
  lowered-Wave s (q, r, v) = (
    q,
    r,
    record {
      news = v.news;
      ready = v.ready;
      queued = v.queued;
      start = v.start;
      flow = v.flow;
      sent = v.sent;
      counts = v.counts;
      carried = v.carried;
    },
  )

  -- The flush of a state in which only the packet waits, once, on the root.
  flushed-Wave : (fuel : ℕ) (s s' : State) → Wave s → flush_mc_queues net fuel s ≡ some s' → Wave s'
  flushed-Wave fuel s s' v e =
      flush_mc_queues-Keeps net Wave lowered-Wave
        (λ chip s h pos v.
          (_, _, route_next-IsWave net g root par entry t w base chip s (v.0) (v.1) h pos (v.2)))
        (λ chip core s ne pos v. absurd (omega (arith, v.2.ready.quiet chip core ne))) fuel s s' v e

  -- Each core in the entry of its chip got the packet once, and nothing else was sent.
  pub record IsBroadcast (news : List Datagram) : Type 0 where
    pub once :
        (c i : ℕ)
        → c < num_chips net.dims
        → i < num_cpus
        → count c i news ≡ (if has_bit (entry c).route (i + num_links) then 1 else 0)
    pub carried : All (Carries net g) news

  pub broadcast :
      (fuel : ℕ) (s s' : State)
      → IsReady s.queues
      → s.sent ≡ base
      → ((c : ℕ)
          → c < num_chips net.dims
          → contents (s.queues c 0) ≡ (if c == root then g ∷ [] else []))
      → flush_mc_queues net fuel s ≡ some s'
      → ((c : ℕ) → c < num_chips net.dims → (s'.queues c 0).len ≡ 0)
      → (news : List Datagram) × (s'.sent ≡ base ++ news) × IsBroadcast news
  broadcast fuel s s' ready sent alone e none_left =
      let (q, r, v) = flushed-Wave fuel s s' (start_wave s ready sent alone) e in
      let gone : ((c : ℕ) → c < num_chips net.dims → q c ≡ 0) = λ c hc.
        sym (length-replicate (q c))
        ∙ ap length (sym (v.queued c hc))
        ∙ length-contents (s'.queues c 0)
        ∙ none_left c hc in
      (
        v.news,
        v.sent,
        record {
          once = λ c i hc hi.
              v.counts c i hc hi
              ∙ ap (λ n. if has_bit (entry c).route (i + num_links) then n else 0)
                  (exactly net g root par entry t w base (suc (t.depth c)) c q r v.start v.flow gone
                    hc (omega arith));
          carried = v.carried;
        },
      )
    where
      length-replicate : (n : ℕ) → length (replicate n g) ≡ n
      length-replicate zero = refl
      length-replicate (suc n) = ap suc (length-replicate n)

      start_wave :
          (s : State)
          → IsReady s.queues
          → s.sent ≡ base
          → ((c : ℕ)
              → c < num_chips net.dims
              → contents (s.queues c 0) ≡ (if c == root then g ∷ [] else []))
          → Wave s
      start_wave s ready sent alone = (
        λ c. if c == root then 1 else 0,
        λ c. 0,
        record {
          news = [];
          ready = ready;
          queued = λ c hc. alone c hc ∙ as_replicate (c == root);
          start = ground arith;
          flow = λ c hc ne. rw (==_ne c root ne) refl;
          sent = sent ∙ sym (append-nil base);
          counts = λ c i hc hi. nothing (has_bit (entry c).route (i + num_links));
          carried = tt;
        },
      )
        where
          as_replicate : (b : Bool) → (if b then g ∷ [] else []) ≡ replicate (if b then 1 else 0) g
          as_replicate true = refl
          as_replicate false = refl

          nothing : (b : Bool) → ◌≡◌ {A = ℕ} 0 (if b then 0 else 0)
          nothing true = refl
          nothing false = refl
