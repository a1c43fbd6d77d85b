-- ===== src/Core/Ready.antt =====
-- The variables of the barrier that `read_mc` (spin_emu_api.c) keeps from the packets of the barrier.
use spi_nnaker_emulator.Base.{
  ℕ, ◌+◌, ◌<◌, ◌^◌, ◌≡◌, refl, ap, ◌∙◌, arith, List, [], ◌∷◌, map, All, Bool, true, false, ltb,
  ◌==◌, ◌||◌, if◌then◌else◌, u32,
}
use spi_nnaker_emulator.Base.Outcome.{ok, ◌>>=◌}
use spi_nnaker_emulator.McQueue.{Mc}
use spi_nnaker_emulator.Wire.RoundTrip.{IsWord, received}
use spi_nnaker_emulator.Core.Packets.{
  Core, Callbacks, mc_packet_received, go_key, rdygo_key, rdy1_key, rdy2_key,
}
use spi_nnaker_emulator.Events.{is_direct}
use spi_nnaker_emulator.Core.Later.{keep_mc, take_mc-keep_mc}
use spi_nnaker_emulator.Core.Receive.{read_packets}
use spi_nnaker_emulator.Core.Arrivals.{
  packet, arrival, handle_all, All-Fits, read_packets-handle_all,
}

-- How many of the packets have a key.
abbrev pub count : ℕ → List Mc → ℕ
count key [] = 0
count key (mc ∷ mcs) = (if mc.key == key then 1 else 0) + count key mcs

-- The counts and flags of the barrier in `s'` are those of `s` behind the packets `mcs`.
pub record IsCounted (mcs : List Mc) (s s' : Core) : Type 0 where
  pub rdy1 : s'.barrier_rdy1_cnt ≡ u32 (s.barrier_rdy1_cnt + count rdy1_key mcs)
  pub rdy2 : s'.barrier_rdy2_cnt ≡ u32 (s.barrier_rdy2_cnt + count rdy2_key mcs)
  pub go : s'.barrier_go ≡ (s.barrier_go || ltb 0 (count go_key mcs))
  pub rdygo : s'.barrier_rdygo ≡ (s.barrier_rdygo || ltb 0 (count rdygo_key mcs))
  pub mem : s'.mem ≡ s.mem
  pub sent : s'.sent ≡ s.sent

or_later : (b c : Bool) (n : ℕ) → ((b || c) || ltb 0 n) ≡ (b || ltb 0 ((if c then 1 else 0) + n))
or_later b c n = ground arith

module _ (mc : Mc) (s : Core) where
  keep_mc-rdy1 :
      (keep_mc (received mc) s).barrier_rdy1_cnt
      ≡ (if mc.key == rdy1_key then u32 (s.barrier_rdy1_cnt + 1) else s.barrier_rdy1_cnt)
  unfolding keep_mc
  keep_mc-rdy1 = ground arith

  keep_mc-rdy2 :
      (keep_mc (received mc) s).barrier_rdy2_cnt
      ≡ (if mc.key == rdy2_key then u32 (s.barrier_rdy2_cnt + 1) else s.barrier_rdy2_cnt)
  unfolding keep_mc
  keep_mc-rdy2 = ground arith

  keep_mc-go : (keep_mc (received mc) s).barrier_go ≡ (s.barrier_go || (mc.key == go_key))
  unfolding keep_mc
  keep_mc-go = ground arith

  keep_mc-rdygo :
      (keep_mc (received mc) s).barrier_rdygo ≡ (s.barrier_rdygo || (mc.key == rdygo_key))
  unfolding keep_mc
  keep_mc-rdygo = ground arith

  keep_mc-mem : (keep_mc (received mc) s).mem ≡ s.mem
  unfolding keep_mc
  keep_mc-mem = ground arith

  keep_mc-direct :
      is_direct ((keep_mc (received mc) s).events.evinfo mc_packet_received)
      ≡ is_direct (s.events.evinfo mc_packet_received)
  unfolding keep_mc
  keep_mc-direct = ground arith

  keep_mc-sent : (keep_mc (received mc) s).sent ≡ s.sent
  unfolding keep_mc
  keep_mc-sent = ground arith

-- The counts, one packet at a time.
count_step :
    (b : Bool) (n k k' : ℕ)
    → k ≡ (if b then u32 (n + 1) else n)
    → (m : ℕ) → k' ≡ u32 (k + m)
    → k' ≡ u32 (n + ((if b then 1 else 0) + m))
count_step b n k k' e m e' = ground arith

count-lt : (b : Bool) (n k : ℕ) → k ≡ (if b then u32 (n + 1) else n) → n < 2 ^ 32 → k < 2 ^ 32
count-lt b n k e h = ground arith

handle_all-IsCounted :
    (cback : Callbacks) (mcs : List Mc) (s : Core)
    → is_direct (s.events.evinfo mc_packet_received) ≡ false
    → s.barrier_rdy1_cnt < 2 ^ 32
    → s.barrier_rdy2_cnt < 2 ^ 32
    → (s' : Core) × (handle_all cback (map packet mcs) s ≡ ok s') × IsCounted mcs s s'
handle_all-IsCounted cback [] s later h₁ h₂ = (
  s,
  refl,
  record {
    rdy1 = omega arith;
    rdy2 = omega arith;
    go = or_none s.barrier_go;
    rdygo = or_none s.barrier_rdygo;
    mem = refl;
    sent = refl;
  },
)
  where
    or_none : (b : Bool) → b ≡ (b || ltb 0 0)
    or_none true = refl
    or_none false = refl
handle_all-IsCounted cback (mc ∷ mcs) s later h₁ h₂ =
    let t = keep_mc (received mc) s in
    let e₁ = keep_mc-rdy1 mc s in
    let e₂ = keep_mc-rdy2 mc s in
    let (s', run, c) =
      handle_all-IsCounted cback mcs t (keep_mc-direct mc s ∙ later)
        (count-lt (mc.key == rdy1_key) _ _ e₁ h₁) (count-lt (mc.key == rdy2_key) _ _ e₂ h₂) in
    (
      s',
      ap (λ u. ok u >>= handle_all cback (map packet mcs))
            (take_mc-keep_mc cback (received mc) s later)
          ∙ run,
      record {
        rdy1 = count_step (mc.key == rdy1_key) _ _ _ e₁ (count rdy1_key mcs) c.rdy1;
        rdy2 = count_step (mc.key == rdy2_key) _ _ _ e₂ (count rdy2_key mcs) c.rdy2;
        go =
            c.go
            ∙ ap (λ b. b || ltb 0 (count go_key mcs)) (keep_mc-go mc s)
            ∙ or_later s.barrier_go (mc.key == go_key) (count go_key mcs);
        rdygo =
            c.rdygo
            ∙ ap (λ b. b || ltb 0 (count rdygo_key mcs)) (keep_mc-rdygo mc s)
            ∙ or_later s.barrier_rdygo (mc.key == rdygo_key) (count rdygo_key mcs);
        mem = c.mem ∙ keep_mc-mem mc s;
        sent = c.sent ∙ keep_mc-sent mc s;
      },
    )

-- Where the application has no callback for multicast packets or one of a priority above 0, so
-- that none is called within `read_packets`, after `read_packets` of any multicast packets from
-- the dispatcher, of words of 32 bits, a core whose counts are below 2^32 has counted each RDY1
-- and each RDY2 packet, modulo 2^32, and its flag for GO, or for RDYGO, is raised exactly if it
-- was or such a packet came; its memory and what it has sent stay.
pub read_packets-IsCounted :
    (cback : Callbacks) (mcs : List Mc) (s : Core)
    → All IsWord mcs
    → is_direct (s.events.evinfo mc_packet_received) ≡ false
    → s.barrier_rdy1_cnt < 2 ^ 32
    → s.barrier_rdy2_cnt < 2 ^ 32
    → (s' : Core) × (read_packets cback (map arrival (map packet mcs)) s ≡ ok s')
      × IsCounted mcs s s'
read_packets-IsCounted cback mcs s w later h₁ h₂ =
    let (s', run, q) = handle_all-IsCounted cback mcs s later h₁ h₂ in
    (s', read_packets-handle_all cback (map packet mcs) s (All-Fits mcs w) ∙ run, q)
