-- ===== src/Barrier/Wait.antt =====
-- `barrier_wait` and `rts_init` (spin_emu_api.c). The clock and the variables that other threads and
-- processes change are an argument: what each call of `clock` in turn sees. Sleeping and the warning
-- of a barrier that was not met are left out.
use spi_nnaker_emulator.Base.{
  ℕ, zero, suc, ◌+◌, Bool, true, false, not, ◌&&◌, ◌||◌, List, [], ◌∷◌, ◌++◌, Option, none, some,
  ltb, sub32, if◌then◌else◌,
}
use spi_nnaker_emulator.Core.Packets.{go_key, rdygo_key, rdy1_key, rdy2_key}
use spi_nnaker_emulator.Barrier.{Barrier, core_route, barrier_entry}

-- The milliseconds that `clock() / (CLOCKS_PER_SEC / 1000)` answers, and the variables at that time.
pub record Seen : Type 0 where
  pub now : ℕ
  pub rdy1 : ℕ
  pub rdy2 : ℕ
  pub rdygo : Bool
  pub go : Bool
  pub lock : ℕ

abbrev pub View : Type 0
View = ℕ → Seen

abbrev pub rtr_init_lck : ℕ
rtr_init_lck = 0xAD

abbrev pub rdygo_lck : ℕ
rdygo_lck = 0xBE

-- The time limits, in milliseconds.
abbrev pub go_wait : ℕ
go_wait = 50000

abbrev pub rdy2_wait : ℕ
rdy2_wait = 25000

abbrev pub rdygo_wait : ℕ
rdygo_wait = 25000

abbrev pub lock_wait : ℕ
lock_wait = 50000

abbrev pub resend_wait : ℕ
resend_wait = 100

abbrev pub router_init_wait : ℕ
router_init_wait = 5000

-- The loops that only wait, from call `k` of `clock` on: the number of the call behind them.
unfoldable pub wait_while : ℕ → View → ℕ → ℕ → (Seen → Bool) → ℕ → Option ℕ
wait_while zero view start limit waiting k = none
wait_while (suc fuel) view start limit waiting k =
    elim (ltb (sub32 (view k).now start) limit && waiting (view k)) [
      | true ↦ wait_while fuel view start limit waiting (k + 1)
      | false ↦ some (k + 1)
    ]

-- The loop of the root chip's root core, which sends RDYGO again; with the packets sent.
unfoldable pub root_wait : ℕ → View → Barrier → ℕ → ℕ → ℕ → List ℕ → Option (ℕ × List ℕ)
root_wait zero view b start resend k sent = none
root_wait (suc fuel) view b start resend k sent =
    elim (ltb (sub32 (view k).now start) rdy2_wait
      && (ltb (view k).rdy1 b.my_ncores || ltb (view k).rdy2 b.nchips)) [
        | true ↦ elim (ltb resend_wait (sub32 (view (k + 1)).now resend)) [
          | true ↦ root_wait fuel view b start (view (k + 2)).now (k + 3) (sent ++ rdygo_key ∷ [])
          | false ↦ root_wait fuel view b start resend (k + 2) sent
        ]
        | false ↦ some (k + 1, sent)
      ]

-- The keys of the packets that `barrier_wait` sent, in order, the value that it wrote to the lock of
-- the chip, and the calls of `clock`.
pub record Waited : Type 0 where
  pub sent : List ℕ
  pub lock : Option ℕ
  pub calls : ℕ

infixl 5 ◌>>=◌
abbrev pub ◌>>=◌ {ℓ κ} : {A : Type ℓ} {B : Type κ} → Option A → (A → Option B) → Option B
none >>= f = none
some a >>= f = f a

-- The last loop, for the GO packet.
unfoldable pub go_loop : ℕ → View → List ℕ → Option ℕ → ℕ → Option Waited
unfolding wait_while
go_loop fuel view sent lock k =
    wait_while fuel view (view k).now go_wait (λ v. not v.go) (k + 1) >>= λ k'.
    some (record { sent = sent; lock = lock; calls = k' })

-- `barrier_wait`. `none` is the end of the fuel.
unfoldable pub barrier_wait : ℕ → View → Barrier → Option Waited
unfolding wait_while root_wait go_loop
barrier_wait fuel view b =
    let start = (view 0).now in
    if b.root_ap
    then (if b.root_chip
        then (root_wait fuel view b start start 1 (rdygo_key ∷ []) >>= λ r.
            go_loop fuel view (r.1 ++ go_key ∷ []) (some rdygo_lck) (r.0))
        else (wait_while fuel view start rdygo_wait (λ v. ltb v.rdy1 b.my_ncores || not v.rdygo) 1
            >>= λ k. go_loop fuel view (rdy2_key ∷ []) (some rdygo_lck) k))
    else (wait_while fuel view start lock_wait (λ v. ltb v.lock rdygo_lck) 1 >>= λ k.
        go_loop fuel view (rdy1_key ∷ []) none k)

-- What `rts_init` leaves: the variables of the barrier, the value that both counts of ready packets
-- got and the one that the lock got.
pub record Initialised : Type 0 where
  pub barrier : Barrier
  pub counts : Option ℕ
  pub lock : Option ℕ

-- The wait of `rts_init`, where the difference of the times is signed.
unfoldable pub init_wait : ℕ → View → ℕ → ℕ → Option ℕ
init_wait zero view start k = none
init_wait (suc fuel) view start k =
    elim (ltb (view k).now (start + router_init_wait) && ltb (view k).lock rtr_init_lck) [
      | true ↦ init_wait fuel view start (k + 1)
      | false ↦ some (k + 1)
    ]

-- `rts_init` on core `core`, where `locked` is the answer of `lock_try`.
unfoldable pub rts_init : Bool → ℕ → View → ℕ → Barrier → Option Initialised
unfolding core_route init_wait
rts_init locked fuel view core b =
    let b' : Barrier = record b { root_ap = locked } in
    if locked
    then some (record {
      barrier = record b' {
        entries = b'.entries ++ barrier_entry 2 rdy1_key (core_route core) ∷ [];
      };
      counts = some 1;
      lock = some rtr_init_lck;
    })
    else (init_wait fuel view (view 0).now 1 >>= λ k.
        some (record { barrier = b'; counts = none; lock = none }))
