-- ===== src/Sdp/Flush.antt =====
-- `flush_sdp_queues` (spin_emu_dispatcher.c) on the lists of messages that wait for each core.
use spi_nnaker_emulator.Base.{
  ℕ, zero, suc, ◌+◌, ◌<◌, ◌≤◌, ◌≡◌, ◌≢◌, ◌⊎◌, inl, inr, refl, ap, ap₂, ◌∙◌, arith, List, [], ◌++◌,
  Table, update, update_self, update_ne, eq-cases,
}
use spi_nnaker_emulator.Base.Outcome.{ok}
use spi_nnaker_emulator.Grid.{Dims, num_chips, num_cpus}
use spi_nnaker_emulator.Sdp.Store.{Store, flush_cores, flush_chips, flush_sdp_queues, Sent, sent_to}
use spi_nnaker_emulator.Sdp.Chain.{Cell}
use spi_nnaker_emulator.Sdp.Invariant.{IsStore, messages}
use spi_nnaker_emulator.Sdp.FlushOne.{flush_one-IsStore}

-- What the loops send, from the lists of the queues.
abbrev pub core_messages : ℕ → ℕ → ℕ → Table (List Cell) → List Sent
core_messages zero i id cells = []
core_messages (suc n) i id cells =
    sent_to id i (messages (cells id i)) ++ core_messages n (i + 1) id cells

abbrev pub chip_messages : ℕ → ℕ → Table (List Cell) → List Sent
chip_messages zero id cells = []
chip_messages (suc n) id cells = core_messages num_cpus 0 id cells ++ chip_messages n (id + 1) cells

core_messages_ext :
    (n i id : ℕ) (cells cells' : Table (List Cell))
    → ((j : ℕ) → i ≤ j → cells id j ≡ cells' id j)
    → core_messages n i id cells ≡ core_messages n i id cells'
core_messages_ext zero i id cells cells' h = refl
core_messages_ext (suc n) i id cells cells' h =
    ap₂ ◌++◌ (ap (λ l. sent_to id i (messages l)) (h i (omega arith)))
      (core_messages_ext n (i + 1) id cells cells' (λ j p. h j (omega arith)))

chip_messages_ext :
    (n id : ℕ) (cells cells' : Table (List Cell))
    → ((k j : ℕ) → id ≤ k → cells k j ≡ cells' k j)
    → chip_messages n id cells ≡ chip_messages n id cells'
chip_messages_ext zero id cells cells' h = refl
chip_messages_ext (suc n) id cells cells' h =
    ap₂ ◌++◌ (core_messages_ext num_cpus 0 id cells cells' (λ j p. h id j (omega arith)))
      (chip_messages_ext n (id + 1) cells cells' (λ k j p. h k j (omega arith)))

-- After the loop over the cores `i` to `e - 1` of chip `id` those queues are empty and the others
-- are as before.
record Cleared (id i e : ℕ) (cells cells' : Table (List Cell)) : Type 0 where
  emptied : (j : ℕ) → i ≤ j → j < e → cells' id j ≡ []
  kept : (k j : ℕ) → (id ≢ k) ⊎ ((j < i) ⊎ (e ≤ j)) → cells' k j ≡ cells k j

flush_cores-IsStore :
    (n i e id : ℕ) (st : Store) (cells : Table (List Cell))
    → i + n ≡ e
    → IsStore st cells
    → (st' : Store) × (cells' : Table (List Cell)) × (flush_cores n i id st
        ≡ ok (core_messages n i id cells, st'))
      × IsStore st' cells'
      × Cleared id i e cells cells'
unfolding flush_cores
flush_cores-IsStore zero i e id st cells eq v =
    (st, cells, refl, v, record { emptied = λ j p q. absurd (omega arith); kept = λ k j h. refl })
flush_cores-IsStore (suc n) i e id st cells eq v =
    let (st₁, run₁, v₁) = flush_one-IsStore id i st cells v in
    let (st₂, cells₂, run₂, v₂, c₂) =
      flush_cores-IsStore n (i + 1) e id st₁ (update cells id i []) (omega arith) v₁ in
    (
      st₂,
      cells₂,
      rw (run₁, run₂)
          (ap (λ xs. ok (sent_to id i (messages (cells id i)) ++ xs, st₂))
            (core_messages_ext n (i + 1) id (update cells id i []) cells
              (λ j p. update_ne cells id i id j [] (inr (λ x. omega arith))))),
      v₂,
      record {
        emptied = λ j p q. elim (eq-cases i j) [
          | inl same ↦
              c₂.kept id j (inr (inl (omega arith))) ∙ rw (← same) (update_self cells id i [])
          | inr ne ↦ c₂.emptied j (omega arith) q
        ];
        kept = λ k j h. c₂.kept k j (outside k j h) ∙ update_ne cells id i k j [] (apart k j h);
      },
    )
  where
    outside : (k j : ℕ) → (id ≢ k) ⊎ ((j < i) ⊎ (e ≤ j)) → (id ≢ k) ⊎ ((j < i + 1) ⊎ (e ≤ j))
    outside k j (inl ne) = inl ne
    outside k j (inr (inl lt)) = inr (inl (omega arith))
    outside k j (inr (inr le)) = inr (inr le)

    apart : (k j : ℕ) → (id ≢ k) ⊎ ((j < i) ⊎ (e ≤ j)) → (id ≢ k) ⊎ (i ≢ j)
    apart k j (inl ne) = inl ne
    apart k j (inr (inl lt)) = inr (λ x. omega arith)
    apart k j (inr (inr le)) = inr (λ x. omega arith)

flush_chips-IsStore :
    (n id e : ℕ) (st : Store) (cells : Table (List Cell))
    → id + n ≡ e
    → IsStore st cells
    → (st' : Store) × (cells' : Table (List Cell)) × (flush_chips n id st
        ≡ ok (chip_messages n id cells, st'))
      × IsStore st' cells'
      × ((k j : ℕ) → id ≤ k → k < e → j < num_cpus → cells' k j ≡ [])
      × ((k j : ℕ) → (k < id) ⊎ (num_cpus ≤ j) → cells' k j ≡ cells k j)
unfolding flush_chips
flush_chips-IsStore zero id e st cells eq v =
    (st, cells, refl, v, (λ k j p q r. absurd (omega arith)), (λ k j h. refl))
flush_chips-IsStore (suc n) id e st cells eq v =
    let (st₁, cells₁, run₁, v₁, c₁) =
      flush_cores-IsStore num_cpus 0 num_cpus id st cells (omega arith) v in
    let (st₂, cells₂, run₂, v₂, gone, same) =
      flush_chips-IsStore n (id + 1) e st₁ cells₁ (omega arith) v₁ in
    (
      st₂,
      cells₂,
      rw (run₁, run₂)
          (ap (λ xs. ok (core_messages num_cpus 0 id cells ++ xs, st₂))
            (chip_messages_ext n (id + 1) cells₁ cells
              (λ k j p. c₁.kept k j (inl (λ x. omega arith))))),
      v₂,
      (λ k j p q r. elim (eq-cases id k) [
        | inl x ↦ same k j (inl (omega arith)) ∙ rw (← x) (c₁.emptied j (omega arith) r)
        | inr ne ↦ gone k j (omega arith) q r
      ]),
      (λ k j h. same k j (sooner k j h) ∙ c₁.kept k j (beyond k j h)),
    )
  where
    sooner : (k j : ℕ) → (k < id) ⊎ (num_cpus ≤ j) → (k < id + 1) ⊎ (num_cpus ≤ j)
    sooner k j (inl lt) = inl (omega arith)
    sooner k j (inr le) = inr le

    beyond : (k j : ℕ) → (k < id) ⊎ (num_cpus ≤ j) → (id ≢ k) ⊎ ((j < 0) ⊎ (num_cpus ≤ j))
    beyond k j (inl lt) = inl (λ x. omega arith)
    beyond k j (inr le) = inr (inr le)

-- Every queue of the board is empty in `cells'` and no other queue differs from `cells`.
pub record IsFlushed (d : Dims) (cells cells' : Table (List Cell)) : Type 0 where
  pub emptied : (k j : ℕ) → k < num_chips d → j < num_cpus → cells' k j ≡ []
  pub kept : (k j : ℕ) → num_cpus ≤ j → cells' k j ≡ cells k j

-- On a store that holds the lists `cells`, `flush_sdp_queues` ends without a fault: it sends the
-- messages of each core of each chip, chip by chip, core by core and oldest first, leaves every
-- queue of the board empty and no queue with a core number from 8 on changed.
pub flush_sdp_queues-IsStore :
    (d : Dims) (st : Store) (cells : Table (List Cell))
    → IsStore st cells
    → (st' : Store) × (cells' : Table (List Cell)) × (flush_sdp_queues d st
        ≡ ok (chip_messages (num_chips d) 0 cells, st'))
      × IsStore st' cells'
      × IsFlushed d cells cells'
unfolding flush_sdp_queues
flush_sdp_queues-IsStore d st cells v =
    let (st', cells', run, v', gone, same) =
      flush_chips-IsStore (num_chips d) 0 (num_chips d) st cells (omega arith) v in
    (
      st',
      cells',
      run,
      v',
      record { emptied = λ k j p q. gone k j (omega arith) p q; kept = λ k j p. same k j (inr p) },
    )
