-- ===== src/Sdp/FlushOne.antt =====
-- The flushing of one queue in `flush_sdp_queues` (spin_emu_dispatcher.c).
use spi_nnaker_emulator.Base.{
  ℕ, ◌<◌, ◌≡◌, ◌≢◌, ◌⊎◌, inl, inr, sym, ap, ◌∙◌, arith, List, [], All, All-map, Table, update,
  update_self, update_ne, pair-cases,
}
use spi_nnaker_emulator.Base.Outcome.{ok}
use spi_nnaker_emulator.Sdp.Store.{Store, flush_from, flush_one}
use spi_nnaker_emulator.Sdp.Chain.{Cell, Nodes, length-lt, Chain-frame, flush_from-Chain}
use spi_nnaker_emulator.Sdp.Invariant.{Owned, IsStore, messages}

-- On a store that holds the lists `cells`, flushing one queue sends its messages, oldest first,
-- and empties it; the other lists stay as they are, and the store is well formed again.
pub flush_one-IsStore :
    (id c : ℕ) (st : Store) (cells : Table (List Cell))
    → IsStore st cells
    → (st' : Store) × (flush_one id c st ≡ ok (messages (cells id c), st'))
      × IsStore st' (update cells id c [])
unfolding flush_one
flush_one-IsStore id c st cells v = (
  record {
    nodes = run.0;
    fresh = st.fresh;
    head = update st.head id c 0;
    tail = update st.tail id c 0;
  },
  rw (run.1),
  record {
    owner = v.owner;
    started = v.started;
    chains = λ id' c'. elim (pair-cases id c id' c') [
      | inl (e, e') ↦ rw (← e, ← e') (rw (update_self cells id c []) (update_self st.head id c 0))
      | inr ne ↦
          rw (update_ne cells id c id' c' [] ne, update_ne st.head id c id' c' 0 ne)
            (Chain-frame st.nodes (run.0) 0 (st.head id' c') (cells id' c')
              (All-map _ _ (cells id' c') (kept id' c' ne) (v.owned id' c')) (v.chains id' c'))
    ];
    tails = λ id' c'. elim (pair-cases id c id' c') [
      | inl (e, e') ↦ rw (← e, ← e') (rw (update_self cells id c []) (update_self st.tail id c 0))
      | inr ne ↦
          rw (update_ne cells id c id' c' [] ne, update_ne st.tail id c id' c' 0 ne)
            (v.tails id' c')
    ];
    owned = λ id' c'. elim (pair-cases id c id' c') [
      | inl (e, e') ↦ rw (← e, ← e') (rw (update_self cells id c []) tt)
      | inr ne ↦ rw (update_ne cells id c id' c' [] ne) (v.owned id' c')
    ];
  },
)
  where
    below : All (λ e. e.0 < st.fresh) (cells id c)
    below = All-map _ _ (cells id c) (λ _ o. o.0) (v.owned id c)

    run :
        (nodes' : Nodes) × (flush_from st.fresh (st.head id c) st.nodes
          ≡ ok (messages (cells id c), nodes'))
        × ((a : ℕ) → All (λ e. e.0 ≢ a) (cells id c) → nodes' a ≡ st.nodes a)
    run = flush_from-Chain (cells id c) st.nodes 0 (st.head id c) st.fresh (v.chains id c) (
        omega (
          arith,
          length-lt st.nodes 0 (st.head id c) st.fresh (cells id c) (v.chains id c) below
              (v.started),
        ))

    kept :
        (id' c' : ℕ)
        → (id ≢ id') ⊎ (c ≢ c')
        → (e : Cell) → Owned st.fresh v.owner id' c' e
        → run.0 (e.0) ≡ st.nodes (e.0)
    kept id' c' ne e o =
        run.2 (e.0) (All-map _ _ (cells id c) (λ d o'. differs d (o'.1) ne) (v.owned id c))
      where
        differs : (d : Cell) → v.owner (d.0) ≡ (id, c) → (id ≢ id') ⊎ (c ≢ c') → d.0 ≢ e.0
        differs d o' (inl ne') x = ne' (ap (λ (y : ℕ × ℕ). y.0) (sym o' ∙ ap v.owner x ∙ o.1))
        differs d o' (inr ne') x = ne' (ap (λ (y : ℕ × ℕ). y.1) (sym o' ∙ ap v.owner x ∙ o.1))
