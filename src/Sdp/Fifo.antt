-- ===== src/Sdp/Fifo.antt =====
-- `queue_sdp_xy` (spin_emu_dispatcher.c) on the lists of messages that wait for each core.
use spi_nnaker_emulator.Base.{
  ℕ, ◌+◌, ◌<◌, ◌≡◌, ◌≢◌, refl, sym, ap, ◌∙◌, arith, List, [], ◌∷◌, ◌++◌, some, put, put_self,
  put_ne, All, All-map, Table, update, update_self, update_ne, ==_ne,
}
use spi_nnaker_emulator.Base.Outcome.{ok}
use spi_nnaker_emulator.Sdp.Message.{Msg}
use spi_nnaker_emulator.Sdp.Store.{Node, Store, set_next, queue_sdp_xy}
use spi_nnaker_emulator.Sdp.Chain.{
  Cell, Nodes, Chain, last_address, last_address-pos, All-last, last_node, Chain-snoc,
}
use spi_nnaker_emulator.Sdp.Invariant.{Owned, IsStore, longer-IsStore}

module _ (msg : Msg) (id c : ℕ) (st : Store) where
  abbrev fresh_node : Nodes
  fresh_node = put st.nodes st.fresh (some (record { msg = msg; next = 0 }))

  abbrev store_first : Store
  store_first = record {
    nodes = fresh_node;
    fresh = st.fresh + 1;
    head = update st.head id c st.fresh;
    tail = update st.tail id c st.fresh;
  }

  abbrev nodes_linked : Node → Nodes
  nodes_linked n = put fresh_node (st.tail id c) (some (record n { next = st.fresh }))

  abbrev store_linked : Node → Store
  store_linked n = record {
    nodes = nodes_linked n;
    fresh = st.fresh + 1;
    head = st.head;
    tail = update st.tail id c st.fresh;
  }

  queue_sdp_xy_first : st.tail id c ≡ 0 → queue_sdp_xy msg id c st ≡ ok store_first
  unfolding queue_sdp_xy
  queue_sdp_xy_first e = ground arith

  queue_sdp_xy_linked :
      (n : Node)
      → st.tail id c ≢ 0
      → fresh_node (st.tail id c) ≡ some n
      → queue_sdp_xy msg id c st ≡ ok (store_linked n)
  unfolding queue_sdp_xy
  queue_sdp_xy_linked n ne e = rw (==_ne (st.tail id c) 0 ne, set_next, e)

-- On a store that holds the lists `cells`, `queue_sdp_xy` never fails: it appends the message to
-- the list of its core and leaves every other list as it is, and the store is well formed again.
pub queue_sdp_xy-IsStore :
    (msg : Msg) (id c : ℕ) (st : Store) (cells : Table (List Cell))
    → IsStore st cells
    → (st' : Store) × (queue_sdp_xy msg id c st ≡ ok st')
      × IsStore st' (update cells id c (cells id c ++ (st.fresh, msg) ∷ []))
queue_sdp_xy-IsStore msg id c st cells v = by_list (cells id c) refl
  where
    by_list :
        (l : List Cell)
        → cells id c ≡ l
        → (st' : Store) × (queue_sdp_xy msg id c st ≡ ok st')
          × IsStore st' (update cells id c (cells id c ++ (st.fresh, msg) ∷ []))
    by_list [] e = (
      store_first msg id c st,
      queue_sdp_xy_first msg id c st (v.tails id c ∙ ap last_address e),
      longer-IsStore st cells v msg id c (fresh_node msg id c st) (update st.head id c st.fresh)
          (λ a lt ne. put_ne st.nodes st.fresh a _ (λ x. omega arith))
          (λ id' c' ne. update_ne st.head id c id' c' st.fresh ne)
          (rw e
            (0, update_self st.head id c st.fresh, v.started, put_self st.nodes st.fresh _, refl)),
    )
    by_list (d ∷ l) e =
        let chain : Chain st.nodes 0 (st.head id c) (d ∷ l) = rw e at (v.chains id c) in
        let owned : All (Owned st.fresh v.owner id c) (d ∷ l) = rw e at (v.owned id c) in
        let last : st.tail id c ≡ last_address (d ∷ l) = v.tails id c ∙ ap last_address e in
        let (n, at_last) = last_node st.nodes 0 (st.head id c) d l chain in
        let (below, mine) = All-last (λ a. (a < st.fresh) × (v.owner a ≡ (id, c))) d l owned in
        (
          store_linked msg id c st n,
          queue_sdp_xy_linked msg id c st n
              (λ x. last_address-pos st.nodes (st.head id c) d l chain (sym last ∙ x))
              (put_ne st.nodes st.fresh (st.tail id c) _ (λ x. omega (arith, below, last))
                ∙ ap st.nodes last
                ∙ at_last),
          longer-IsStore st cells v msg id c (nodes_linked msg id c st n) st.head
              (λ a lt ne.
                put_ne (fresh_node msg id c st) (st.tail id c) a _
                  (λ x. ne (ap v.owner (sym x ∙ last) ∙ mine))
                ∙ put_ne st.nodes st.fresh a _ (λ x. omega arith))
              (λ id' c' ne. refl)
              (rw (last, e)
                (Chain-snoc st.nodes 0 (st.head id c) st.fresh d l msg n chain
                  (All-map _ _ (d ∷ l) (λ _ o. o.0) owned) at_last)),
        )
