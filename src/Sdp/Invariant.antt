-- ===== src/Sdp/Invariant.antt =====
-- The invariant of `sdp_queue` and `sdp_queue_tail` (spin_emu_dispatcher.c).
use spi_nnaker_emulator.Base.{
  ℕ, ◌+◌, ◌<◌, ◌≡◌, ◌≢◌, ◌⊎◌, inl, inr, sym, ap, ◌∙◌, arith, List, [], ◌∷◌, ◌++◌, put, put_self,
  put_ne, All, All-append, All-map, map, Table, update, update_self, update_ne, pair-cases,
}
use spi_nnaker_emulator.Sdp.Message.{Msg}
use spi_nnaker_emulator.Sdp.Store.{Store}
use spi_nnaker_emulator.Sdp.Chain.{Cell, Nodes, Chain, last_address, last_address-snoc, Chain-frame}

-- A cell that was allocated before address `fresh` for core `c` of chip `id`.
abbrev pub Owned : ℕ → (ℕ → ℕ × ℕ) → ℕ → ℕ → Cell → Type 0
Owned fresh owner id c e = (e.0 < fresh) × (owner (e.0) ≡ (id, c))

-- `cells id c` hangs from the head of each queue and ends at its tail, and every allocated address
-- belongs to one queue.
pub record IsStore (st : Store) (cells : Table (List Cell)) : Type 0 where
  pub owner : ℕ → ℕ × ℕ
  pub started : 0 < st.fresh
  pub chains : (id c : ℕ) → Chain st.nodes 0 (st.head id c) (cells id c)
  pub tails : (id c : ℕ) → st.tail id c ≡ last_address (cells id c)
  pub owned : (id c : ℕ) → All (Owned st.fresh owner id c) (cells id c)

-- The messages that wait, oldest first.
abbrev pub messages : List Cell → List Msg
messages = map (λ e. e.1)

module _ (st : Store) (cells : Table (List Cell)) (v : IsStore st cells) (msg : Msg)
    (id c : ℕ) where
  abbrev pub longer : List Cell
  longer = cells id c ++ (st.fresh, msg) ∷ []

  owner' : ℕ → ℕ × ℕ
  owner' = put v.owner st.fresh (id, c)

  owner_new : owner' st.fresh ≡ (id, c)
  unfolding owner'
  owner_new = put_self v.owner st.fresh (id, c)

  Owned-later :
      (id' c' : ℕ) (e : Cell)
      → Owned st.fresh v.owner id' c' e
      → Owned (st.fresh + 1) owner' id' c' e
  unfolding owner'
  Owned-later id' c' e (lt, o) =
      (omega arith, put_ne v.owner st.fresh (e.0) (id, c) (λ x. omega arith) ∙ o)

  other_owner : (id' c' a : ℕ) → (id ≢ id') ⊎ (c ≢ c') → v.owner a ≡ (id', c') → v.owner a ≢ (id, c)
  other_owner id' c' a (inl ne) o e = ne (ap (λ (x : ℕ × ℕ). x.0) (sym e ∙ o))
  other_owner id' c' a (inr ne) o e = ne (ap (λ (x : ℕ × ℕ). x.1) (sym e ∙ o))

  -- The store after a message was hung at the end of one queue.
  pub longer-IsStore :
      (nodes' : Nodes) (head' : Table ℕ)
      → ((a : ℕ) → a < st.fresh → v.owner a ≢ (id, c) → nodes' a ≡ st.nodes a)
      → ((id' c' : ℕ) → (id ≢ id') ⊎ (c ≢ c') → head' id' c' ≡ st.head id' c')
      → Chain nodes' 0 (head' id c) longer
      → IsStore
          (record {
            nodes = nodes';
            fresh = st.fresh + 1;
            head = head';
            tail = update st.tail id c st.fresh;
          })
          (update cells id c longer)
  longer-IsStore nodes' head' same heads chain = record {
    owner = owner';
    started = omega arith;
    chains = λ id' c'. elim (pair-cases id c id' c') [
      | inl (e, e') ↦ rw (← e, ← e') (rw (update_self cells id c longer) chain)
      | inr ne ↦
          rw (update_ne cells id c id' c' longer ne, heads id' c' ne)
            (Chain-frame st.nodes nodes' 0 (st.head id' c') (cells id' c')
              (All-map _ _ (cells id' c')
                (λ e o. same (e.0) (o.0) (other_owner id' c' (e.0) ne (o.1))) (v.owned id' c'))
              (v.chains id' c'))
    ];
    tails = λ id' c'. elim (pair-cases id c id' c') [
      | inl (e, e') ↦
          rw (← e, ← e')
            (update_self st.tail id c st.fresh
              ∙ sym (last_address-snoc (cells id c) st.fresh msg)
              ∙ ap last_address (sym (update_self cells id c longer)))
      | inr ne ↦
          update_ne st.tail id c id' c' st.fresh ne
          ∙ v.tails id' c'
          ∙ ap last_address (sym (update_ne cells id c id' c' longer ne))
    ];
    owned = λ id' c'. elim (pair-cases id c id' c') [
      | inl (e, e') ↦
          rw (← e, ← e')
            (rw (update_self cells id c longer) (
              All-append (Owned (st.fresh + 1) owner' id c) (cells id c) ((st.fresh, msg) ∷ [])
                (All-map _ _ (cells id c) (Owned-later id c) (v.owned id c))
                ((omega arith, owner_new), tt)))
      | inr ne ↦
          rw (update_ne cells id c id' c' longer ne)
            (All-map _ _ (cells id' c') (Owned-later id' c') (v.owned id' c'))
    ];
  }
