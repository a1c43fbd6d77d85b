-- ===== src/Board/Setup.antt =====
-- The tables that `setup_net` (`cmd_p2pc`, spin_emu_dispatcher.c) leaves.
use spi_nnaker_emulator.Base.{
  ℕ, ◌+◌, ◌<◌, ◌≡◌, ◌⊎◌, inl, inr, refl, ap, ◌∙◌, sym, arith, true, false, eq-cases, Option, some,
  Table, update, update_self, update_ne, count_up_inv, bit_and-zero,
}
use spi_nnaker_emulator.Base.Int.{ℤ, pos, negsuc}
use spi_nnaker_emulator.Grid.{Dims, num_chips, num_links, channel_target}
use spi_nnaker_emulator.Grid.Links.{channel_target-total}
use spi_nnaker_emulator.McQueue.{Mc}
use spi_nnaker_emulator.Wire.{Route, num_routes}
use spi_nnaker_emulator.Router.{Net, matches, State, route_mc}
use mathlib.Core.Bool.{false≢true}
use spi_nnaker_emulator.Router.Forward.{HasLinks}
use spi_nnaker_emulator.Router.Match.{route_mc_cases}
use spi_nnaker_emulator.Board.{empty_route, setup_routes, setup_link, setup_links, setup_net}

-- The link table while the loops of `setup_links` fill it.
module _ (d : Dims) where
  -- The entries before (c, j) in the order of the loops hold their link values.
  record Filled (c j : ℕ) (o : Option (Table ℤ)) : Type 0 where
    table : Table ℤ
    is_table : o ≡ some table
    rows : (c' j' : ℕ) → c' < c → j' < num_links → channel_target d c' j' ≡ some (table c' j')
    row : (j' : ℕ) → j' < j → channel_target d c j' ≡ some (table c j')

  link_value : (c j : ℕ) → c < num_chips d → (v : ℤ) × (channel_target d c j ≡ some v)
  link_value c j h = elim (channel_target-total d j c h) [
    | inl e ↦ (negsuc 0, e)
    | inr (b, e, lt) ↦ (pos b, e)
  ]

  setup_link-Filled :
      (c j : ℕ) (o : Option (Table ℤ))
      → c < num_chips d
      → Filled c j o
      → Filled c (j + 1) (setup_link d c j o)
  unfolding setup_link
  setup_link-Filled c j o h f =
      let (v, e) = link_value c j h in
      record {
        table = update f.table c j v;
        is_table = rw (f.is_table, e);
        rows = λ c' j' p q.
            f.rows c' j' p q
            ∙ ap some (sym (update_ne f.table c j c' j' v (inl (λ x. omega arith))));
        row = λ j' p. elim (eq-cases j j') [
          | inl same ↦ rw (← same) (e ∙ ap some (sym (update_self f.table c j v)))
          | inr ne ↦ f.row j' (omega arith) ∙ ap some (sym (update_ne f.table c j c j' v (inr ne)))
        ];
      }

  next_row : (c : ℕ) (o : Option (Table ℤ)) → Filled c num_links o → Filled (c + 1) 0 o
  next_row c o f = record {
    table = f.table;
    is_table = f.is_table;
    rows = λ c' j' p q. elim (eq-cases c' c) [
      | inl same ↦ rw same (f.row j' q)
      | inr ne ↦ f.rows c' j' (omega arith) q
    ];
    row = λ j' p. absurd (omega arith);
  }

  setup_links-Filled : (targets : Table ℤ) → Filled (num_chips d) 0 (setup_links d targets)
  unfolding setup_links
  setup_links-Filled targets =
      count_up_inv (λ c o. Filled c 0 o) _ (num_chips d) 0 (num_chips d) (some targets)
        (omega arith)
        (λ c o p q f. next_row c _ (
          count_up_inv (λ j o. Filled c j o) (λ j. setup_link d c j) num_links 0 num_links o
            (omega arith) (λ j o p' q' g. setup_link-Filled c j o q g) f))
        (record {
          table = targets;
          is_table = refl;
          rows = λ c' j' p q. absurd (omega arith);
          row = λ j' p. absurd (omega arith);
        })

module _ (d : Dims) (routes : Table Route) where
  -- After the loops every entry of every chip is the empty one.
  setup_routes_entry :
      (c i : ℕ) → c < num_chips d → i < num_routes → setup_routes d routes c i ≡ empty_route
  unfolding setup_routes
  setup_routes_entry c i hc hi =
      count_up_inv
        (λ c' (t : Table Route). (c i : ℕ) → c < c' → i < num_routes → t c i ≡ empty_route) _
        (num_chips d) 0 (num_chips d) routes (omega arith)
        (λ c' t p q before c i lc li.
          count_up_inv
            (λ i' (t : Table Route).
              (c i : ℕ) → c < c' + 1 → i < num_routes → (c < c') ⊎ (i < i') → t c i ≡ empty_route)
            _ num_routes 0 num_routes t (omega arith)
            (λ i' t p' q' done c i lc li h. one c' i' t c i done lc li h)
            (λ c i lc li h. first c' t c i before li h) c i lc li (inr li))
        (λ c i lc li. absurd (omega arith)) c i hc hi
    where
      first :
          (c' : ℕ) (t : Table Route) (c i : ℕ)
          → ((c i : ℕ) → c < c' → i < num_routes → t c i ≡ empty_route)
          → i < num_routes
          → (c < c') ⊎ (i < 0)
          → t c i ≡ empty_route
      first c' t c i before li (inl h) = before c i h li
      first c' t c i before li (inr h) = absurd (omega arith)

      one :
          (c' i' : ℕ) (t : Table Route) (c i : ℕ)
          → ((c i : ℕ) → c < c' + 1 → i < num_routes → (c < c') ⊎ (i < i') → t c i ≡ empty_route)
          → c < c' + 1
          → i < num_routes
          → (c < c') ⊎ (i < i' + 1)
          → update t c' i' empty_route c i ≡ empty_route
      one c' i' t c i done lc li h = ground (arith, done c i)

pub matches-empty_route : (mc : Mc) → matches empty_route mc ≡ false
matches-empty_route mc = rw (bit_and-zero mc.key)

-- `route_mc` drops every packet on every chip of the board.
abbrev pub DropsAll : Net → Type 0
DropsAll net = (c : ℕ) (mc : Mc) (s : State) → c < num_chips net.dims → route_mc net c mc s ≡ s

-- Setting up a board never fails an assertion: for any contents of the fresh memory it gives a
-- board of the given size whose link table is the computed one and on which `route_mc` drops every
-- packet.
pub setup_net_lem :
    (d : Dims) (routes : Table Route) (targets : Table ℤ)
    → (net : Net) × (setup_net d routes targets ≡ some net)
      × (net.dims ≡ d)
      × HasLinks net
      × DropsAll net
unfolding setup_net
setup_net_lem d routes targets =
    let f = setup_links-Filled d targets in
    let net : Net = record {
      dims = d;
      channel_targets = f.table;
      routes = setup_routes d routes;
    } in
    (
      net,
      rw (f.is_table),
      refl,
      (λ c j hc hj. f.rows c j hc hj),
      (λ c mc s hc. elim (route_mc_cases net c mc s) [
        | inl (k, lt, first, e) ↦ absurd (clash c k mc hc lt (first.hit))
        | inr (none_hits, e) ↦ e
      ]),
    )
  where
    clash :
        (c k : ℕ) (mc : Mc)
        → c < num_chips d
        → k < num_routes
        → matches (setup_routes d routes c k) mc ≡ true
        → ⊥
    clash c k mc hc hk hit =
        false≢true
          (sym (matches-empty_route mc) ∙ (rw (setup_routes_entry d routes c k hc hk) at hit))
