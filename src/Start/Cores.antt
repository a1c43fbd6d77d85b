-- ===== src/Start/Cores.antt =====
-- The sockets and processes of the cores (spin_emu.c).
use spi_nnaker_emulator.Base.{
  ℕ, ◌+◌, ◌*◌, ◌<◌, ◌≡◌, ◌⊎◌, inl, inr, refl, ◌∙◌, ap, arith, ◌++◌, [], ◌∷◌, Option, some, Table,
  update, update_self, update_ne, pair-cases, nested_inv, length, length-append, get_elem?,
  get_elem?-append_left, get_elem?-append_last,
}
use spi_nnaker_emulator.Base.Outcome.{ok}
use spi_nnaker_emulator.Grid.{Dims, num_chips, num_cpus}
use spi_nnaker_emulator.Core.Map.{core_regions}
use spi_nnaker_emulator.Spawn.{
  Sockets, open_channel, setup_channels, run_core, Children, spawn_core, spawn_cores, start_cores,
}

-- The core (c', i') comes before (c, i) in the order of the loops.
abbrev IsBefore : ℕ → ℕ → ℕ → ℕ → Type 0
IsBefore c i c' i' = (i' < num_cpus) × ((c' < c) ⊎ ((c' ≡ c) × (i' < i)))

IsBefore-row : (c c' i' : ℕ) → IsBefore (c + 1) 0 c' i' → IsBefore c num_cpus c' i'
IsBefore-row c c' i' (lt, inl h) = (lt, omega arith)
IsBefore-row c c' i' (lt, inr (e, h)) = absurd (omega arith)

-- An update at (c, i) of a table that has the values `v` before it.
update_before {ℓ} :
    {A : Type ℓ} (t v : Table A) (c i c' i' : ℕ)
    → ((c' i' : ℕ) → IsBefore c i c' i' → t c' i' ≡ v c' i')
    → IsBefore c (i + 1) c' i'
    → update t c i (v c i) c' i' ≡ v c' i'
update_before t v c i c' i' h (lt, b) = elim (pair-cases c i c' i') [
  | inl (e, e') ↦ rw (← e, ← e') (update_self t c i (v c i))
  | inr ne ↦ update_ne t c i c' i' (v c i) ne ∙ h c' i' (lt, omega arith)
]

module _ (d : Dims) (ends : Table (ℕ × ℕ)) (ids : Table ℕ) where
  record HasSockets (c i : ℕ) (s : Sockets) : Type 0 where
    dispatch : (c' i' : ℕ) → IsBefore c i c' i' → s.dispatch c' i' ≡ (ends c' i').0
    core : (c' i' : ℕ) → IsBefore c i c' i' → s.core c' i' ≡ (ends c' i').1

  setup_channels-HasSockets :
      (pairs : Table (Option (ℕ × ℕ))) (s : Sockets)
      → ((c i : ℕ) → c < num_chips d → i < num_cpus → pairs c i ≡ some (ends c i))
      → (s' : Sockets) × (setup_channels d pairs s ≡ ok s') × HasSockets (num_chips d) 0 s'
  unfolding setup_channels open_channel
  setup_channels-HasSockets pairs s given =
      nested_inv HasSockets (open_channel pairs) (num_chips d) num_cpus s
        (λ c i s' p q h. (
          record {
            dispatch = update s'.dispatch c i ((ends c i).0);
            core = update s'.core c i ((ends c i).1);
          },
          rw (given c i p q, open_channel) refl,
          record {
            dispatch =
                λ c' i' b. update_before s'.dispatch (λ c i. (ends c i).0) c i c' i' h.dispatch b;
            core = λ c' i' b. update_before s'.core (λ c i. (ends c i).1) c i c' i' h.core b;
          },
        ))
        (λ c s' h. record {
          dispatch = λ c' i' b. h.dispatch c' i' (IsBefore-row c c' i' b);
          core = λ c' i' b. h.core c' i' (IsBefore-row c c' i' b);
        })
        (record {
          dispatch = λ c' i' b. absurd (omega arith);
          core = λ c' i' b. absurd (omega arith);
        })

  record HasChildren (s : Sockets) (c i : ℕ) (ch : Children) : Type 0 where
    size : length ch.started ≡ c * num_cpus + i
    process :
        (c' i' : ℕ)
        → IsBefore c i c' i'
        → get_elem? ch.started (c' * num_cpus + i') ≡ some (run_core s c' i')
    pid : (c' i' : ℕ) → IsBefore c i c' i' → ch.child_pid c' i' ≡ ids c' i'

  process_next :
      (s : Sockets) (c i : ℕ) (ch : Children) (c' i' : ℕ)
      → HasChildren s c i ch
      → IsBefore c (i + 1) c' i'
      → get_elem? (ch.started ++ run_core s c i ∷ []) (c' * num_cpus + i') ≡ some (run_core s c' i')
  process_next s c i ch c' i' h (lt, b) = elim (pair-cases c i c' i') [
    | inl (e, e') ↦
        rw (← e, ← e') (get_elem?-append_last ch.started (run_core s c i) _ (omega (arith, h.size)))
    | inr ne ↦
        get_elem?-append_left ch.started _ _ (omega (arith, h.size))
        ∙ h.process c' i' (lt, omega arith)
  ]

  spawn_cores-HasChildren :
      (pids : Table (Option ℕ)) (s : Sockets) (child_pid : Table ℕ)
      → ((c i : ℕ) → c < num_chips d → i < num_cpus → pids c i ≡ some (ids c i))
      → (ch : Children) × (spawn_cores d pids s (record { child_pid = child_pid; started = [] })
          ≡ ok ch)
        × HasChildren s (num_chips d) 0 ch
  unfolding spawn_cores spawn_core
  spawn_cores-HasChildren pids s child_pid given =
      nested_inv (HasChildren s) (spawn_core pids s) (num_chips d) num_cpus _
        (λ c i ch p q h. (
          record {
            child_pid = update ch.child_pid c i (ids c i);
            started = ch.started ++ run_core s c i ∷ [];
          },
          rw (given c i p q, spawn_core) refl,
          record {
            size = length-append ch.started (run_core s c i ∷ []) ∙ omega (arith, h.size);
            process = λ c' i' b. process_next s c i ch c' i' h b;
            pid = λ c' i' b. update_before ch.child_pid ids c i c' i' h.pid b;
          },
        ))
        (λ c ch h. record {
          size = h.size ∙ omega arith;
          process = λ c' i' b. h.process c' i' (IsBefore-row c c' i' b);
          pid = λ c' i' b. h.pid c' i' (IsBefore-row c c' i' b);
        })
        (record {
          size = refl;
          process = λ c' i' b. absurd (omega arith);
          pid = λ c' i' b. absurd (omega arith);
        })

-- Core `i` of chip `c` was started, once: as the process `c` * 8 + `i`, on the socket whose other
-- end the dispatcher has for it, and with its memory.
pub record IsStarted (d : Dims) (ends : Table (ℕ × ℕ)) (ids : Table ℕ) (s : Sockets) (ch : Children)
    : Type 0 where
  pub number : length ch.started ≡ num_chips d * num_cpus
  pub process :
      (c i : ℕ)
      → c < num_chips d
      → i < num_cpus
      → get_elem? ch.started (c * num_cpus + i)
        ≡ some (record { chip = c; core = i; emu_sock = (ends c i).1; regions = core_regions c i })
  pub dispatch : (c i : ℕ) → c < num_chips d → i < num_cpus → s.dispatch c i ≡ (ends c i).0
  pub pid : (c i : ℕ) → c < num_chips d → i < num_cpus → ch.child_pid c i ≡ ids c i

-- Where every call of `socketpair` and `fork` for a core of the board succeeds, `cmd_p2pc` starts
-- 8 processes for each chip and no others: process `c` * 8 + `i` is core `i` of chip `c`, with the
-- memory of that core and one end of the socket pair that was made for it; the dispatcher keeps
-- the other end and the process id under the same two numbers.
pub start_cores-IsStarted :
    (d : Dims) (ends : Table (ℕ × ℕ)) (ids : Table ℕ) (pairs : Table (Option (ℕ × ℕ)))
    (pids : Table (Option ℕ)) (s : Sockets) (child_pid : Table ℕ)
    → ((c i : ℕ) → c < num_chips d → i < num_cpus → pairs c i ≡ some (ends c i))
    → ((c i : ℕ) → c < num_chips d → i < num_cpus → pids c i ≡ some (ids c i))
    → (s' : Sockets) × (ch : Children) × (start_cores d pairs pids s child_pid ≡ ok (s', ch))
      × IsStarted d ends ids s' ch
unfolding start_cores run_core
start_cores-IsStarted d ends ids pairs pids s child_pid opened forked =
    let (s', run, h) = setup_channels-HasSockets d ends ids pairs s opened in
    let (ch, run', h') = spawn_cores-HasChildren d ends ids pids s' child_pid forked in
    (
      s',
      ch,
      rw (run, run') refl,
      record {
        number = h'.size ∙ omega arith;
        process = λ c i p q.
            h'.process c i (q, inl p)
            ∙ ap
                (λ sock.
                  some (record { chip = c; core = i; emu_sock = sock; regions = core_regions c i }))
                (h.core c i (q, inl p));
        dispatch = λ c i p q. h.dispatch c i (q, inl p);
        pid = λ c i p q. h'.pid c i (q, inl p);
      },
    )
