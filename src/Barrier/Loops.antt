-- ===== src/Barrier/Loops.antt =====
-- The loops of `barrier_wait` (spin_emu_api.c).
use spi_nnaker_emulator.Base.{
  ℕ, zero, suc, ◌+◌, ◌<◌, ◌≤◌, ◌≡◌, refl, ap, ◌∙◌, sym, arith, Bool, true, false, not, ◌&&◌, ◌||◌,
  List, [], ◌∷◌, ◌++◌, Option, some, ltb, sub32, Bool-cases, ◌⊎◌, inl, inr, le→ltb, replicate,
  append_assoc, append-nil, ltb→lt,
}
use mathlib.Core.Bool.{false≢true}
use spi_nnaker_emulator.Core.Packets.{rdygo_key}
use spi_nnaker_emulator.Barrier.{Barrier}
use spi_nnaker_emulator.Barrier.Wait.{
  Seen, View, go_wait, rdy2_wait, resend_wait, wait_while, root_wait, Waited, ◌>>=◌, go_loop,
}

-- `n` calls of `clock` take as long as the longest time limit, from any of the first calls on.
abbrev pub Advances : View → ℕ → Type 0
Advances view n =
    (k i : ℕ) → k ≤ n + 4 → n ≤ i → i ≤ n + 2 → 50000 ≤ sub32 (view (k + i)).now (view k).now

-- Why a loop ended: it was no longer to wait, or the time was up.
abbrev pub Ended : View → ℕ → ℕ → (Seen → Bool) → ℕ → Type 0
Ended view start limit waiting e = (waiting (view e) ≡ false) ⊎ (limit ≤ sub32 (view e).now start)

pub record Stops (view : View) (start limit : ℕ) (waiting : Seen → Bool) (k last : ℕ) (o : Option ℕ)
    : Type 0 where
  pub end : ℕ
  pub returns : o ≡ some (end + 1)
  pub from : k ≤ end
  pub in_time : end ≤ last
  pub because : Ended view start limit waiting end

and_false : (a b : Bool) → (a && b) ≡ false → (a ≡ false) ⊎ (b ≡ false)
and_false true b h = inr h
and_false false b h = inl h

not_before : (a b : ℕ) → ltb a b ≡ false → b ≤ a
not_before a b h = ground arith

late_stops : (a b : ℕ) (c : Bool) → b ≤ a → (ltb a b && c) ≡ false
late_stops a b c h = rw (le→ltb a b h) refl

ended :
    (view : View) (start limit : ℕ) (waiting : Seen → Bool) (e : ℕ)
    → (ltb (sub32 (view e).now start) limit && waiting (view e)) ≡ false
    → Ended view start limit waiting e
ended view start limit waiting e h =
    elim (and_false (ltb (sub32 (view e).now start) limit) (waiting (view e)) h) [
      | inl late ↦ inr (not_before (sub32 (view e).now start) limit late)
      | inr done ↦ inl done
    ]

branch_true {ℓ} :
    {A : Type ℓ} (c : Bool) (s t : A) → c ≡ true → (elim c [ true ↦ s | false ↦ t ]) ≡ s
branch_true true s t e = refl
branch_true false s t e = cc

branch_false {ℓ} :
    {A : Type ℓ} (c : Bool) (s t : A) → c ≡ false → (elim c [ true ↦ s | false ↦ t ]) ≡ t
branch_false true s t e = cc
branch_false false s t e = refl

module _ (fuel : ℕ) (view : View) (start limit : ℕ) (waiting : Seen → Bool) (k : ℕ) where
  wait_while_stop :
      (ltb (sub32 (view k).now start) limit && waiting (view k)) ≡ false
      → wait_while (suc fuel) view start limit waiting k ≡ some (k + 1)
  unfolding wait_while
  wait_while_stop e = branch_false _ _ _ e

  wait_while_next :
      (ltb (sub32 (view k).now start) limit && waiting (view k)) ≡ true
      → wait_while (suc fuel) view start limit waiting k
        ≡ wait_while fuel view start limit waiting (k + 1)
  unfolding wait_while
  wait_while_next e = branch_true _ _ _ e

pub wait_while-Stops :
    (fuel m : ℕ) (view : View) (start limit : ℕ) (waiting : Seen → Bool) (k : ℕ)
    → limit ≤ sub32 (view (k + m)).now start
    → m < fuel
    → Stops view start limit waiting k (k + m) (wait_while fuel view start limit waiting k)
wait_while-Stops zero m view start limit waiting k late h = absurd (omega arith)
wait_while-Stops (suc fuel) zero view start limit waiting k late h =
    let here : k + 0 ≡ k = omega arith in
    let late' : limit ≤ sub32 (view k).now start = rw here at late in
    let stop = late_stops (sub32 (view k).now start) limit (waiting (view k)) late' in
    record {
      end = k;
      returns = wait_while_stop fuel view start limit waiting k stop;
      from = omega arith;
      in_time = omega arith;
      because = inr late';
    }
wait_while-Stops (suc fuel) (suc m) view start limit waiting k late h =
    elim (Bool-cases (ltb (sub32 (view k).now start) limit && waiting (view k))) [
      | inl e ↦
          let there : k + suc m ≡ k + 1 + m = omega arith in
          let s =
            wait_while-Stops fuel m view start limit waiting (k + 1) (rw there at late)
              (omega arith) in
          record {
            end = s.end;
            returns = wait_while_next fuel view start limit waiting k e ∙ s.returns;
            from = omega (arith, s.from);
            in_time = omega (arith, s.in_time);
            because = s.because;
          }
      | inr e ↦ record {
        end = k;
        returns = wait_while_stop fuel view start limit waiting k e;
        from = omega arith;
        in_time = omega arith;
        because = ended view start limit waiting k e;
      }
    ]

-- The root's loop ends, having sent RDYGO some times more.
pub record RootStops (view : View) (b : Barrier) (start last : ℕ) (sent : List ℕ)
    (o : Option (ℕ × List ℕ)) : Type 0 where
  pub end : ℕ
  pub times : ℕ
  pub returns : o ≡ some (end + 1, sent ++ replicate times rdygo_key)
  pub in_time : end ≤ last
  pub because : Ended view start rdy2_wait (λ v. ltb v.rdy1 b.my_ncores || ltb v.rdy2 b.nchips) end

replicate_front :
    (sent : List ℕ) (r : ℕ)
    → (sent ++ rdygo_key ∷ []) ++ replicate r rdygo_key ≡ sent ++ replicate (suc r) rdygo_key
replicate_front sent r = append_assoc sent (rdygo_key ∷ []) (replicate r rdygo_key)

module _ (fuel : ℕ) (view : View) (b : Barrier) (start resend k : ℕ) (sent : List ℕ) where
  abbrev root_test : Bool
  root_test =
      ltb (sub32 (view k).now start) rdy2_wait
      && (ltb (view k).rdy1 b.my_ncores || ltb (view k).rdy2 b.nchips)

  root_wait_stop :
      root_test ≡ false → root_wait (suc fuel) view b start resend k sent ≡ some (k + 1, sent)
  unfolding root_wait
  root_wait_stop e = branch_false _ _ _ e

  root_wait_again :
      root_test ≡ true
      → ltb resend_wait (sub32 (view (k + 1)).now resend) ≡ true
      → root_wait (suc fuel) view b start resend k sent
        ≡ root_wait fuel view b start (view (k + 2)).now (k + 3) (sent ++ rdygo_key ∷ [])
  unfolding root_wait
  root_wait_again e e' = branch_true _ _ _ e ∙ branch_true _ _ _ e'

  root_wait_quiet :
      root_test ≡ true
      → ltb resend_wait (sub32 (view (k + 1)).now resend) ≡ false
      → root_wait (suc fuel) view b start resend k sent
        ≡ root_wait fuel view b start resend (k + 2) sent
  unfolding root_wait
  root_wait_quiet e e' = branch_true _ _ _ e ∙ branch_false _ _ _ e'

pub root_wait-RootStops :
    (fuel n : ℕ) (view : View) (b : Barrier) (start resend k : ℕ) (sent : List ℕ)
    → ((i : ℕ) → n ≤ i → i ≤ n + 2 → rdy2_wait ≤ sub32 (view i).now start)
    → k ≤ n + 2
    → n + 2 < fuel + k
    → RootStops view b start (n + 2) sent (root_wait fuel view b start resend k sent)
root_wait-RootStops zero n view b start resend k sent late low h = absurd (omega arith)
root_wait-RootStops (suc fuel) n view b start resend k sent late low h =
    let waiting = λ (v : Seen). ltb v.rdy1 b.my_ncores || ltb v.rdy2 b.nchips in
    let test = ltb (sub32 (view k).now start) rdy2_wait && waiting (view k) in
    elim (Bool-cases test) [
      | inl e ↦
          let early : k < n = elim (Bool-cases (ltb k n)) [
            | inl lt ↦ ltb→lt k n lt
            | inr ge ↦ absurd (
                false≢true (
                  sym (
                    late_stops (sub32 (view k).now start) rdy2_wait (waiting (view k))
                      (late k (not_before k n ge) low))
                  ∙ e))
          ] in
          elim (Bool-cases (ltb resend_wait (sub32 (view (k + 1)).now resend))) [
            | inl again ↦
                let s =
                  root_wait-RootStops fuel n view b start (view (k + 2)).now (k + 3)
                    (sent ++ rdygo_key ∷ []) late (omega arith) (omega arith) in
                record {
                  end = s.end;
                  times = suc s.times;
                  returns =
                      root_wait_again fuel view b start resend k sent e again
                      ∙ s.returns
                      ∙ ap (λ l. some (s.end + 1, l)) (replicate_front sent s.times);
                  in_time = s.in_time;
                  because = s.because;
                }
            | inr quiet ↦
                let s =
                  root_wait-RootStops fuel n view b start resend (k + 2) sent late (omega arith)
                    (omega arith) in
                record {
                  end = s.end;
                  times = s.times;
                  returns = root_wait_quiet fuel view b start resend k sent e quiet ∙ s.returns;
                  in_time = s.in_time;
                  because = s.because;
                }
          ]
      | inr e ↦ record {
        end = k;
        times = 0;
        returns =
            root_wait_stop fuel view b start resend k sent e
            ∙ ap (λ l. some (k + 1, l)) (sym (append-nil sent));
        in_time = low;
        because = ended view start rdy2_wait waiting k e;
      }
    ]

-- The wait for the GO packet ends.
pub record Goes (view : View) (sent : List ℕ) (lock : Option ℕ) (k : ℕ) (o : Option Waited)
    : Type 0 where
  pub end : ℕ
  pub returns : o ≡ some (record { sent = sent; lock = lock; calls = end + 1 })
  pub because : Ended view (view k).now go_wait (λ v. not v.go) end

pub go_loop-Goes :
    (fuel n : ℕ) (view : View) (sent : List ℕ) (lock : Option ℕ) (k : ℕ)
    → Advances view n
    → k ≤ n + 4
    → n + 2 < fuel
    → Goes view sent lock k (go_loop fuel view sent lock k)
unfolding go_loop
go_loop-Goes fuel n view sent lock k clock low h =
    let there : k + (n + 1) ≡ k + 1 + n = omega arith in
    let s =
      wait_while-Stops fuel n view (view k).now go_wait (λ v. not v.go) (k + 1)
        (rw there at (clock k (n + 1) low (omega arith) (omega arith))) (omega arith) in
    record {
      end = s.end;
      returns =
          ap (λ (o : Option ℕ). o >>= λ k'. some (record { sent = sent; lock = lock; calls = k' }))
            s.returns;
      because = s.because;
    }
