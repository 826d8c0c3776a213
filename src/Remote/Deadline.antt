-- ===== src/Remote/Deadline.antt =====
-- The loop of `_read_channel` ends.
use sglang_ops_stack.Base.{
  ℕ, zero, suc, Bool, true, ◌+◌, ◌*◌, ◌-◌, ◌≤◌, List, [], ◌++◌, Option, none, some, leb, ltb, ◌≡◌,
  refl, subst, ap, arith, false, Bool-cases, ◌⊎◌, inl, inr,
}
use sglang_ops_stack.Base.Show.{ℤ}
use sglang_ops_stack.Base.Exec.{Result, ok, err}
use sglang_ops_stack.Remote.{SshErrorKind}
use sglang_ops_stack.Remote.Channel.{
  Channel, Output, drain, then_stderr, drain_both, returned, pause, paused, Rounds, after_clock,
  after_status, after_read, read_channel, read_within,
}

-- The clock, and how many chunks the command will still give on its two outputs.
pub record Measure (C : Type 0) : Type 0 where
  pub time : C → ℕ
  pub remaining : C → ℕ
  pub remaining_stderr : C → ℕ

-- The clock does not go back, and no call makes the command give more.
abbrev pub Follows : {C : Type 0} → Measure C → C → C → Type 0
Follows m c c' =
    (m.time c ≤ m.time c')
    × (m.remaining c' ≤ m.remaining c)
    × (m.remaining_stderr c' ≤ m.remaining_stderr c)

-- What holds of the channel to a command that gives finitely many chunks, at whatever moments, and
-- of a clock that does not go back and passes a pause: a chunk that is read where one is ready is
-- one of those that were to come.
pub record Paced {C : Type 0} (ch : Channel C) (m : Measure C) : Type 0 where
  pub ready_follows : (c : C) → Follows m c (ch.recv_ready c).1
  pub recv_follows : (c : C) → Follows m c (ch.recv c).1
  pub recv_less :
      (c : C)
      → (ch.recv_ready c).0 ≡ true
      → suc (m.remaining (ch.recv (ch.recv_ready c).1).1) ≤ m.remaining c
  pub stderr_ready_follows : (c : C) → Follows m c (ch.recv_stderr_ready c).1
  pub recv_stderr_follows : (c : C) → Follows m c (ch.recv_stderr c).1
  pub recv_stderr_less :
      (c : C)
      → (ch.recv_stderr_ready c).0 ≡ true
      → suc (m.remaining_stderr (ch.recv_stderr (ch.recv_stderr_ready c).1).1)
        ≤ m.remaining_stderr c
  pub status_ready_follows : (c : C) → Follows m c (ch.exit_status_ready c).1
  pub status_follows : (c : C) → Follows m c (ch.recv_exit_status c).1
  pub monotonic_follows : (c : C) → Follows m c (ch.monotonic c).1
  pub monotonic_time :
      (c : C) → (m.time c ≤ (ch.monotonic c).0) × ((ch.monotonic c).0 ≤ m.time (ch.monotonic c).1)
  pub sleep_follows : (pause : ℕ) (c : C) → Follows m c (ch.sleep pause c)
  pub sleep_time : (pause : ℕ) (c : C) → m.time c + pause ≤ m.time (ch.sleep pause c)

none_below : (m n : ℕ) → suc m ≤ n → n ≤ 0 → ⊥
none_below m n h k = omega arith

le_through : (a b c : ℕ) → a ≤ b → b ≤ c → a ≤ c
le_through a b c h k = omega arith

Follows-trans :
    {C : Type 0} (m : Measure C) (a b c : C) → Follows m a b → Follows m b c → Follows m a c
Follows-trans m a b c h k = (omega arith, omega arith, omega arith)

later_by :
    (deadline now t0 t1 t2 : ℕ)
    → t0 ≤ now
    → now ≤ t1
    → t1 + pause deadline now ≤ t2
    → (t0 + 50000000 ≤ t2) ⊎ (deadline ≤ t2)
unfolding pause
later_by deadline now t0 t1 t2 h k l = elim (Bool-cases (ltb 50000000 (deadline - now))) [
  | inl e ↦ inl (ground arith)
  | inr e ↦ inr (ground arith)
]

below : (deadline now t : ℕ) → leb deadline now ≡ false → t ≤ now → suc t ≤ deadline
below deadline now t e h = ground arith

not_both : (deadline t : ℕ) → deadline ≤ t + 50000000 * 0 → suc t ≤ deadline → ⊥
not_both deadline t h k = omega arith

nearer :
    (deadline t t' rounds : ℕ)
    → deadline ≤ t + 50000000 * suc rounds
    → (t + 50000000 ≤ t') ⊎ (deadline ≤ t')
    → deadline ≤ t' + 50000000 * rounds
nearer deadline t t' rounds h (inl k) = omega arith
nearer deadline t t' rounds h (inr k) = omega arith

time_left : (a b n k : ℕ) → a ≤ b → n ≤ k → a + n ≤ b + k
time_left a b n k h l = omega arith

one_less : (m n fuel : ℕ) → suc m ≤ n → n ≤ suc fuel → m ≤ fuel
one_less m n fuel h k = omega arith

module _ {C : Type 0} (m : Measure C) where
  -- A drain that ends.
  abbrev Drained : C → Option (List ℕ × C) → Type 0
  Drained c none = ⊥
  Drained c (some (chunks, c')) = Follows m c c'

  Drained-trans : (c c' : C) (o : Option (List ℕ × C)) → Follows m c c' → Drained c' o → Drained c o
  Drained-trans c c' none h d = d
  Drained-trans c c' (some (chunks, c'')) h d = Follows-trans m c c' c'' h d

  module _ (ready : C → Bool × C) (recv : C → List ℕ × C) (left : C → ℕ)
      (ready_follows : (c : C) → Follows m c (ready c).1)
      (recv_follows : (c : C) → Follows m c (recv c).1)
      (less : (c : C) → (ready c).0 ≡ true → suc (left (recv (ready c).1).1) ≤ left c) where
    fewer : (c c' : C) → ready c ≡ (true, c') → suc (left (recv c').1) ≤ left c
    fewer c c' h = subst (λ r. suc (left (recv r.1).1) ≤ left c) h (less c (ap (λ r. r.0) h))

    drain-Drained :
        (fuel : ℕ) (chunks : List ℕ) (c : C) (r : Bool × C)
        → ready c ≡ r
        → left c ≤ fuel
        → Drained c (drain fuel ready recv chunks r)
    unfolding drain
    drain-Drained fuel chunks c (false, c') h b = subst (λ r. Follows m c r.1) h (ready_follows c)
    drain-Drained zero chunks c (true, c') h b =
        none_below (left (recv c').1) (left c) (fewer c c' h) b
    drain-Drained (suc fuel) chunks c (true, c') h b =
        Drained-trans c (recv c').1
          (drain fuel ready recv (chunks ++ (recv c').0) (ready (recv c').1))
          (Follows-trans m c c' (recv c').1 (subst (λ r. Follows m c r.1) h (ready_follows c))
            (recv_follows c'))
          (drain-Drained fuel (chunks ++ (recv c').0) (recv c').1 (ready (recv c').1) refl
            (one_less (left (recv c').1) (left c) fuel (fewer c c' h) b))

-- There is an outcome, the output and the exit status or the error of a timeout.
abbrev pub Ended : Option (Result SshErrorKind (Output × ℤ)) → Type 0
Ended none = ⊥
Ended (some (ok outcome)) = Unit
Ended (some (err e)) = e ≡ SshErrorKind.command_timeout

module _ {C : Type 0} (ch : Channel C) (fuel : ℕ) (m : Measure C) (paced : Paced ch m) where
  -- The command gives no more chunks than the fuel.
  abbrev pub Fits : C → Type 0
  Fits c = (m.remaining c ≤ fuel) × (m.remaining_stderr c ≤ fuel)

  Fits-Follows : (c c' : C) → Follows m c c' → Fits c → Fits c'
  Fits-Follows c c' h k = (omega arith, omega arith)

  -- Both drains end.
  abbrev DrainedBoth : C → Option (Output × C) → Type 0
  DrainedBoth c none = ⊥
  DrainedBoth c (some (output, c')) = Follows m c c'

  second :
      (errors : List ℕ) (c : C) (first : Option (List ℕ × C))
      → Fits c
      → Drained m c first
      → DrainedBoth c (then_stderr ch fuel errors first)
  second errors c none f h = elim h [ ]
  second errors c (some (output, c1)) f h =
      joined (drain fuel ch.recv_stderr_ready ch.recv_stderr errors (ch.recv_stderr_ready c1)) (
        drain-Drained m ch.recv_stderr_ready ch.recv_stderr m.remaining_stderr
          paced.stderr_ready_follows paced.recv_stderr_follows paced.recv_stderr_less fuel errors c1
          (ch.recv_stderr_ready c1) refl (Fits-Follows c c1 h f).1)
    where
      joined :
          (o : Option (List ℕ × C))
          → Drained m c1 o
          → DrainedBoth c (elim o as (λ _. Option (Output × C)) [
            | none ↦ none
            | some (errors, c) ↦ some ((output, errors), c)
          ])
      joined none d = elim d [ ]
      joined (some (errors, c2)) d = Follows-trans m c c1 c2 h d

  drain_both-DrainedBoth :
      (output : Output) (c : C) → Fits c → DrainedBoth c (drain_both ch fuel output c)
  unfolding drain_both
  drain_both-DrainedBoth (output, errors) c f =
      second errors c (drain fuel ch.recv_ready ch.recv output (ch.recv_ready c)) f (
        drain-Drained m ch.recv_ready ch.recv m.remaining paced.ready_follows paced.recv_follows
          paced.recv_less fuel output c (ch.recv_ready c) refl f.0)

  returned-Ended :
      (exit_code : ℤ) (c : C) (o : Option (Output × C))
      → DrainedBoth c o
      → Ended (returned ch fuel exit_code o)
  returned-Ended exit_code c none h = elim h [ ]
  returned-Ended exit_code c (some (output, c')) h = tt

  module _ (deadline : ℕ) (start : C) (fits : Fits start) where
    -- A moment behind a whole pause since the start, or the time is over.
    abbrev IsLater : C → Type 0
    IsLater c = (m.time start + 50000000 ≤ m.time c) ⊎ (deadline ≤ m.time c)

    paused-IsLater : (c : C) → Follows m start c → IsLater (paused ch fuel deadline c)
    unfolding paused
    paused-IsLater c h =
        let clock = paced.monotonic_time c in
        later_by deadline (ch.monotonic c).0 (m.time start) (m.time (ch.monotonic c).1)
          (m.time (ch.sleep (pause deadline (ch.monotonic c).0) (ch.monotonic c).1))
          (le_through _ _ _ h.0 clock.0) clock.1 (paced.sleep_time _ _)

    paused-Follows : (c : C) → Follows m start c → Follows m start (paused ch fuel deadline c)
    unfolding paused
    paused-Follows c h =
        Follows-trans m start (ch.monotonic c).1 _
          (Follows-trans m start c _ h (paced.monotonic_follows c)) (paced.sleep_follows _ _)

    module _ (rounds : Rounds ch fuel)
        (go : (output : Output) (c : C)
          → suc (m.time start) ≤ deadline
          → IsLater c
          → Fits c
          → Ended (rounds output c)) where
      after_clock-Ended :
          (output : Output) (c : C)
          → Follows m start c
          → Ended (after_clock ch fuel rounds deadline output (ch.monotonic c))
      unfolding after_clock
      after_clock-Ended output c h =
          let clock = paced.monotonic_time c in
          let later = Follows-trans m start c (ch.monotonic c).1 h (paced.monotonic_follows c) in
          elim (Bool-cases (leb deadline (ch.monotonic c).0)) [
            | inl e ↦ rw e refl
            | inr e ↦ rw e (
                go output (paused ch fuel deadline (ch.monotonic c).1)
                  (below deadline (ch.monotonic c).0 (m.time start) e
                    (le_through _ _ _ h.0 clock.0))
                  (paused-IsLater (ch.monotonic c).1 later)
                  (Fits-Follows start _ (paused-Follows (ch.monotonic c).1 later) fits))
          ]

      after_status-Ended :
          (output : Output) (r : Bool × C)
          → Follows m start r.1
          → Ended (after_status ch fuel rounds deadline output r)
      unfolding after_status
      after_status-Ended output (true, c) h =
          let after = (ch.recv_exit_status c).1 in
          returned-Ended (ch.recv_exit_status c).0 after (drain_both ch fuel output after) (
            drain_both-DrainedBoth output after (
              Fits-Follows start after (Follows-trans m start c after h (paced.status_follows c))
                fits))
      after_status-Ended output (false, c) h = after_clock-Ended output c h

      after_read-Ended :
          (o : Option (Output × C))
          → DrainedBoth start o
          → Ended (after_read ch fuel rounds deadline o)
      unfolding after_read
      after_read-Ended none h = elim h [ ]
      after_read-Ended (some (output, c)) h =
          after_status-Ended output (ch.exit_status_ready c)
            (Follows-trans m start c _ h (paced.status_ready_follows c))

  read_channel-Ended :
      (rounds deadline : ℕ) (output : Output) (c : C)
      → Fits c
      → deadline ≤ m.time c + 50000000 * rounds
      → Ended (read_channel ch fuel (suc rounds) deadline output c)
  unfolding read_channel
  read_channel-Ended zero deadline output c f h =
      after_read-Ended deadline c f (λ o c. read_channel ch fuel 0 deadline o c)
        (λ o c' early later fits. absurd (not_both deadline (m.time c) h early))
        (drain_both ch fuel output c) (drain_both-DrainedBoth output c f)
  read_channel-Ended (suc rounds) deadline output c f h =
      after_read-Ended deadline c f (λ o c. read_channel ch fuel (suc rounds) deadline o c)
        (λ o c' early later fits.
          read_channel-Ended rounds deadline o c' fits
            (nearer deadline (m.time c) (m.time c') rounds h later))
        (drain_both ch fuel output c) (drain_both-DrainedBoth output c f)

  -- For a command that gives finitely many chunks on each output, no more than the fuel, at
  -- whatever moments, and a clock that does not go back and passes the pauses: the loop ends, with
  -- the output and the exit status or with the error of a timeout, also where the command never
  -- ends. As many rounds suffice as there are pauses of 50 milliseconds in the timeout, and one
  -- more.
  pub read_within-Ended :
      (timeout rounds : ℕ) (c : C)
      → Fits c
      → timeout ≤ 50000000 * rounds
      → Ended (read_within ch fuel (suc rounds) timeout c)
  unfolding read_within
  read_within-Ended timeout rounds c f h =
      let clock = paced.monotonic_time c in
      read_channel-Ended rounds ((ch.monotonic c).0 + timeout) ([], []) (ch.monotonic c).1
        (Fits-Follows c (ch.monotonic c).1 (paced.monotonic_follows c) f)
        (time_left (ch.monotonic c).0 (m.time (ch.monotonic c).1) timeout (50000000 * rounds)
          clock.1 h)
