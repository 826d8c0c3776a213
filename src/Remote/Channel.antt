-- ===== src/Remote/Channel.antt =====
-- remote/executor.py: `_read_channel`, the loop that reads what a command writes until it ends or
-- its time is over. Times are in nanoseconds, the unit of the clock behind `time.monotonic`.
use sglang_ops_stack.Base.{
  ℕ, zero, suc, Bool, true, false, ◌+◌, ◌-◌, List, [], ◌++◌, Option, none, some, leb, ltb,
  if◌then◌else◌,
}
use sglang_ops_stack.Base.Show.{ℤ}
use sglang_ops_stack.Base.Exec.{Result, ok, err}
use sglang_ops_stack.Remote.{SshErrorKind}

-- What lies outside, in a state that every call may change.
pub record Channel (C : Type 0) : Type 0 where
  pub recv_ready : C → Bool × C
  pub recv : C → List ℕ × C
  pub recv_stderr_ready : C → Bool × C
  pub recv_stderr : C → List ℕ × C
  pub exit_status_ready : C → Bool × C
  pub recv_exit_status : C → ℤ × C
  pub monotonic : C → ℕ × C
  pub sleep : ℕ → C → C

abbrev pub Output : Type 0
Output = List ℕ × List ℕ

-- `min(0.05, max(0.0, deadline - time.monotonic()))`
unfoldable pub pause : ℕ → ℕ → ℕ
pause deadline time = if ltb 50000000 (deadline - time) then 50000000 else deadline - time

module _ {C : Type 0} where
  -- `while ready(): chunks.append(recv())`, from the answer of `ready` on; `none` where the fuel
  -- does not suffice.
  unfoldable pub drain :
      ℕ → (C → Bool × C) → (C → List ℕ × C) → List ℕ → Bool × C → Option (List ℕ × C)
  drain fuel ready recv chunks (false, c) = some (chunks, c)
  drain zero ready recv chunks (true, c) = none
  drain (suc fuel) ready recv chunks (true, c) =
      let (chunk, c') = recv c in drain fuel ready recv (chunks ++ chunk) (ready c')

  module _ (ch : Channel C) (fuel : ℕ) where
    abbrev pub then_stderr : List ℕ → Option (List ℕ × C) → Option (Output × C)
    then_stderr errors none = none
    then_stderr errors (some (output, c)) =
        elim (drain fuel ch.recv_stderr_ready ch.recv_stderr errors (ch.recv_stderr_ready c)) [
          | none ↦ none
          | some (errors, c) ↦ some ((output, errors), c)
        ]

    -- The two inner loops.
    unfoldable pub drain_both : Output → C → Option (Output × C)
    unfolding drain
    drain_both (output, errors) c =
        then_stderr errors (drain fuel ch.recv_ready ch.recv output (ch.recv_ready c))

    abbrev pub returned : ℤ → Option (Output × C) → Option (Result SshErrorKind (Output × ℤ))
    returned exit_code none = none
    returned exit_code (some (output, c)) = some (ok (output, exit_code))

    -- The moment behind the pause.
    unfoldable pub paused : ℕ → C → C
    unfolding pause
    paused deadline c = let (time, c') = ch.monotonic c in ch.sleep (pause deadline time) c'

    -- The rounds that follow, from an output and a moment on.
    abbrev pub Rounds : Type 0
    Rounds = Output → C → Option (Result SshErrorKind (Output × ℤ))

    unfoldable pub after_clock :
        Rounds → (deadline : ℕ) → Output → ℕ × C → Option (Result SshErrorKind (Output × ℤ))
    after_clock rounds deadline output (time, c) =
        if leb deadline time
        then some (err SshErrorKind.command_timeout)
        else rounds output (paused deadline c)

    unfoldable pub after_status :
        Rounds → (deadline : ℕ) → Output → Bool × C → Option (Result SshErrorKind (Output × ℤ))
    unfolding after_clock drain_both
    after_status rounds deadline output (true, c) =
        let (exit_code, c') = ch.recv_exit_status c in returned exit_code (drain_both output c')
    after_status rounds deadline output (false, c) =
        after_clock rounds deadline output (ch.monotonic c)

    unfoldable pub after_read :
        Rounds → (deadline : ℕ) → Option (Output × C) → Option (Result SshErrorKind (Output × ℤ))
    unfolding after_status
    after_read rounds deadline none = none
    after_read rounds deadline (some (output, c)) =
        after_status rounds deadline output (ch.exit_status_ready c)

    -- `_read_channel` from a moment on; `none` where the number of rounds does not suffice.
    unfoldable pub read_channel : ℕ → (deadline : ℕ) → Rounds
    unfolding after_read
    read_channel zero deadline output c = none
    read_channel (suc rounds) deadline output c =
        after_read (λ o c. read_channel rounds deadline o c) deadline (drain_both output c)

    -- `_read_channel`, with a timeout
    unfoldable pub read_within : ℕ → (timeout : ℕ) → C → Option (Result SshErrorKind (Output × ℤ))
    unfolding read_channel
    read_within rounds timeout c =
        let (now, c') = ch.monotonic c in read_channel rounds (now + timeout) ([], []) c'
