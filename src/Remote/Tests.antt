-- ===== src/Remote/Tests.antt =====
-- A command line with characters that a shell would read as operators, and what a shell makes of it.
use sglang_ops_stack.Base.Show.{pos}
use sglang_ops_stack.Base.{
  Bool, true, false, zero, suc, ℕ, ◌+◌, ◌≤◌, arith, String, List, [], ◌∷◌, none, some, ◌≡◌, refl,
}
use sglang_ops_stack.Remote.Channel.{Channel, read_within, drain_both, drain}
use sglang_ops_stack.Remote.Deadline.{Measure, Follows, Paced, Ended, read_within-Ended}
use sglang_ops_stack.Remote.Spec.{CommandSpec, command_spec, validate, command_line, argv, valid}
use sglang_ops_stack.Remote.Spec.Quote.{quote, all_safe, is_safe}
use sglang_ops_stack.Remote.Spec.Shell.{shell_words}
use sglang_ops_stack.Remote.Spec.Words.{shell_words-command_line}

abbrev hostile : CommandSpec
hostile = command_spec "test.run" "docker" ("exec" ∷ "it's; rm -rf /" ∷ "" ∷ []) "Hostile words"

hostile-validate : validate hostile ≡ none
unfolding validate
hostile-validate = refl

hostile_line : command_line hostile ≡ valid "docker exec 'it'\"'\"'s; rm -rf /' ''"
unfolding command_line argv quote all_safe is_safe sglang_ops_stack.Base.Text.join
    sglang_ops_stack.Base.Text.replace validate
hostile_line = refl

shell_words-command_line_example :
    (line : String) × (command_line hostile ≡ valid line)
    × (shell_words line ≡ some ("docker" ∷ "exec" ∷ "it's; rm -rf /" ∷ "" ∷ []))
shell_words-command_line_example = shell_words-command_line hostile hostile-validate

-- A host whose command never ends: the time, the chunks that are ready and those to come. One comes
-- with each pause and one while another is read.
abbrev Moment : Type 0
Moment = ℕ × ℕ × ℕ

abbrev some_ready : ℕ → Bool
some_ready zero = false
some_ready (suc n) = true

take_chunk : Moment → List ℕ × Moment
take_chunk (now, zero, coming) = ([], (now, zero, coming))
take_chunk (now, suc ready, zero) = (7 ∷ [], (now, ready, zero))
take_chunk (now, suc ready, suc coming) = (8 ∷ [], (now, suc ready, coming))

wait : ℕ → Moment → Moment
wait pause (now, ready, zero) = (now + pause, ready, zero)
wait pause (now, ready, suc coming) = (now + pause, suc ready, coming)

abbrev endless : Channel Moment
endless = record {
  recv_ready = λ c. (some_ready c.1, c);
  recv = take_chunk;
  recv_stderr_ready = λ c. (false, c);
  recv_stderr = λ c. ([], c);
  exit_status_ready = λ c. (false, c);
  recv_exit_status = λ c. (pos 0, c);
  monotonic = λ c. (c.0, c);
  sleep = wait;
}

abbrev counts : Measure Moment
counts = record { time = λ c. c.0; remaining = λ c. c.1 + c.2; remaining_stderr = λ c. 0 }

same_moment : (c : Moment) → Follows counts c c
same_moment c = (omega arith, omega arith, omega arith)

take_chunk-Follows : (c : Moment) → Follows counts c (take_chunk c).1
unfolding take_chunk
take_chunk-Follows (now, zero, coming) = (omega arith, omega arith, omega arith)
take_chunk-Follows (now, suc ready, zero) = (omega arith, omega arith, omega arith)
take_chunk-Follows (now, suc ready, suc coming) = (omega arith, omega arith, omega arith)

take_chunk-fewer :
    (c : Moment) → some_ready c.1 ≡ true → suc ((take_chunk c).1.1 + (take_chunk c).1.2) ≤ c.1 + c.2
unfolding take_chunk
take_chunk-fewer (now, zero, coming) h = ground arith
take_chunk-fewer (now, suc ready, zero) h = omega arith
take_chunk-fewer (now, suc ready, suc coming) h = omega arith

wait-Follows : (pause : ℕ) (c : Moment) → Follows counts c (wait pause c)
unfolding wait
wait-Follows pause (now, ready, zero) = (omega arith, omega arith, omega arith)
wait-Follows pause (now, ready, suc coming) = (omega arith, omega arith, omega arith)

wait-time : (pause : ℕ) (c : Moment) → c.0 + pause ≤ (wait pause c).0
unfolding wait
wait-time pause (now, ready, zero) = omega arith
wait-time pause (now, ready, suc coming) = omega arith

never : (c : Moment) → false ≡ true → 1 ≤ 0
never c h = ground arith

endless-Paced : Paced endless counts
endless-Paced = record {
  ready_follows = same_moment;
  recv_follows = take_chunk-Follows;
  recv_less = take_chunk-fewer;
  stderr_ready_follows = same_moment;
  recv_stderr_follows = same_moment;
  recv_stderr_less = never;
  status_ready_follows = same_moment;
  status_follows = same_moment;
  monotonic_follows = same_moment;
  monotonic_time = λ c. (omega arith, omega arith);
  sleep_follows = wait-Follows;
  sleep_time = wait-time;
}

-- Three chunks are read before the time of 100 milliseconds is over.
endless_run : drain_both endless 3 ([], []) (0, 1, 2) ≡ some ((8 ∷ 8 ∷ 7 ∷ [], []), (0, 0, 0))
unfolding drain_both drain take_chunk
endless_run = refl

read_within-Ended_example : Ended (read_within endless 3 3 100000000 (7, 1, 2))
read_within-Ended_example =
    read_within-Ended endless 3 counts endless-Paced 100000000 2 (7, 1, 2)
      (omega arith, omega arith) (omega arith)
