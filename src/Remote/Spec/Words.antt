-- ===== src/Remote/Spec/Words.antt =====
-- Quoted command lines, and the words that a shell reads from them.
use Prim.Native.Char.{Char, char, code}
use Prim.Native.String.append
use text.Mathlib.TextEquality.{Char-path}
use text.Mathlib.TextLemmas.{append_assoc, append-nil}
use sglang_ops_stack.Base.{
  String, ◌<>◌, List, [], ◌∷◌, map, none, some, ◌≡◌, refl, sym, ◌∙◌, ap, subst, true, false,
  Bool-cases, inl, inr, arith, eqb,
}
use sglang_ops_stack.Base.Text.{replace, join}
use sglang_ops_stack.Remote.Spec.{CommandSpec, validate, words, command_line, argv, valid}
use sglang_ops_stack.Remote.Spec.Quote.{is_safe, all_safe, quote}
use sglang_ops_stack.Remote.Spec.Shell.{
  outside, in_single, single_quote, plain, kind, split, shell_words,
}

safe-plain : (c : Char) → is_safe c ≡ true → kind c ≡ plain
unfolding is_safe kind
safe-plain c h = ground arith

append_snoc :
    (acc : String) (c : Char) (w : String)
    → (acc <> String.◌∷◌ c String.[]) <> w ≡ acc <> String.◌∷◌ c w
append_snoc acc c w = simp (append_assoc, append.cons, append.nil)

-- A word of safe characters stands for itself.
split-safe :
    (w acc rest : String)
    → all_safe w ≡ true
    → split outside (some acc) (w <> rest) ≡ split outside (some (acc <> w)) rest
unfolding all_safe split
split-safe String.[] acc rest h = simp (append.nil, append-nil)
split-safe (String.◌∷◌ c w) acc rest h =
    let safe : is_safe c ≡ true = ground arith in
    let more : all_safe w ≡ true = ground arith in
    rw (append.cons c w rest) (
      rw (safe-plain c safe, split)
        (split-safe w _ rest more ∙ ap (λ v. split outside (some v) rest) (append_snoc acc c w)))

abbrev escape : String → String
escape w = replace "'" "'\"'\"'" w

abbrev tick : Char
tick = char 39 tt

kind-other : (c : Char) → eqb 39 (code c) ≡ false → (kind c ≡ single_quote) → ⊥
unfolding kind
kind-other c h e = ground arith

escape-tick : (w : String) → escape (String.◌∷◌ tick w) ≡ "'\"'\"'" <> escape w
unfolding replace
escape-tick w = refl

escape-other :
    (c : Char) (w : String)
    → eqb 39 (code c) ≡ false
    → escape (String.◌∷◌ c w) ≡ String.◌∷◌ c (escape w)
unfolding replace
escape-other c w h = rw h

split-tick :
    (acc rest : String)
    → split in_single (some acc) ("'\"'\"'" <> rest) ≡ split in_single (some (acc <> "'")) rest
unfolding shell_words
split-tick acc rest =
    rw (append.cons, append.cons, append.cons, append.cons, append.cons, append.nil)

split-other :
    (c : Char) (acc rest : String)
    → eqb 39 (code c) ≡ false
    → split in_single (some acc) (String.◌∷◌ c rest)
      ≡ split in_single (some (acc <> String.◌∷◌ c String.[])) rest
unfolding split
split-other c acc rest h = ground (arith, kind-other c h)

-- After the opening quote, the escaped text is read back.
split-escape :
    (w acc rest : String)
    → split in_single (some acc) (escape w <> rest) ≡ split in_single (some (acc <> w)) rest
split-escape String.[] acc rest = unfold replace in simp (append.nil, append-nil)
split-escape (String.◌∷◌ c w) acc rest = elim (Bool-cases (eqb 39 (code c))) [
  | inl e ↦
      let same : tick ≡ c = Char-path tick c (ground arith) in
      subst
        (λ d.
          split in_single (some acc) (escape (String.◌∷◌ d w) <> rest)
          ≡ split in_single (some (acc <> String.◌∷◌ d w)) rest)
        same
        (rw (escape-tick w) (
          rw append_assoc (
            split-tick acc (escape w <> rest)
            ∙ split-escape w (acc <> "'") rest
            ∙ ap (λ v. split in_single (some v) rest) (append_snoc acc tick w))))
  | inr e ↦ rw (escape-other c w e) (
      rw append.cons (
        split-other c acc (escape w <> rest) e
        ∙ split-escape w (acc <> String.◌∷◌ c String.[]) rest
        ∙ ap (λ v. split in_single (some v) rest) (append_snoc acc c w)))
]

split-quoted :
    (w rest : String)
    → split outside none (("'" <> escape w <> "'") <> rest) ≡ split outside (some w) rest
unfolding shell_words
split-quoted w rest =
    rw (append.cons, append.nil, append.cons)
      (rw append_assoc (split-escape w "" ("'" <> rest) ∙ rw (append.nil, append.cons, append.nil)))

safe_cons : (c : Char) (w : String) → all_safe (String.◌∷◌ c w) ≡ true → is_safe c ≡ true
unfolding all_safe
safe_cons c w h = ground arith

all_safe_tail : (c : Char) (w : String) → all_safe (String.◌∷◌ c w) ≡ true → all_safe w ≡ true
unfolding all_safe
all_safe_tail c w h = ground arith

-- A quoted word is read as the word, whatever stands behind it.
split-quote : (w rest : String) → split outside none (quote w <> rest) ≡ split outside (some w) rest
unfolding split
split-quote String.[] rest = unfold shell_words quote in rw (append.cons, append.cons, append.nil)
split-quote (String.◌∷◌ c w) rest = elim (Bool-cases (all_safe (String.◌∷◌ c w))) [
  | inl e ↦
      unfold quote in
      rw (e, append.cons)
        (rw (safe-plain c (safe_cons c w e), split)
          (split-safe w (String.◌∷◌ c String.[]) rest (all_safe_tail c w e)
            ∙ ap (λ v. split outside (some v) rest) (rw (append.cons, append.nil))))
  | inr e ↦ unfold quote in rw e (split-quoted (String.◌∷◌ c w) rest)
]

split-join : (ws : List String) → split outside none (join " " (map quote ws)) ≡ some ws
unfolding join shell_words
split-join [] = refl
split-join (p ∷ []) = ap (split outside none) (sym (append-nil (quote p))) ∙ split-quote p ""
split-join (p ∷ q ∷ ps) =
    split-quote p (" " <> join " " (map quote (q ∷ ps)))
    ∙ rw (append.cons, append.nil) (rw (split-join (q ∷ ps)))

-- A shell that splits the quoted words joined by blanks gets the words, whatever characters they
-- hold: none of them is read as an operator, an expansion or a blank between words.
pub shell_words-quote : (ws : List String) → shell_words (join " " (map quote ws)) ≡ some ws
unfolding shell_words
shell_words-quote ws = split-join ws

-- For every command specification that passes `validate`, `command_line` returns a line which a
-- shell splits into exactly the words of `argv`, for any arguments.
pub shell_words-command_line :
    (s : CommandSpec)
    → validate s ≡ none
    → (line : String) × (command_line s ≡ valid line) × (shell_words line ≡ some (words s))
unfolding command_line argv
shell_words-command_line s h =
    (join " " (map quote (words s)), rw (h, command_line), shell_words-quote (words s))
