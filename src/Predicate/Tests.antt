-- ===== src/Predicate/Tests.antt =====
-- A small runtime, and runs of the predicate language on it.
use Prim.Native.Char.{Char, code}
use Prim.Native.String.{String, [], ◌∷◌}
use traceline.Common.{
  ℕ, ◌+◌, ◌*◌, ◌-◌, ◌≡◌, inr, ◌↔◌, refl, List, Bool, true, false, ◌&&◌, ◌||◌, Option, none, some,
  [], ◌∷◌, ok, err, leb, ◌==◌, if◌then◌else◌, str_eq,
}
use traceline.Common.Int.{pos_part, pos}
use traceline.Values.{naive, aware, Python}
use Prim.Native.Nat.{min, max}
use traceline.Values.{Value, bool, int, str, end, datetime}
use traceline.Events.{TraceEvent, proxy, tool_call}
use traceline.Predicate.Tokens.{
  ident, int_number, op, dot, eof, token, value_error, tokenize, syntax, empty_predicate,
}
use traceline.Predicate.Syntax.{
  Node, ne, eq, lt, gt, literal, path, compare, and_node, or_node, not_node,
}
use traceline.Predicate.Eval.{
  bool_and, bool_or, bool_not, path_value, evaluate, holds, type_error, compare_values, attribute,
  resolve_path, resolve_segment,
}
use traceline.Predicate.Compile.{Cel, prototype, compile}
use traceline.Predicate.Compile.Sound.{CompileOutcome, compile_sound}
use traceline.Predicate.Truth.{
  rank, connectives_rank, evaluate-de_morgan, compare_values-flip, flip,
}
use traceline.Predicate.Missing.{MissingRule, missing_rule, missing_ne_passes}
use traceline.Predicate.Datetimes.{
  compare_values-raises_iff, naive_literal_raises, is_order, mixes_kinds,
}

abbrev is_ascii_digit : ℕ → Bool
is_ascii_digit c = leb b'0' c && leb c b'9'

abbrev is_ascii_alpha : ℕ → Bool
is_ascii_alpha c = leb b'a' c && leb c b'z' || leb b'A' c && leb c b'Z'

-- Decimal digits.
decimal : ℕ → String → Option ℕ
decimal n [] = some n
decimal n (c ∷ s) =
    let rest = decimal (n * 10 + (code c - 48)) s in if is_ascii_digit (code c) then rest else none

abbrev some_chr : ℕ → Char
some_chr n = "n"

-- A runtime with no floats but an abstract one, ASCII classes of characters, and two known dates.
abbrev tiny : Python
tiny = record {
  Float = Unit {0};
  float_eq = λ _ _. true;
  float_lt = λ _ _. false;
  int_float_eq = λ _ _. false;
  int_float_lt = λ _ _. true;
  float_int_lt = λ _ _. false;
  to_int = λ s. elim (decimal 0 s) [ none ↦ none | some n ↦ some (pos n) ];
  to_float = λ s. if str_eq s "1e" then none else some tt;
  chr = some_chr;
  from_iso_format = λ s.
      if str_eq s "2026-01-01"
      then some (naive 7)
      else if str_eq s "2026-01-01Z"
      then some (aware 7)
      else none;
  within_millis = λ d ms. leb (pos_part (pos d)) (pos_part ms * 1000);
  is_digit = is_ascii_digit;
  is_alpha = is_ascii_alpha;
  is_blank = λ c. c == 32;
  is_alnum = λ c. is_ascii_alpha c || is_ascii_digit c;
}

tokens_of_comparison :
    tokenize tiny "cost.x >= 10"
    ≡ ok (
        token (ident "cost") 0
        ∷ token dot 4
        ∷ token (ident "x") 5
        ∷ token (op ">=") 7
        ∷ token (int_number (pos 10)) 10
        ∷ token eof 12
        ∷ [])
unfolding tokenize decimal
tokens_of_comparison = refl

bad_float : tokenize tiny "cost.x > 1e" ≡ err value_error
unfolding tokenize decimal
bad_float = refl

-- No CEL.
abbrev no_cel : Cel (Unit {0})
no_cel = record {
  Program = Unit {0};
  compile_cel = λ s. err (syntax 0 empty_predicate);
  run = λ p e. false;
}

-- A tool call at an aware time, with an empty payload.
abbrev sample : TraceEvent (Unit {0})
sample = record {
  event_id = "e1";
  type = tool_call;
  source = proxy;
  timestamp = aware 9;
  sequence = pos 1;
  parent_event_id = none;
  provider_request_id = some "req";
  tool = some "search";
  cost = none;
  redaction_state = record { status = "clean"; rules = [] };
  payload = some end;
}

-- payload.ok
abbrev payload_ok : List String
payload_ok = "payload" ∷ "ok" ∷ []

-- provider_request_id == "req"
abbrev known_request : Node (Unit {0})
known_request = compare eq (path ("provider_request_id" ∷ [])) (literal (str "req"))

compile_sound_example :
    CompileOutcome tiny no_cel
      (compile tiny no_cel prototype "!(cost.x >= 10) && payload.ok == true")
compile_sound_example = compile_sound tiny no_cel "!(cost.x >= 10) && payload.ok == true"

abbrev yes : Value (Unit {0})
yes = str "yes"

abbrev holds_true : Value (Unit {0})
holds_true = bool true

connectives_rank_example :
    (rank (bool_and tiny holds_true yes) ≡ min (rank holds_true) (rank yes))
    × (rank (bool_or tiny holds_true yes) ≡ max (rank holds_true) (rank yes))
    × (rank (bool_not tiny holds_true) ≡ 2 - rank holds_true)
connectives_rank_example = connectives_rank tiny holds_true yes

evaluate-de_morgan_example :
    (evaluate tiny (not_node (and_node known_request (path payload_ok))) sample
      ≡ evaluate tiny (or_node (not_node known_request) (not_node (path payload_ok))) sample)
    × (evaluate tiny (not_node (or_node known_request (path payload_ok))) sample
        ≡ evaluate tiny (and_node (not_node known_request) (not_node (path payload_ok))) sample)
evaluate-de_morgan_example = evaluate-de_morgan tiny known_request (path payload_ok) sample

compare_values-flip_example :
    compare_values tiny lt (int (pos 3)) (int (pos 4))
    ≡ compare_values tiny (flip tiny lt) (int (pos 4)) (int (pos 3))
compare_values-flip_example = compare_values-flip tiny lt (int (pos 3)) (int (pos 4)) tt

-- 5 != payload.ok, where there is no payload.
missing_rule_example :
    MissingRule tiny ne
      (evaluate tiny (literal (int (pos 5))) sample)
      (evaluate tiny (path payload_ok) sample)
      (holds tiny (compare ne (literal (int (pos 5))) (path payload_ok)) sample)
unfolding path_value attribute resolve_path resolve_segment evaluate
missing_rule_example =
    missing_rule tiny ne (literal (int (pos 5))) (path payload_ok) sample (inr refl)

missing_ne_passes_example :
    holds tiny (compare ne (not_node (path payload_ok)) (literal (bool true))) sample ≡ ok true
unfolding path_value attribute resolve_path resolve_segment
missing_ne_passes_example = missing_ne_passes tiny payload_ok true sample refl

compare_values-raises_iff_example :
    (compare_values tiny gt (datetime (aware 9)) (str "2026-01-01") ≡ err type_error)
    ↔ ((is_order gt && mixes_kinds tiny (datetime (aware 9)) (str "2026-01-01")) ≡ true)
compare_values-raises_iff_example =
    compare_values-raises_iff tiny gt (datetime (aware 9)) (str "2026-01-01")

naive_literal_raises_example :
    holds tiny (compare gt (path ("timestamp" ∷ [])) (literal (str "2026-01-01"))) sample
    ≡ err type_error
naive_literal_raises_example =
    naive_literal_raises tiny gt "2026-01-01" sample {t = 9} {u = 7} refl refl refl
