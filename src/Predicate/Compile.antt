-- ===== src/Predicate/Compile.antt =====
-- The class Predicate of predicates.py: `compile` and `evaluate` in both languages. CEL is the
-- package celpy, a parameter: how it compiles a text, and what a run of it on an event returns, with
-- False for every exception, as `evaluate` has it.
pub mod Sound
use Prim.Native.Char.{Char, code}
use Prim.Native.String
use Prim.Native.String.{String, [], ◌∷◌}
use text.Mathlib.Text.{find?}
use traceline.Common.{
  Bool, true, ◌&&◌, List, [], ◌∷◌, Result, ok, err, ◌>>=◌, is_some, any, if◌then◌else◌,
}
use traceline.Values.{Python}
use traceline.Events.{TraceEvent}
use traceline.Predicate.Tokens.{CompileError, syntax, empty_predicate, tokenize}
use traceline.Predicate.Syntax.{Node}
use traceline.Predicate.Parser.{parse}
use traceline.Predicate.Eval.{PyError, holds}

pub record Cel (F : Type 0) : Type 1 where
  pub Program : Type 0
  pub compile_cel : String → Result CompileError Program
  pub run : Program → TraceEvent F → Bool

pub data Language : Type 0 where
  prototype cel : Language

pub data Predicate (F P : Type 0) : Type 0 where
  tree : Node F → Predicate F P
  program : P → Predicate F P

-- marker in text
abbrev pub has_text : String → String → Bool
has_text s marker = is_some (find? s marker)

-- _CEL_MARKERS
abbrev pub cel_markers : List String
cel_markers = "[" ∷ "has(" ∷ "size(" ∷ "matches(" ∷ "contains_secret(" ∷ " in " ∷ []

unfoldable pub needs_cel : String → Bool
needs_cel s = any (has_text s) cel_markers

module _ (py : Python) (celpy : Cel py.Float) where
  open py use {Float, is_blank}
  open celpy use {Program, compile_cel, run}

  -- not text.strip()
  abbrev pub is_blank_text : String → Bool
  is_blank_text [] = true
  is_blank_text (c ∷ s) = is_blank (code c) && is_blank_text s

  abbrev pub map_result : {A B : Type 0} → (A → B) → Result CompileError A → Result CompileError B
  map_result f m = m >>= λ a. ok (f a)

  unfoldable pub with_language : Language → String → Result CompileError (Predicate Float Program)
  unfolding tokenize parse
  with_language cel s = map_result program (compile_cel s)
  with_language prototype s = map_result tree (tokenize py s >>= parse)

  unfoldable pub compile : Language → String → Result CompileError (Predicate Float Program)
  unfolding with_language
  compile l s = if is_blank_text s then err (syntax 0 empty_predicate) else with_language l s

  unfoldable pub evaluate_predicate :
      Predicate Float Program → TraceEvent Float → Result PyError Bool
  unfolding holds
  evaluate_predicate (tree n) e = holds py n e
  evaluate_predicate (program p) e = ok (run p e)
