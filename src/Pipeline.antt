-- ===== src/Pipeline.antt =====
-- The agents over one file: packages/agents/legacydoc_agents/pipeline.py. What an agent answers to
-- the prompts that the source renders for it is a function (Agents); `none` is an exception of its
-- call.
pub mod Anchoring
pub mod Dedupe
pub mod Run
pub mod Review
pub mod Grounded
pub mod Outcome
mod Tests
use Prim.Native.String.{compare as compare_text}
use Prim.Native.Nat.{Ordering}
use legacy_doc.Common.{
  ℕ, zero, suc, ◌+◌, ◌-◌, Bool, true, false, not, ◌&&◌, ◌||◌, Option, none, some, List, [], ◌∷◌,
  ◌++◌, map, String, str_eq, ltb, leb, ◌==◌, if◌then◌else◌, is_none, any, find_where, length, take,
  chars, append, split,
}
use legacy_doc.Common.Sorting.{sorted}
use legacy_doc.Plans.{GenerationDepth, runs_improver, runs_verifier}
use legacy_doc.Chunking.{SymbolSpan, ParsedFile, CodeChunk}
use legacy_doc.Domain.{
  FindingCategory, Severity, info, low, medium, high, critical, SymbolDoc, FindingDraft,
  FileDocumentation, VerifierOutput,
}

abbrev pub is_blank : String → Bool
is_blank text = str_eq text String.[]

-- The truth of an optional text.
abbrev pub is_given : Option String → Bool
is_given none = false
is_given (some text) = not (is_blank text)

abbrev pub either : Option String → Option String → Option String
either a b = if is_given a then a else b

-- `text.rsplit(".", 1)[-1]`; the full stop is 46.
abbrev last_of : String → List String → String
last_of d [] = d
last_of d (s ∷ ss) = last_of s ss

abbrev last_segment : String → String
last_segment text = last_of text (split 46 text)

abbrev dotted : String → String → String
dotted parent name = append parent (append "." name)

-- `_spans_by_name`: a dictionary whose later entries hide the earlier ones, the newest first.
abbrev pub Spans : Type 0
Spans = List (String × SymbolSpan)

abbrev pub names_of : SymbolSpan → List String
names_of span = elim span.parent [
  | none ↦ span.name ∷ []
  | some parent ↦
      if is_blank parent
      then span.name ∷ []
      else dotted (last_segment parent) span.name ∷ dotted parent span.name ∷ span.name ∷ []
]

unfoldable pub spans_by_name : List SymbolSpan → Spans → Spans
spans_by_name [] spans = spans
spans_by_name (span ∷ rest) spans =
    spans_by_name rest (map (λ name. (name, span)) (names_of span) ++ spans)

abbrev pub get_span : String → Spans → Option SymbolSpan
get_span name [] = none
get_span name ((key, span) ∷ spans) = if str_eq key name then some span else get_span name spans

-- What `_enrich` writes from the span of the parser.
abbrev pub anchored : SymbolSpan → SymbolDoc → SymbolDoc
anchored span symbol = record symbol {
  name = span.name;
  line_start = span.line_start;
  line_end = span.line_end;
  complexity_estimate = some span.complexity;
  parent = either span.parent symbol.parent;
  signature = if is_blank symbol.signature then span.signature else symbol.signature;
}

-- One round of the loop of `_enrich`: what is accepted, and the names of what is discarded.
abbrev pub anchor_symbol :
    Option SymbolSpan → SymbolDoc → List SymbolDoc × List String → List SymbolDoc × List String
anchor_symbol none symbol (accepted, discarded) = (accepted, symbol.name ∷ discarded)
anchor_symbol (some span) symbol (accepted, discarded) =
    (anchored span symbol ∷ accepted, discarded)

abbrev pub anchor_symbols : Spans → List SymbolDoc → List SymbolDoc × List String
anchor_symbols spans [] = ([], [])
anchor_symbols spans (symbol ∷ rest) =
    anchor_symbol (get_span symbol.name spans) symbol (anchor_symbols spans rest)

abbrev pub with_language : String → SymbolDoc → SymbolDoc
with_language language symbol = record symbol {
  language = if is_blank symbol.language then language else symbol.language;
}

-- A chunk of lines, without symbols, accepts everything.
abbrev pub enrich_in : List SymbolSpan → List SymbolDoc → List SymbolDoc × List String
enrich_in [] symbols = (symbols, [])
enrich_in (s ∷ ss) symbols = anchor_symbols (spans_by_name (s ∷ ss) []) symbols

unfoldable pub enrich : List SymbolDoc → CodeChunk → String → List SymbolDoc × List String
enrich symbols chunk language = enrich_in chunk.symbols (map (with_language language) symbols)

abbrev pub unplaced : FindingDraft → FindingDraft
unplaced finding = record finding { line_start = none; line_end = none }

abbrev pub placed : SymbolSpan → FindingDraft → FindingDraft
placed span finding = record finding {
  symbol_name = some span.name;
  line_start = some span.line_start;
  line_end = some span.line_end;
}

abbrev pub anchor_named :
    Option SymbolSpan
    → String
    → FindingDraft
    → List FindingDraft × List String
    → List FindingDraft × List String
anchor_named none name finding (accepted, discarded) = (accepted, name ∷ discarded)
anchor_named (some span) name finding (accepted, discarded) =
    (placed span finding ∷ accepted, discarded)

-- One round of the loop of `_anchor_findings`.
abbrev pub anchor_finding :
    Spans
    → Option String
    → FindingDraft
    → List FindingDraft × List String
    → List FindingDraft × List String
anchor_finding spans none finding (accepted, discarded) = (unplaced finding ∷ accepted, discarded)
anchor_finding spans (some name) finding (accepted, discarded) =
    if is_blank name
    then (unplaced finding ∷ accepted, discarded)
    else anchor_named (get_span name spans) name finding (accepted, discarded)

abbrev pub anchor_all : Spans → List FindingDraft → List FindingDraft × List String
anchor_all spans [] = ([], [])
anchor_all spans (finding ∷ rest) =
    anchor_finding spans finding.symbol_name finding (anchor_all spans rest)

abbrev pub anchor_in : List SymbolSpan → List FindingDraft → List FindingDraft × List String
anchor_in [] findings = (findings, [])
anchor_in (s ∷ ss) findings = anchor_all (spans_by_name (s ∷ ss) []) findings

unfoldable pub anchor_findings : List FindingDraft → CodeChunk → List FindingDraft × List String
anchor_findings findings chunk = anchor_in chunk.symbols findings

-- `_dedupe_symbols`: the dictionary `best`, in the order of insertion.
abbrev pub same_text : Option String → Option String → Bool
same_text none none = true
same_text (some a) (some b) = str_eq a b
same_text _ _ = false

abbrev pub same_key : SymbolDoc → SymbolDoc → Bool
same_key a b = str_eq a.name b.name && same_text a.parent b.parent

abbrev pub longer : SymbolDoc → SymbolDoc → SymbolDoc
longer symbol current =
    if ltb (chars current.description) (chars symbol.description) then symbol else current

unfoldable pub put_best : SymbolDoc → List SymbolDoc → List SymbolDoc
put_best symbol [] = symbol ∷ []
put_best symbol (current ∷ best) =
    if same_key current symbol then longer symbol current ∷ best else current ∷ put_best symbol best

abbrev pub best_of : List SymbolDoc → List SymbolDoc → List SymbolDoc
best_of best [] = best
best_of best (symbol ∷ rest) = best_of (put_best symbol best) rest

-- The order of the key `(line_start, name)`.
abbrev pub text_le : String → String → Bool
text_le a b = elim (compare_text a b) [ Ordering.gt ↦ false | _ ↦ true ]

abbrev pub symbol_le : SymbolDoc → SymbolDoc → Bool
symbol_le a b =
    ltb a.line_start b.line_start || (a.line_start == b.line_start && text_le a.name b.name)

unfoldable pub dedupe_symbols : List SymbolDoc → List SymbolDoc
dedupe_symbols symbols = sorted symbol_le (best_of [] symbols)

abbrev pub severity_order : Severity → ℕ
severity_order critical = 0
severity_order high = 1
severity_order medium = 2
severity_order low = 3
severity_order info = 4

abbrev pub severity_le : FindingDraft → FindingDraft → Bool
severity_le a b = leb (severity_order a.severity) (severity_order b.severity)
