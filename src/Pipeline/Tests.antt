-- ===== src/Pipeline/Tests.antt =====
-- A file with two functions, agents that answer, and the properties at them.
use legacy_doc.Common.{
  ℕ, ◌+◌, ◌≤◌, arith, ◌≡◌, refl, Bool, true, false, not, Option, some, none, List, [], ◌∷◌, map,
  String, All, count, ◌⊎◌, ◌==◌, clip, split,
}
use legacy_doc.Common.Sorting.{IsAscending, sorted}
use Prim.Native.Char.{Char, code}
use legacy_doc.Plans.{GenerationDepth, runs_improver, runs_verifier}
use legacy_doc.Chunking.{
  SymbolSpan, ParsedFile, CodeChunk, build_chunks, pack_symbol, flush, make_chunk, estimate_tokens,
  file_header,
}
use legacy_doc.Languages.{LanguageInfo}
use legacy_doc.Domain.{SymbolDoc, VerifierOutput}
use legacy_doc.Pipeline.{dedupe_symbols, enrich, spans_by_name, put_best, anchor_findings}
use legacy_doc.Pipeline.Anchoring.{IsGrounded}
use legacy_doc.Pipeline.Dedupe.{entries, best_for, IsLongest, dedupe_symbols_best}
use legacy_doc.Pipeline.Run.{
  Agents, audited, PipelineOptions, PipelineResult, run, review_loop, process_chunks, collect,
  drafted, rewrite_rejected, dedupe_findings, first_result,
}
use legacy_doc.Pipeline.Review.{review_loop_bounded, rewrite_rejected_collapses}
use legacy_doc.Pipeline.Grounded.{run-IsGrounded}
use legacy_doc.Pipeline.Outcome.{run_outcome, unanswered}

abbrev span : String → ℕ → ℕ → SymbolSpan
span name first last = record {
  name = name;
  kind = "function";
  source = "def f(): pass";
  line_start = first;
  line_end = last;
  byte_start = 0;
  byte_end = 13;
  parent = none;
  signature = "def f()";
  complexity = 1;
}

abbrev parsed : ParsedFile
parsed = record {
  path = "a.py";
  language = "python";
  source = "def f(): pass";
  symbols = span "f" 1 1 ∷ span "g" 3 4 ∷ [];
  parse_failed = false;
}

abbrev doc : String → String → SymbolDoc
doc name description = record {
  name = name;
  kind = "function";
  signature = "";
  language = "";
  line_start = 0;
  line_end = 0;
  summary = name;
  description = description;
  parameters = [];
  return_type = none;
  return_description = none;
  raises = [];
  side_effects = [];
  complexity_estimate = none;
  parent = none;
}

-- The writer documents `g` twice and makes up `h`; the auditor rejects `g` in each round.
abbrev agents : Agents
agents = record {
  fold = λ title. title;
  writer = λ chunk. some (doc "g" "short" ∷ doc "h" "made up" ∷ doc "g" "much longer" ∷ []);
  improver = λ chunk. none;
  verifier = λ round symbols. audited (record {
    approved = false;
    rejected_symbols = "g" ∷ [];
    audit_notes = "";
    feedback_message = "";
  });
  rewriter = λ round symbol. some (doc symbol.name "rewritten" ∷ []);
  ends_at = λ round symbol. symbol.line_start;
  summarizer = λ symbols. none;
}

abbrev options : PipelineOptions
options = record { max_review_rounds = 1; generate_summary = true; depth = GenerationDepth.pro }

abbrev python : LanguageInfo
python = record {
  name = "python";
  display_name = "Python";
  line_comment = "#";
  block_comment = none;
}

abbrev space : Char → Bool
space c = code c == 32

abbrev blocks : List CodeChunk
blocks = build_chunks space parsed 6000 true

abbrev drafts : List SymbolDoc
drafts = doc "g" "short" ∷ doc "h" "other" ∷ doc "g" "much longer" ∷ []

longest_kept : map (λ d. d.description) (dedupe_symbols drafts) ≡ "much longer" ∷ "other" ∷ []
unfolding dedupe_symbols put_best sorted
longest_kept = refl

dedupe_symbols_best_example :
    (entries (doc "g" "") (dedupe_symbols drafts) ≡ 1)
    × All (λ d. best_for d none drafts ≡ some d) (dedupe_symbols drafts)
    × All (IsLongest drafts) (dedupe_symbols drafts)
    × IsAscending (λ d. d.line_start) (dedupe_symbols drafts)
dedupe_symbols_best_example = dedupe_symbols_best drafts (doc "g" "")

abbrev first_block : CodeChunk
first_block = record {
  index = 0;
  source = "def f(): pass";
  symbols = parsed.symbols;
  line_start = 1;
  line_end = 4;
  truncated = false;
}

run_outcome_example :
    let answered = count (λ c. not (unanswered agents c)) (first_block ∷ []) in
    ((answered ≡ 0) × (run agents options python parsed (first_block ∷ []) ≡ none))
    ⊎ ((1 ≤ answered)
        × (r : PipelineResult) × (run agents options python parsed (first_block ∷ []) ≡ some r)
        × (r.chunks_processed ≡ answered)
        × (r.chunks_processed + r.chunks_failed ≡ 1))
run_outcome_example = run_outcome agents options python parsed first_block []

abbrev result : PipelineResult
result = record (first_result parsed python) {
  documentation = record {
    path = "a.py";
    language = "python";
    summary = "";
    symbols = doc "f" "fine" ∷ doc "g" "wrong" ∷ [];
    findings = [];
  };
}

review_loop_bounded_example :
    ((review_loop agents 1 0 result).review_rounds ≤ 1)
    × (map (λ s. s.name) (review_loop agents 1 0 result).documentation.symbols ≡ "f" ∷ "g" ∷ [])
review_loop_bounded_example = review_loop_bounded agents 1 0 result

one_rewrite : (review_loop agents 1 0 result).review_rounds ≡ 1
unfolding review_loop rewrite_rejected
one_rewrite = refl

abbrev method : String → ℕ → SymbolDoc
method class line = record (doc "run" class) {
  parent = some class;
  line_start = line;
  line_end = line + 5;
}

abbrev rejecting : VerifierOutput
rejecting = record {
  approved = false;
  rejected_symbols = "run" ∷ [];
  audit_notes = "";
  feedback_message = "";
}

abbrev replacement : SymbolDoc
replacement = record (doc "run" "rewritten") { line_start = 90; line_end = 95 }

rewrite_rejected_collapses_example :
    (rewrite_rejected agents 0 rejecting (method "A" 10 ∷ method "B" 90 ∷ [])
      ≡ replacement ∷ replacement ∷ [])
    × (rewrite_rejected agents 0 rejecting (method "B" 90 ∷ method "A" 10 ∷ [])
        ≡ replacement ∷ replacement ∷ [])
    × (replacement.line_start ≡ 90)
    × (replacement.line_end ≡ 95)
rewrite_rejected_collapses_example =
    rewrite_rejected_collapses agents 0 rejecting (method "A" 10) (method "B" 90) replacement refl
      refl (omega arith) refl

abbrev result_of : Option PipelineResult → PipelineResult
result_of none = result
result_of (some r) = r

abbrev grounded_result : PipelineResult
grounded_result = result_of (run agents options python parsed blocks)

some_result : run agents options python parsed blocks ≡ some grounded_result
unfolding run build_chunks pack_symbol flush make_chunk estimate_tokens file_header process_chunks
    collect drafted enrich spans_by_name dedupe_symbols put_best sorted dedupe_findings review_loop
    rewrite_rejected split clip anchor_findings runs_improver runs_verifier
some_result = refl

-- `h` is discarded, and `g` is rewritten once and anchored.
documented : map (λ d. d.description) grounded_result.documentation.symbols ≡ "rewritten" ∷ []
unfolding run build_chunks pack_symbol flush make_chunk estimate_tokens file_header process_chunks
    collect drafted enrich spans_by_name dedupe_symbols put_best sorted dedupe_findings review_loop
    rewrite_rejected split clip anchor_findings runs_improver runs_verifier
documented = refl

run-IsGrounded_example : All (IsGrounded parsed.symbols) grounded_result.documentation.symbols
run-IsGrounded_example =
    run-IsGrounded space agents options python parsed 6000 (span "f" 1 1) (span "g" 3 4 ∷ [])
      grounded_result refl some_result
