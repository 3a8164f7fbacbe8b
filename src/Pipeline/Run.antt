-- ===== src/Pipeline/Run.antt =====
-- `DocumentationPipeline.run` and the loops below it, packages/agents/legacydoc_agents/pipeline.py.
-- The progress reports, the prompts and the selection of context are left out: an agent's function
-- stands for its prompt and the answer of `ProviderRouter.complete`.
use legacy_doc.Common.{
  ℕ, zero, suc, ◌+◌, ◌-◌, Bool, true, false, not, ◌&&◌, ◌||◌, Option, none, some, List, [], ◌∷◌,
  ◌++◌, map, keep, leb, String, str_eq, ◌==◌, if◌then◌else◌, any, find_where, length, take,
}
use legacy_doc.Common.Sorting.{sorted}
use legacy_doc.Plans.{GenerationDepth, runs_improver, runs_verifier}
use legacy_doc.Languages.{LanguageInfo}
use legacy_doc.Chunking.{ParsedFile, CodeChunk}
use legacy_doc.Domain.{
  FindingCategory, complexity, maintainability, correctness, security, performance, testing,
  documentation, SymbolDoc, FindingDraft, FileDocumentation, VerifierOutput,
}
use legacy_doc.Pipeline.{enrich, anchor_findings, dedupe_symbols, same_text, text_le, severity_le}

abbrev same_category : FindingCategory → FindingCategory → Bool
same_category complexity complexity = true
same_category maintainability maintainability = true
same_category correctness correctness = true
same_category security security = true
same_category performance performance = true
same_category testing testing = true
same_category documentation documentation = true
same_category _ _ = false

-- `title.strip().lower()` is `fold`.
abbrev pub same_finding : (String → String) → FindingDraft → FindingDraft → Bool
same_finding fold a b =
    str_eq (fold a.title) (fold b.title)
    && same_category a.category b.category
    && same_text a.symbol_name b.symbol_name

-- The loop of `_dedupe_findings`; `unique` stands for the set of the keys seen as well.
abbrev pub unseen : (String → String) → List FindingDraft → List FindingDraft → List FindingDraft
unseen fold unique [] = unique
unseen fold unique (finding ∷ rest) =
    unseen fold (if any (same_finding fold finding) unique then unique else unique ++ finding ∷ [])
      rest

unfoldable pub dedupe_findings : (String → String) → List FindingDraft → List FindingDraft
dedupe_findings fold findings = sorted severity_le (unseen fold [] findings)

-- What the model vendors answer. `writer` and `improver` are asked for a chunk, `verifier` for a
-- round of the review and the documentation so far, `rewriter` for a rejected symbol in a round.
-- The rewrites of a round run at once, and `ends_at` is the instant at which one of them ends.
pub data Verdict : Type 0 where
  audited : VerifierOutput → Verdict
  unavailable : String → Verdict

pub record Agents : Type 0 where
  pub fold : String → String
  pub writer : CodeChunk → Option (List SymbolDoc)
  pub improver : CodeChunk → Option (List FindingDraft)
  pub verifier : ℕ → List SymbolDoc → Verdict
  pub rewriter : ℕ → SymbolDoc → Option (List SymbolDoc)
  pub ends_at : ℕ → SymbolDoc → ℕ
  pub summarizer : List SymbolDoc → Option String

-- The variables of the loop of `_process_chunks`.
pub record Collected : Type 0 where
  pub symbols : List SymbolDoc
  pub findings : List FindingDraft
  pub discarded : List String
  pub failed : ℕ

abbrev pub take_written : String → CodeChunk → Option (List SymbolDoc) → Collected → Collected
take_written language chunk none c = record c { failed = c.failed + 1 }
take_written language chunk (some symbols) c =
    let (accepted, invented) = enrich symbols chunk language in
    record c { symbols = c.symbols ++ accepted; discarded = c.discarded ++ invented }

abbrev pub take_improved : CodeChunk → Option (List FindingDraft) → Collected → Collected
take_improved chunk none c = c
take_improved chunk (some findings) c =
    let (accepted, unanchored) = anchor_findings findings chunk in
    record c { findings = c.findings ++ accepted; discarded = c.discarded ++ unanchored }

-- With a shallow depth the improver is not asked, and its output is empty.
abbrev pub improved_by : Agents → Bool → CodeChunk → Option (List FindingDraft)
improved_by a wants_findings chunk = if wants_findings then a.improver chunk else some []

unfoldable pub collect : Agents → Bool → String → List CodeChunk → Collected → Collected
collect a wants_findings language [] c = c
collect a wants_findings language (chunk ∷ chunks) c = collect a wants_findings language chunks (
    take_improved chunk (improved_by a wants_findings chunk)
      (take_written language chunk (a.writer chunk) c))

abbrev pub nothing_collected : Collected
nothing_collected = record { symbols = []; findings = []; discarded = []; failed = 0 }

unfoldable pub process_chunks : Agents → Bool → String → List CodeChunk → Collected
process_chunks a wants_findings language chunks =
    let c = collect a wants_findings language chunks nothing_collected in
    record c { symbols = dedupe_symbols c.symbols; findings = dedupe_findings a.fold c.findings }

-- What the candidate of a rewrite keeps of the symbol that it replaces.
abbrev pub rewritten : SymbolDoc → SymbolDoc → SymbolDoc
rewritten symbol candidate = record candidate {
  line_start = symbol.line_start;
  line_end = symbol.line_end;
  language = symbol.language;
  complexity_estimate = symbol.complexity_estimate;
}

-- The last candidate of the symbol's name.
abbrev pub last_candidate : SymbolDoc → Option SymbolDoc → List SymbolDoc → Option SymbolDoc
last_candidate symbol best [] = best
last_candidate symbol best (candidate ∷ rest) =
    last_candidate symbol
      (if str_eq candidate.name symbol.name then some (rewritten symbol candidate) else best) rest

abbrev pub candidate_of : SymbolDoc → Option (List SymbolDoc) → Option SymbolDoc
candidate_of symbol none = none
candidate_of symbol (some candidates) = last_candidate symbol none candidates

abbrev pub add_rewrite : Option SymbolDoc → List SymbolDoc → List SymbolDoc
add_rewrite none done = done
add_rewrite (some fixed) done = fixed ∷ done

-- The dictionary `rewritten`, by name: a rewrite that ends later replaces an earlier one of the same
-- name.
abbrev pub rewrites : Agents → ℕ → List SymbolDoc → List SymbolDoc → List SymbolDoc
rewrites a round done [] = done
rewrites a round done (symbol ∷ targets) =
    rewrites a round (add_rewrite (candidate_of symbol (a.rewriter round symbol)) done) targets

abbrev pub or_symbol : Option SymbolDoc → SymbolDoc → SymbolDoc
or_symbol none symbol = symbol
or_symbol (some fixed) symbol = fixed

abbrev pub replaced_by : List SymbolDoc → SymbolDoc → SymbolDoc
replaced_by done symbol = or_symbol (find_where (λ d. str_eq d.name symbol.name) done) symbol

unfoldable pub rewrite_rejected : Agents → ℕ → VerifierOutput → List SymbolDoc → List SymbolDoc
rewrite_rejected a round audit symbols =
    let targets = keep (λ s. any (str_eq s.name) audit.rejected_symbols) symbols in
    let done = sorted (λ s t. leb (a.ends_at round s) (a.ends_at round t)) targets in
    map (replaced_by (rewrites a round [] done)) symbols

-- The warnings, with their numbers and names.
pub data Warning : Type 0 where
  no_content : Warning
  no_grammar : Warning
  chunks_lost : (failed total : ℕ) → Warning
  invented : List String → Warning
  audit_unavailable : String → Warning
  survived : List String → Warning

pub record PipelineResult : Type 0 where
  pub documentation : FileDocumentation
  pub verifier_feedback : String
  pub verifier_approved : Bool
  pub review_rounds : ℕ
  pub chunks_processed : ℕ
  pub chunks_failed : ℕ
  pub warnings : List Warning

abbrev pub put_symbols : List SymbolDoc → PipelineResult → PipelineResult
put_symbols symbols r = record r { documentation = record r.documentation { symbols = symbols } }

abbrev pub warn : Warning → PipelineResult → PipelineResult
warn w r = record r { warnings = r.warnings ++ w ∷ [] }

abbrev pub no_names : List String → Bool
no_names [] = true
no_names (n ∷ ns) = false

abbrev pub heard : VerifierOutput → PipelineResult → PipelineResult
heard audit r = record r {
  verifier_feedback = audit.feedback_message;
  verifier_approved = audit.approved;
}

abbrev pub again : Agents → ℕ → VerifierOutput → PipelineResult → PipelineResult
again a round audit r =
    put_symbols (rewrite_rejected a round audit r.documentation.symbols)
      (record r { review_rounds = r.review_rounds + 1 })

-- One round of `_review_loop`: it returns, or goes on with what the audit rejected.
abbrev pub after_verdict :
    Verdict → (VerifierOutput → PipelineResult) → PipelineResult → PipelineResult
after_verdict (unavailable message) rejected r = warn (audit_unavailable message) r
after_verdict (audited audit) rejected r =
    if audit.approved || no_names audit.rejected_symbols then heard audit r else rejected audit

-- `_review_loop` from the round `round` on, with `left` rewrites left: the range ends where the loop
-- returns at `round >= max_review_rounds`.
unfoldable pub review_loop : Agents → (left round : ℕ) → PipelineResult → PipelineResult
review_loop a zero round r =
    after_verdict (a.verifier round r.documentation.symbols)
      (λ audit. warn (survived (take 10 audit.rejected_symbols)) (heard audit r)) r
review_loop a (suc left) round r =
    after_verdict (a.verifier round r.documentation.symbols)
      (λ audit. review_loop a left (round + 1) (again a round audit (heard audit r))) r

pub record PipelineOptions : Type 0 where
  pub max_review_rounds : ℕ
  pub generate_summary : Bool
  pub depth : GenerationDepth

abbrev pub summary_of : Agents → List SymbolDoc → String
summary_of a symbols = elim (a.summarizer symbols) [ none ↦ String.[] | some summary ↦ summary ]

abbrev pub first_result : ParsedFile → LanguageInfo → PipelineResult
first_result parsed language = record {
  documentation = record {
    path = parsed.path;
    language = language.name;
    summary = String.[];
    symbols = [];
    findings = [];
  };
  verifier_feedback = String.[];
  verifier_approved = true;
  review_rounds = 0;
  chunks_processed = 0;
  chunks_failed = 0;
  warnings = [];
}

abbrev pub has_symbols : List SymbolDoc → Bool
has_symbols [] = false
has_symbols (s ∷ ss) = true

abbrev pub warn_if : Bool → Warning → PipelineResult → PipelineResult
warn_if b w r = if b then warn w r else r

-- The elements of `set(names)`; it is sorted afterwards.
abbrev pub distinct : List String → List String → List String
distinct seen [] = seen
distinct seen (n ∷ ns) = distinct (if any (str_eq n) seen then seen else n ∷ seen) ns

-- The result once the chunks are through.
unfoldable pub drafted : PipelineResult → (total : ℕ) → Collected → PipelineResult
drafted r total c =
    let counted = record r { chunks_processed = total - c.failed; chunks_failed = c.failed } in
    let warned =
      warn_if (not (no_names c.discarded))
        (invented (take 10 (sorted text_le (distinct [] c.discarded))))
        (warn_if (not (c.failed == 0)) (chunks_lost c.failed total) counted) in
    record warned {
      documentation = record warned.documentation { symbols = c.symbols; findings = c.findings };
    }

abbrev pub reviewed : Agents → PipelineOptions → PipelineResult → PipelineResult
reviewed a options r =
    if has_symbols r.documentation.symbols && runs_verifier options.depth
    then review_loop a options.max_review_rounds 0 r
    else r

-- `symbols` is the list before the review, as in the source.
abbrev pub summarized : Agents → PipelineOptions → List SymbolDoc → PipelineResult → PipelineResult
summarized a options symbols r =
    if options.generate_summary && has_symbols symbols
    then record r { documentation = record r.documentation { summary = summary_of a symbols } }
    else r

-- `run`, for the chunks of the parsed file; `none` is the `ProviderError` that no block was answered.
unfoldable pub run :
    Agents → PipelineOptions → LanguageInfo → ParsedFile → List CodeChunk → Option PipelineResult
run a options language parsed [] = some (warn no_content (first_result parsed language))
run a options language parsed (chunk ∷ chunks) =
    let total = length (chunk ∷ chunks) in
    let c = process_chunks a (runs_improver options.depth) language.display_name (chunk ∷ chunks) in
    let start = warn_if parsed.parse_failed no_grammar (first_result parsed language) in
    if c.failed == total
    then none
    else some (summarized a options c.symbols (reviewed a options (drafted start total c)))
