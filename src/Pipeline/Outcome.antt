-- ===== src/Pipeline/Outcome.antt =====
-- When `run` has a result, and how it counts the blocks.
use legacy_doc.Common.{
  ℕ, ◌+◌, ◌-◌, ◌≤◌, ◌≢◌, take, arith, ◌≡◌, refl, Bool, true, false, not, ◌&&◌, Bool-cases, inl, inr,
  ◌⊎◌, Option, some, none, List, [], ◌∷◌, String, is_none, if◌then◌else◌, if_true, if_false, count,
  count-split, length, ◌==◌,
}
use legacy_doc.Common.Sorting.{sorted}
use legacy_doc.Pipeline.{text_le}
use legacy_doc.Plans.{runs_improver, runs_verifier}
use legacy_doc.Chunking.{CodeChunk, ParsedFile}
use legacy_doc.Languages.{LanguageInfo}
use legacy_doc.Domain.{SymbolDoc, FindingDraft}
use legacy_doc.Pipeline.Run.{
  Agents, Collected, take_written, take_improved, improved_by, collect, nothing_collected,
  process_chunks, PipelineResult, PipelineOptions, Warning, distinct, drafted, reviewed, summarized,
  warn_if, no_grammar, first_result, has_symbols, run, no_names, invented, chunks_lost,
}
use legacy_doc.Pipeline.Review.{review_loop-keeps}

-- The writer gave no answer for a block.
abbrev pub unanswered : Agents → CodeChunk → Bool
unanswered a chunk = is_none (a.writer chunk)

take_written-failed :
    (language : String) (chunk : CodeChunk) (o : Option (List SymbolDoc)) (c : Collected)
    → (take_written language chunk o c).failed ≡ c.failed + (if is_none o then 1 else 0)
take_written-failed language chunk none c = refl
take_written-failed language chunk (some symbols) c = omega arith

take_improved-failed :
    (chunk : CodeChunk) (o : Option (List FindingDraft)) (c : Collected)
    → (take_improved chunk o c).failed ≡ c.failed
take_improved-failed chunk none c = refl
take_improved-failed chunk (some findings) c = refl

collect-failed :
    (a : Agents) (wants : Bool) (language : String) (chunks : List CodeChunk) (c : Collected)
    → (collect a wants language chunks c).failed ≡ c.failed + count (unanswered a) chunks
unfolding collect
collect-failed a wants language [] c = omega arith
collect-failed a wants language (chunk ∷ chunks) c =
    let written = take_written language chunk (a.writer chunk) c in
    let next = take_improved chunk (improved_by a wants chunk) written in
    omega (
      arith,
      collect-failed a wants language chunks next,
      take_improved-failed chunk (improved_by a wants chunk) written,
      take_written-failed language chunk (a.writer chunk) c,
    )

process_chunks-failed :
    (a : Agents) (wants : Bool) (language : String) (chunks : List CodeChunk)
    → (process_chunks a wants language chunks).failed ≡ count (unanswered a) chunks
unfolding process_chunks
process_chunks-failed a wants language chunks =
    omega (arith, collect-failed a wants language chunks nothing_collected)

abbrev Counts : ℕ → ℕ → PipelineResult → Type 0
Counts processed failed r = (r.chunks_processed ≡ processed) × (r.chunks_failed ≡ failed)

warn_if-Counts :
    (p f : ℕ) (b : Bool) (w : Warning) (r : PipelineResult)
    → Counts p f r
    → Counts p f (warn_if b w r)
warn_if-Counts p f true w r h = h
warn_if-Counts p f false w r h = h

drafted-Counts :
    (r : PipelineResult) (total : ℕ) (c : Collected)
    → Counts (total - c.failed) c.failed (drafted r total c)
unfolding drafted
drafted-Counts r total c =
    let counted = record r { chunks_processed = total - c.failed; chunks_failed = c.failed } in
    let lost = not (c.failed == 0) in
    warn_if-Counts (total - c.failed) c.failed (not (no_names c.discarded))
      (invented (take 10 (sorted text_le (distinct [] c.discarded))))
      (warn_if lost (chunks_lost c.failed total) counted)
      (warn_if-Counts (total - c.failed) c.failed lost (chunks_lost c.failed total) counted
        (refl, refl))

reviewed-Counts :
    (p f : ℕ) (a : Agents) (options : PipelineOptions) (r : PipelineResult)
    → Counts p f r
    → Counts p f (reviewed a options r)
reviewed-Counts p f a options r h =
    elim (Bool-cases (has_symbols r.documentation.symbols && runs_verifier options.depth)) [
      | inl e ↦ rw e (
          review_loop-keeps (Counts p f) (λ w q k. k) (λ audit q k. k) a (λ n audit q k. k)
            options.max_review_rounds 0 r h)
      | inr e ↦ rw e h
    ]

summarized-Counts :
    (p f : ℕ) (a : Agents) (options : PipelineOptions) (symbols : List SymbolDoc)
    (r : PipelineResult)
    → Counts p f r
    → Counts p f (summarized a options symbols r)
summarized-Counts p f a options symbols r h =
    elim (Bool-cases (options.generate_summary && has_symbols symbols)) [
      | inl e ↦ rw e h
      | inr e ↦ rw e h
    ]

-- A file with blocks fails exactly when the writer answers for none of them; else there is a result,
-- in which the blocks processed are those answered and those failed are the others.
pub run_outcome :
    (a : Agents) (options : PipelineOptions) (language : LanguageInfo) (parsed : ParsedFile)
    (chunk : CodeChunk) (chunks : List CodeChunk)
    → let blocks = chunk ∷ chunks in
      let answered = count (λ c. not (unanswered a c)) blocks in
      ((answered ≡ 0) × (run a options language parsed blocks ≡ none))
      ⊎ ((1 ≤ answered)
          × (r : PipelineResult) × (run a options language parsed blocks ≡ some r)
          × (r.chunks_processed ≡ answered)
          × (r.chunks_processed + r.chunks_failed ≡ length blocks))
unfolding run
run_outcome a options language parsed chunk chunks =
    let blocks = chunk ∷ chunks in
    let total = length blocks in
    let c = process_chunks a (runs_improver options.depth) language.display_name blocks in
    let start = warn_if parsed.parse_failed no_grammar (first_result parsed language) in
    let r = summarized a options c.symbols (reviewed a options (drafted start total c)) in
    let split = count-split (unanswered a) blocks in
    let lost : c.failed ≡ count (unanswered a) blocks =
      process_chunks-failed a (runs_improver options.depth) language.display_name blocks in
    elim (Bool-cases (c.failed == total)) [
      | inl e ↦
          let all : c.failed ≡ total = ground (arith, e) in
          inl (omega (arith, split, lost, all), if_true (c.failed == total) none (some r) e)
      | inr e ↦
          let some_left : c.failed ≢ total = ground (arith, e) in
          let counts =
            summarized-Counts (total - c.failed) c.failed a options c.symbols
              (reviewed a options (drafted start total c))
              (reviewed-Counts (total - c.failed) c.failed a options (drafted start total c)
                (drafted-Counts start total c)) in
          inr (
            omega (arith, split, lost, some_left),
            r,
            if_false (c.failed == total) none (some r) e,
            omega (arith, split, lost, counts.0),
            omega (arith, split, lost, counts.0, counts.1),
          )
    ]
