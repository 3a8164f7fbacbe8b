-- ===== src/Pipeline/Grounded.antt =====
-- From the parsed file to the result: no invented symbol is documented.
use legacy_doc.Common.{
  ℕ, ◌≡◌, refl, sym, ◌∙◌, subst, Bool, true, ◌&&◌, Bool-cases, inl, inr, Option, some, none,
  some_inj, some≢none, List, [], ◌∷◌, String, In, All, All-imp, All-join, All-parts, In-All,
  if_true, if_false, length, ◌==◌,
}
use Prim.Native.Char.{Char}
use legacy_doc.Plans.{runs_improver, runs_verifier}
use legacy_doc.Chunking.{
  SymbolSpan, CodeChunk, ParsedFile, build_chunks, make_chunk, make_oversized_chunk, header_of,
  budget_of,
}
use legacy_doc.Chunking.Packed.{Fits, symbols_of}
use legacy_doc.Chunking.Partition.{build_chunks-IsPacked}
use legacy_doc.Languages.{LanguageInfo}
use legacy_doc.Domain.{SymbolDoc, FindingDraft}
use legacy_doc.Pipeline.{enrich}
use legacy_doc.Pipeline.Anchoring.{IsGrounded, enrich-IsGrounded, In-self}
use legacy_doc.Pipeline.Dedupe.{dedupe_symbols-All}
use legacy_doc.Pipeline.Review.{review_loop-keeps, rewrite_rejected-IsGrounded}
use legacy_doc.Pipeline.Run.{
  Agents, Collected, take_written, take_improved, improved_by, collect, nothing_collected,
  process_chunks, PipelineResult, PipelineOptions, drafted, reviewed, summarized, warn_if,
  no_grammar, first_result, has_symbols, run, review_loop,
}

-- A block with symbols, all of them among the given ones.
abbrev IsPart : List SymbolSpan → CodeChunk → Type 0
IsPart all c =
    ((s : SymbolSpan) × (ss : List SymbolSpan) × (c.symbols ≡ s ∷ ss))
    × All (λ s. In s all) c.symbols

IsGrounded-part :
    (part all : List SymbolSpan) (d : SymbolDoc)
    → All (λ s. In s all) part
    → IsGrounded part d
    → IsGrounded all d
IsGrounded-part part all d h g = (g.0, In-All (λ s. In s all) g.0 part g.1 h, g.2, g.3, g.4)

take_written-IsGrounded :
    (all : List SymbolSpan) (language : String) (chunk : CodeChunk) (o : Option (List SymbolDoc))
    (c : Collected)
    → IsPart all chunk
    → All (IsGrounded all) c.symbols
    → All (IsGrounded all) (take_written language chunk o c).symbols
take_written-IsGrounded all language chunk none c h k = k
take_written-IsGrounded all language chunk (some symbols) c h k =
    All-join (IsGrounded all) c.symbols (enrich symbols chunk language).0 k (
      All-imp (IsGrounded chunk.symbols) (IsGrounded all) (enrich symbols chunk language).0
        (λ d g. IsGrounded-part chunk.symbols all d h.1 g)
        (enrich-IsGrounded symbols chunk language h.0.0 h.0.1 h.0.2))

take_improved-symbols :
    (chunk : CodeChunk) (o : Option (List FindingDraft)) (c : Collected)
    → (take_improved chunk o c).symbols ≡ c.symbols
take_improved-symbols chunk none c = refl
take_improved-symbols chunk (some findings) c = refl

collect-IsGrounded :
    (all : List SymbolSpan) (a : Agents) (wants : Bool) (language : String)
    (chunks : List CodeChunk) (c : Collected)
    → All (IsPart all) chunks
    → All (IsGrounded all) c.symbols
    → All (IsGrounded all) (collect a wants language chunks c).symbols
unfolding collect
collect-IsGrounded all a wants language [] c h k = k
collect-IsGrounded all a wants language (chunk ∷ chunks) c h k =
    let written = take_written language chunk (a.writer chunk) c in
    collect-IsGrounded all a wants language chunks
      (take_improved chunk (improved_by a wants chunk) written) h.1
      (subst (All (IsGrounded all))
        (sym (take_improved-symbols chunk (improved_by a wants chunk) written))
        (take_written-IsGrounded all language chunk (a.writer chunk) c h.0 k))

process_chunks-IsGrounded :
    (all : List SymbolSpan) (a : Agents) (wants : Bool) (language : String)
    (chunks : List CodeChunk)
    → All (IsPart all) chunks
    → All (IsGrounded all) (process_chunks a wants language chunks).symbols
unfolding process_chunks
process_chunks-IsGrounded all a wants language chunks h =
    dedupe_symbols-All (IsGrounded all) (collect a wants language chunks nothing_collected).symbols
      (collect-IsGrounded all a wants language chunks nothing_collected h tt)

abbrev Documents : List SymbolSpan → PipelineResult → Type 0
Documents all r = All (IsGrounded all) r.documentation.symbols

reviewed-Documents :
    (all : List SymbolSpan) (a : Agents) (options : PipelineOptions) (r : PipelineResult)
    → Documents all r
    → Documents all (reviewed a options r)
reviewed-Documents all a options r h =
    elim (Bool-cases (has_symbols r.documentation.symbols && runs_verifier options.depth)) [
      | inl e ↦
          subst (Documents all)
            (sym (
              if_true (has_symbols r.documentation.symbols && runs_verifier options.depth)
                (review_loop a options.max_review_rounds 0 r) r e))
            (review_loop-keeps (Documents all) (λ w q k. k) (λ audit q k. k) a
              (λ n audit q k. rewrite_rejected-IsGrounded all a n audit q.documentation.symbols k)
              options.max_review_rounds 0 r h)
      | inr e ↦
          subst (Documents all)
            (sym (
              if_false (has_symbols r.documentation.symbols && runs_verifier options.depth)
                (review_loop a options.max_review_rounds 0 r) r e))
            h
    ]

summarized-Documents :
    (all : List SymbolSpan) (a : Agents) (options : PipelineOptions) (symbols : List SymbolDoc)
    (r : PipelineResult)
    → Documents all r
    → Documents all (summarized a options symbols r)
summarized-Documents all a options symbols r h =
    elim (Bool-cases (options.generate_summary && has_symbols symbols)) [
      | inl e ↦ rw (e, Documents) h
      | inr e ↦ rw (e, Documents) h
    ]

drafted-Documents :
    (all : List SymbolSpan) (r : PipelineResult) (total : ℕ) (c : Collected)
    → All (IsGrounded all) c.symbols
    → Documents all (drafted r total c)
unfolding drafted
drafted-Documents all r total c h = h

run-Documents :
    (all : List SymbolSpan) (a : Agents) (options : PipelineOptions) (language : LanguageInfo)
    (parsed : ParsedFile) (chunks : List CodeChunk) (r : PipelineResult)
    → All (IsPart all) chunks
    → run a options language parsed chunks ≡ some r
    → Documents all r
unfolding run
run-Documents all a options language parsed [] r h e = subst (Documents all) (some_inj e) tt
run-Documents all a options language parsed (chunk ∷ chunks) r h e =
    let blocks = chunk ∷ chunks in
    let c = process_chunks a (runs_improver options.depth) language.display_name blocks in
    let start = warn_if parsed.parse_failed no_grammar (first_result parsed language) in
    let done =
      summarized a options c.symbols (reviewed a options (drafted start (length blocks) c)) in
    elim (Bool-cases (c.failed == length blocks)) [
      | inl f ↦ absurd (some≢none (sym e ∙ if_true (c.failed == length blocks) none (some done) f))
      | inr f ↦
          subst (Documents all)
            (some_inj (sym (if_false (c.failed == length blocks) none (some done) f) ∙ e))
            (summarized-Documents all a options c.symbols
              (reviewed a options (drafted start (length blocks) c))
              (reviewed-Documents all a options (drafted start (length blocks) c) (
                drafted-Documents all start (length blocks) c (
                  process_chunks-IsGrounded all a (runs_improver options.depth)
                    language.display_name blocks h))))
    ]

Fits-IsPart :
    (all : List SymbolSpan) (header : String) (budget : ℕ) (c : CodeChunk)
    → Fits header budget c
    → All (λ s. In s all) c.symbols
    → IsPart all c
unfolding make_chunk make_oversized_chunk
Fits-IsPart all header budget _ (Fits.whole _ _ index s ss h) k = ((s, ss, refl), k)
Fits-IsPart all header budget _ (Fits.alone _ _ index s h) k = ((s, [], refl), k)

parts :
    (all : List SymbolSpan) (header : String) (budget : ℕ) (chunks : List CodeChunk)
    → All (Fits header budget) chunks
    → All (λ s. In s all) (symbols_of chunks)
    → All (IsPart all) chunks
parts all header budget [] h k = tt
parts all header budget (c ∷ cs) h k =
    let (mine, rest) = All-parts (λ s. In s all) c.symbols (symbols_of cs) k in
    (Fits-IsPart all header budget c h.0 mine, parts all header budget cs h.1 rest)

-- In a file where the parser found symbols, every symbol of the result has the name and the lines of
-- one of them, whatever the agents answer: what a model invents is discarded, in the first draft
-- and in the rewrites of the review.
pub run-IsGrounded :
    (is_space : Char → Bool) (a : Agents) (options : PipelineOptions) (language : LanguageInfo)
    (parsed : ParsedFile) (max_tokens : ℕ) (s : SymbolSpan) (ss : List SymbolSpan)
    (r : PipelineResult)
    → parsed.symbols ≡ s ∷ ss
    → run a options language parsed (build_chunks is_space parsed max_tokens true) ≡ some r
    → All (IsGrounded parsed.symbols) r.documentation.symbols
run-IsGrounded is_space a options language parsed max_tokens s ss r e h =
    let packed = build_chunks-IsPacked is_space parsed max_tokens true s ss e in
    let header = header_of parsed true in
    let chunks = build_chunks is_space parsed max_tokens true in
    let all_in : All (λ t. In t parsed.symbols) (symbols_of chunks) =
      subst (λ l. All (λ t. In t parsed.symbols) l) (e ∙ sym packed.0) (In-self parsed.symbols) in
    run-Documents parsed.symbols a options language parsed chunks r
      (parts parsed.symbols header (budget_of max_tokens header) chunks packed.2 all_in) h
