-- ===== src/Chunking/Budget.antt =====
-- How far a chunk may pass the token budget.
use legacy_doc.Common.{
  ℕ, ◌+◌, ◌*◌, ◌/◌, arith, ◌≡◌, ◌≤◌, max, Bool, List, [], ◌∷◌, length, map, All, All-imp, join,
  chars, append, chars-append, String, Bool-cases, inl, inr, ltb, clip, chars-clip, if◌then◌else◌,
}
use Prim.Native.Char.{Char}
use legacy_doc.Chunking.{
  SymbolSpan, ParsedFile, CodeChunk, build_chunks, header_of, budget_of, estimate_tokens,
  estimated_tokens, make_chunk, make_oversized_chunk, truncation_notice, max_chars,
}
use legacy_doc.Chunking.Packed.{Fits, total}
use legacy_doc.Chunking.Partition.{build_chunks-IsPacked}

estimate_tokens-bounds :
    (s : String)
    → (5 * chars s + 1 ≤ 18 * estimate_tokens s) × (18 * estimate_tokens s ≤ 5 * chars s + 18)
unfolding estimate_tokens
estimate_tokens-bounds s = (omega arith, omega arith)

-- The sources of symbols, joined by blank lines.
joined-bound :
    (s : SymbolSpan) (ss : List SymbolSpan)
    → 5 * chars (join "\n\n" (map (λ t. t.source) (s ∷ ss))) + 1
      ≤ 18 * total (s ∷ ss) + 9 * length ss
joined-bound s [] = omega (arith, estimate_tokens-bounds s.source)
joined-bound s (t ∷ ss) =
    let rest = join "\n\n" (map (λ u. u.source) (t ∷ ss)) in
    omega (
      arith,
      estimate_tokens-bounds s.source,
      joined-bound t ss,
      chars-append s.source (append "\n\n" rest),
      chars-append "\n\n" rest,
    )

whole-bound :
    (header : String) (budget index : ℕ) (s : SymbolSpan) (ss : List SymbolSpan)
    → total (s ∷ ss) ≤ budget
    → let c = make_chunk index s ss header in
      estimated_tokens c ≤ estimate_tokens header + budget + length c.symbols / 2
unfolding make_chunk
whole-bound header budget index s ss h =
    let body = join "\n\n" (map (λ u. u.source) (s ∷ ss)) in
    omega (
      arith,
      h,
      joined-bound s ss,
      chars-append header body,
      estimate_tokens-bounds (append header body),
      estimate_tokens-bounds header,
    )

alone-bound :
    (header : String) (budget index : ℕ) (s : SymbolSpan)
    → let c = make_oversized_chunk index s header budget in
      estimated_tokens c ≤ estimate_tokens header + budget + (if c.truncated then 19 else 0)
unfolding make_oversized_chunk
alone-bound header budget index s = elim (Bool-cases (ltb (max_chars budget) (chars s.source))) [
  | inl e ↦
      let cut = append (clip (max_chars budget) s.source) truncation_notice in
      rw e (
        omega (
          arith,
          chars-clip (max_chars budget) s.source,
          chars-append (clip (max_chars budget) s.source) truncation_notice,
          chars-append header cut,
          estimate_tokens-bounds (append header cut),
          estimate_tokens-bounds header,
        ))
  | inr e ↦
      let small : chars s.source ≤ max_chars budget = ground (arith, e) in
      rw e (
        omega (
          arith,
          small,
          chars-append header s.source,
          estimate_tokens-bounds (append header s.source),
          estimate_tokens-bounds header,
        ))
]

-- The tokens of a chunk stay within a limit, up to half a token for each symbol and the notice of a
-- truncated chunk.
abbrev pub IsNear : ℕ → CodeChunk → Type 0
IsNear limit c = estimated_tokens c ≤ limit + length c.symbols / 2 + (if c.truncated then 19 else 0)

Fits-IsNear :
    (header : String) (max_tokens : ℕ) (c : CodeChunk)
    → Fits header (budget_of max_tokens header) c
    → IsNear (max max_tokens (estimate_tokens header + 512)) c
unfolding make_chunk
Fits-IsNear header max_tokens _ (Fits.whole _ _ index s ss h) =
    omega (arith, whole-bound header (budget_of max_tokens header) index s ss h)
Fits-IsNear header max_tokens _ (Fits.alone _ _ index s h) =
    omega (arith, alone-bound header (budget_of max_tokens header) index s)

-- In a file with symbols, the estimated tokens of every chunk are at most the larger of
-- `max_tokens_per_chunk` and the header's tokens plus 512, plus half a token for each symbol of the
-- chunk (the blank lines between symbols are not counted by the packing), plus 19 tokens for the
-- notice where the chunk is truncated.
pub build_chunks_budget :
    (is_space : Char → Bool) (parsed : ParsedFile) (max_tokens : ℕ) (include_header : Bool)
    (s : SymbolSpan) (ss : List SymbolSpan)
    → parsed.symbols ≡ s ∷ ss
    → let header = header_of parsed include_header in
      All
        (IsNear (max max_tokens (estimate_tokens header + 512)))
        (build_chunks is_space parsed max_tokens include_header)
build_chunks_budget is_space parsed max_tokens include_header s ss e =
    let header = header_of parsed include_header in
    All-imp (Fits header (budget_of max_tokens header))
      (IsNear (max max_tokens (estimate_tokens header + 512)))
      (build_chunks is_space parsed max_tokens include_header) (Fits-IsNear header max_tokens)
      (build_chunks-IsPacked is_space parsed max_tokens include_header s ss e).2
