-- ===== src/Chunking/Partition.antt =====
-- What the chunks of a file with symbols hold.
use mathlib.Core.List.{append-nil}
use legacy_doc.Common.{ℕ, arith, ◌≡◌, sym, ap, ◌∙◌, Bool, List, [], ◌∷◌, ◌++◌, All, refl, subst}
use Prim.Native.Char.{Char}
use legacy_doc.Chunking.{
  SymbolSpan, ParsedFile, Packing, flush, pack_symbols, build_chunks, fallback_line_chunks,
  header_of, budget_of,
}
use legacy_doc.Chunking.Packed.{
  symbols_of, Numbered, Fits, IsPacked, pack_symbols-IsPacked, flush-IsPacked,
}

-- The loop's invariant, once the last open chunk is closed.
pub build_chunks-IsPacked :
    (is_space : Char → Bool) (parsed : ParsedFile) (max_tokens : ℕ) (include_header : Bool)
    (s : SymbolSpan) (ss : List SymbolSpan)
    → parsed.symbols ≡ s ∷ ss
    → let header = header_of parsed include_header in
      let chunks = build_chunks is_space parsed max_tokens include_header in
      (symbols_of chunks ≡ s ∷ ss)
      × Numbered 0 chunks
      × All (Fits header (budget_of max_tokens header)) chunks
unfolding build_chunks
build_chunks-IsPacked is_space parsed max_tokens include_header s ss e =
    let header = header_of parsed include_header in
    let budget = budget_of max_tokens header in
    let start : Packing = record { chunks = []; current = []; current_tokens = 0 } in
    let started : IsPacked header budget [] start = record {
      all = refl;
      numbered = tt;
      fit = tt;
      counted = refl;
      within = omega arith;
    } in
    let h =
      flush-IsPacked header budget (s ∷ ss) (pack_symbols header budget (s ∷ ss) start)
        (pack_symbols-IsPacked header budget [] (s ∷ ss) start started) in
    let same : build_chunks is_space parsed max_tokens include_header
        ≡ (flush header (pack_symbols header budget (s ∷ ss) start)).chunks =
      ap
        (λ l. elim l [
          | [] ↦ fallback_line_chunks is_space parsed max_tokens
          | t ∷ ts ↦ (flush header (pack_symbols header budget (t ∷ ts) start)).chunks
        ])
        e in
    subst (λ cs. (symbols_of cs ≡ s ∷ ss) × Numbered 0 cs × All (Fits header budget) cs) (sym same)
      (
        sym (
              append-nil
                (symbols_of (flush header (pack_symbols header budget (s ∷ ss) start)).chunks))
            ∙ ap
                (λ l.
                  symbols_of (flush header (pack_symbols header budget (s ∷ ss) start)).chunks ++ l)
                (sym h.1)
            ∙ h.0.all,
        h.0.numbered,
        h.0.fit,
      )

-- In a file with symbols, the chunks hold the symbols of the file, each of them once and in order,
-- and carry the indices 0, 1, 2, and so on, whatever the budget is.
pub build_chunks_partition :
    (is_space : Char → Bool) (parsed : ParsedFile) (max_tokens : ℕ) (include_header : Bool)
    (s : SymbolSpan) (ss : List SymbolSpan)
    → parsed.symbols ≡ s ∷ ss
    → let chunks = build_chunks is_space parsed max_tokens include_header in
      (symbols_of chunks ≡ parsed.symbols) × Numbered 0 chunks
build_chunks_partition is_space parsed max_tokens include_header s ss e =
    let h = build_chunks-IsPacked is_space parsed max_tokens include_header s ss e in
    (h.0 ∙ sym e, h.1)
