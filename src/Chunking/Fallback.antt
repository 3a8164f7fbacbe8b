-- ===== src/Chunking/Fallback.antt =====
-- The line chunks of a file without recognised symbols.
use mathlib.Core.List.{append-nil, append_assoc}
use legacy_doc.Common.{
  ℕ, suc, ◌+◌, arith, ◌≡◌, Bool, true, false, List, [], ◌∷◌, ◌++◌, length, any, length-append,
  String, Bool-cases, inl, inr, leb, if◌then◌else◌, if_true, if_false, subst, sym, ap, ◌∙◌, refl,
  split, chars,
}
use Prim.Native.Char.{Char}
use legacy_doc.Chunking.{
  ParsedFile, CodeChunk, Cutting, cut_line, cut_lines, line_chunk, has_text, Packing, flush,
  pack_symbols, budget_of, header_of, fallback_line_chunks, build_chunks, max_chars,
}

-- Chunks numbered from `i` that cover the lines from `start` on, without a gap, up to blank lines.
pub data Covers (is_space : Char → Bool) : ℕ → ℕ → List String → List CodeChunk → Type 0 where
  blank :
      (i start : ℕ) (lines : List String)
      → any (has_text is_space) lines ≡ false
      → Covers is_space i start lines []
  chunk :
      (i start : ℕ) (line : String) (lines rest : List String) (cs : List CodeChunk)
      → Covers is_space (suc i) (start + suc (length lines)) rest cs
      → Covers is_space i start
          ((line ∷ lines) ++ rest)
          (line_chunk i (line ∷ lines) start (start + length lines) ∷ cs)

module _ (is_space : Char → Bool) where
  abbrev finish : Cutting → ℕ → List CodeChunk
  finish p last =
      if any (has_text is_space) p.current
      then p.chunks ++ line_chunk (length p.chunks) p.current p.start_line last ∷ []
      else p.chunks

  chunk_at :
      (i start last next : ℕ) (line : String) (lines rest all : List String) (cs : List CodeChunk)
      → last ≡ start + length lines
      → next ≡ start + suc (length lines)
      → all ≡ (line ∷ lines) ++ rest
      → Covers is_space (suc i) next rest cs
      → Covers is_space i start all (line_chunk i (line ∷ lines) start last ∷ cs)
  chunk_at i start last next line lines rest all cs e f g h =
      subst (λ a. Covers is_space i start a (line_chunk i (line ∷ lines) start last ∷ cs)) (sym g)
        (subst
          (λ n.
            Covers is_space i start ((line ∷ lines) ++ rest)
              (line_chunk i (line ∷ lines) start n ∷ cs))
          (sym e)
          (chunk i start line lines rest cs (subst (λ n. Covers is_space (suc i) n rest cs) f h)))

  closed :
      (i start offset : ℕ) (current : List String) (line : String) (rest : List String)
      (cs : List CodeChunk)
      → start + length current ≡ offset
      → Covers is_space (suc i) (offset + 1) rest cs
      → Covers is_space i start
          (current ++ line ∷ rest)
          (line_chunk i (current ++ line ∷ []) start offset ∷ cs)
  closed i start offset [] line rest cs e h =
      chunk_at i start offset (offset + 1) line [] rest (line ∷ rest) cs (omega (arith, e))
        (omega (arith, e)) refl h
  closed i start offset (l ∷ current) line rest cs e h =
      let n = length-append current (line ∷ []) in
      chunk_at i start offset (offset + 1) l (current ++ line ∷ []) rest
        ((l ∷ current) ++ line ∷ rest) cs (omega (arith, e, n)) (omega (arith, e, n))
        (sym (append_assoc (l ∷ current) (line ∷ []) rest)) h

  last_chunk :
      (i start last : ℕ) (current : List String)
      → start + length current ≡ last + 1
      → any (has_text is_space) current ≡ true
      → Covers is_space i start current (line_chunk i current start last ∷ [])
  last_chunk i start last [] e t = ground (arith, t)
  last_chunk i start last (l ∷ current) e t =
      chunk_at i start last (last + 1) l current [] (l ∷ current) [] (omega (arith, e))
        (omega (arith, e)) (sym (append-nil (l ∷ current))) (blank (suc i) (last + 1) [] refl)

  -- From a state of the loop on, the chunks that are added cover the open lines and those to come.
  abbrev Continues : ℕ → List String → Cutting → List CodeChunk → Type 0
  Continues limit lines p out =
      (new : List CodeChunk) × (out ≡ p.chunks ++ new)
      × Covers is_space (length p.chunks) p.start_line (p.current ++ lines) new

  cut_lines-Covers :
      (limit offset last : ℕ) (lines : List String) (p : Cutting)
      → p.start_line + length p.current ≡ offset
      → offset + length lines ≡ last + 1
      → Continues limit lines p (finish (cut_lines limit offset lines p) last)
  unfolding cut_line
  cut_lines-Covers limit offset last [] p e f =
      elim (Bool-cases (any (has_text is_space) p.current)) [
        | inl t ↦
            let c = line_chunk (length p.chunks) p.current p.start_line last in
            (
              c ∷ [],
              if_true (any (has_text is_space) p.current) (p.chunks ++ c ∷ []) p.chunks t,
              subst (λ ls. Covers is_space (length p.chunks) p.start_line ls (c ∷ []))
                  (sym (append-nil p.current))
                  (last_chunk (length p.chunks) p.start_line last p.current (omega (arith, e, f))
                    t),
            )
        | inr t ↦
            let c = line_chunk (length p.chunks) p.current p.start_line last in
            (
              [],
              if_false (any (has_text is_space) p.current) (p.chunks ++ c ∷ []) p.chunks t
                  ∙ sym (append-nil p.chunks),
              subst (λ ls. Covers is_space (length p.chunks) p.start_line ls [])
                  (sym (append-nil p.current)) (blank (length p.chunks) p.start_line p.current t),
            )
      ]
  cut_lines-Covers limit offset last (l ∷ lines) p e f =
      let n = p.current_chars + (chars l + 1) in
      let c = line_chunk (length p.chunks) (p.current ++ l ∷ []) p.start_line offset in
      let cut : Cutting = record {
        chunks = p.chunks ++ c ∷ [];
        current = [];
        current_chars = 0;
        start_line = offset + 1;
      } in
      let more : Cutting = record p { current = p.current ++ l ∷ []; current_chars = n } in
      let next = λ (q : Cutting).
        Continues limit (l ∷ lines) p (finish (cut_lines limit (offset + 1) lines q) last) in
      elim (Bool-cases (leb limit n)) [
        | inl t ↦
            let (new, out, covers) =
              cut_lines-Covers limit (offset + 1) last lines cut (omega arith) (omega (arith, f)) in
            subst next (sym (if_true (leb limit n) cut more t)) (
              c ∷ new,
              out ∙ append_assoc p.chunks (c ∷ []) new,
              closed (length p.chunks) p.start_line offset p.current l lines new e (
                  subst (λ i. Covers is_space i (offset + 1) lines new)
                    (omega (arith, length-append p.chunks (c ∷ []))) covers),
            )
        | inr t ↦
            let (new, out, covers) =
              cut_lines-Covers limit (offset + 1) last lines more
                (omega (arith, e, length-append p.current (l ∷ []))) (omega (arith, f)) in
            subst next (sym (if_false (leb limit n) cut more t)) (
              new,
              out,
              subst (λ ls. Covers is_space (length p.chunks) p.start_line ls new)
                  (append_assoc p.current (l ∷ []) lines) covers,
            )
      ]

-- In a file without recognised symbols, the chunks are numbered from 0 and cut the lines of the file,
-- from the first one on, into consecutive parts without a gap or an overlap: each chunk's text is the
-- lines from its `line_start` to its `line_end`, and the lines after the last chunk are blank.
pub build_chunks-Covers :
    (is_space : Char → Bool) (parsed : ParsedFile) (max_tokens : ℕ) (include_header : Bool)
    → parsed.symbols ≡ []
    → Covers is_space 0 1
        (split 10 parsed.source)
        (build_chunks is_space parsed max_tokens include_header)
unfolding build_chunks fallback_line_chunks
build_chunks-Covers is_space parsed max_tokens include_header e =
    let lines = split 10 parsed.source in
    let start : Cutting = record { chunks = []; current = []; current_chars = 0; start_line = 1 } in
    let header = header_of parsed include_header in
    let packing : Packing = record { chunks = []; current = []; current_tokens = 0 } in
    let (new, out, covers) =
      cut_lines-Covers is_space (max_chars max_tokens) 1 (length lines) lines start (omega arith)
        (omega arith) in
    subst (Covers is_space 0 1 lines)
      (sym out
        ∙ sym (
            ap
              (λ l. elim l [
                | [] ↦ fallback_line_chunks is_space parsed max_tokens
                | t ∷ ts ↦
                    (flush header
                      (pack_symbols header (budget_of max_tokens header) (t ∷ ts) packing)).chunks
              ])
              e))
      covers
