-- ===== src/Pipeline/Anchoring.antt =====
-- What is anchored carries the name and the lines of a symbol that the parser found.
use legacy_doc.Common.{
  ◌≡◌, refl, sym, ◌∙◌, subst, Bool-cases, inl, inr, Option, Option-cases, some, some_inj, some≢none,
  List, [], ◌∷◌, ◌++◌, map, String, str_eq, if_true, if_false, In, All, All-imp, All-join,
}
use legacy_doc.Chunking.{SymbolSpan, CodeChunk}
use legacy_doc.Domain.{SymbolDoc}
use legacy_doc.Pipeline.{
  Spans, names_of, spans_by_name, get_span, anchor_symbol, anchor_symbols, enrich_in, with_language,
  enrich,
}

-- A documented symbol is one of the given spans.
abbrev pub IsGrounded : List SymbolSpan → SymbolDoc → Type 0
IsGrounded spans d =
    (s : SymbolSpan) × In s spans
    × (d.name ≡ s.name)
    × (d.line_start ≡ s.line_start)
    × (d.line_end ≡ s.line_end)

abbrev Within : List SymbolSpan → Spans → Type 0
Within all spans = All (λ p. In p.1 all) spans

named-Within :
    (all : List SymbolSpan) (s : SymbolSpan) (names : List String)
    → In s all
    → Within all (map (λ n. (n, s)) names)
named-Within all s [] h = tt
named-Within all s (n ∷ ns) h = (h, named-Within all s ns h)

spans_by_name-Within :
    (all rest : List SymbolSpan) (spans : Spans)
    → All (λ s. In s all) rest
    → Within all spans
    → Within all (spans_by_name rest spans)
unfolding spans_by_name
spans_by_name-Within all [] spans h k = k
spans_by_name-Within all (s ∷ rest) spans h k =
    spans_by_name-Within all rest (map (λ n. (n, s)) (names_of s) ++ spans) h.1 (
      All-join (λ p. In p.1 all) (map (λ n. (n, s)) (names_of s)) spans
        (named-Within all s (names_of s) h.0) k)

get_span-In :
    (all : List SymbolSpan) (name : String) (spans : Spans) (s : SymbolSpan)
    → Within all spans
    → get_span name spans ≡ some s
    → In s all
get_span-In all name [] s h e = absurd (some≢none (sym e))
get_span-In all name ((key, t) ∷ spans) s h e = elim (Bool-cases (str_eq key name)) [
  | inl f ↦
      subst (λ x. In x all)
        (some_inj (sym (if_true (str_eq key name) (some t) (get_span name spans) f) ∙ e)) h.0
  | inr f ↦
      get_span-In all name spans s h.1
        (sym (if_false (str_eq key name) (some t) (get_span name spans) f) ∙ e)
]

anchor_symbols-IsGrounded :
    (all : List SymbolSpan) (spans : Spans) (docs : List SymbolDoc)
    → Within all spans
    → All (IsGrounded all) (anchor_symbols spans docs).0
anchor_symbols-IsGrounded all spans [] h = tt
anchor_symbols-IsGrounded all spans (d ∷ docs) h =
    let rest = anchor_symbols-IsGrounded all spans docs h in
    let fine = λ (o : Option SymbolSpan).
      All (IsGrounded all) (anchor_symbol o d (anchor_symbols spans docs)).0 in
    elim (Option-cases (get_span d.name spans)) [
      | inl e ↦ subst fine (sym e) rest
      | inr (s, e) ↦
          subst fine (sym e) ((s, get_span-In all d.name spans s h e, refl, refl, refl), rest)
    ]

pub In-self : (all : List SymbolSpan) → All (λ s. In s all) all
In-self [] = tt
In-self (s ∷ ss) =
    (inl refl, All-imp (λ t. In t ss) (λ t. In t (s ∷ ss)) ss (λ t h. inr h) (In-self ss))

-- In a chunk with symbols, all that `_enrich` accepts is grounded in the chunk.
pub enrich-IsGrounded :
    (docs : List SymbolDoc) (chunk : CodeChunk) (language : String) (s : SymbolSpan)
    (ss : List SymbolSpan)
    → chunk.symbols ≡ s ∷ ss
    → All (IsGrounded chunk.symbols) (enrich docs chunk language).0
unfolding enrich
enrich-IsGrounded docs chunk language s ss e =
    subst (λ l. All (IsGrounded l) (enrich_in l (map (with_language language) docs)).0) (sym e)
      (anchor_symbols-IsGrounded (s ∷ ss) (spans_by_name (s ∷ ss) [])
        (map (with_language language) docs)
        (spans_by_name-Within (s ∷ ss) (s ∷ ss) [] (In-self (s ∷ ss)) tt))
