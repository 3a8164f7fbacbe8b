-- ===== src/Chunking/Packed.antt =====
-- The loop of `build_chunks`: what the chunks and the open chunk hold after each symbol.
use mathlib.Core.List.{append-nil, append_assoc}
use legacy_doc.Common.{
  ℕ, suc, ◌+◌, arith, ◌≡◌, ◌⊎◌, ◌≤◌, ◌<◌, ltb→lt, refl, subst, sym, ap, ◌∙◌, Bool-cases, inl, inr,
  false, not, ◌&&◌, List, [], ◌∷◌, ◌++◌, length, ltb, if◌then◌else◌, if_true, if_false, All, String,
}
use legacy_doc.Chunking.{
  SymbolSpan, CodeChunk, Packing, flush, pack_symbol, pack_symbols, make_chunk,
  make_oversized_chunk, estimate_tokens, oversized, add_symbol, is_empty,
}

abbrev pub symbols_of : List CodeChunk → List SymbolSpan
symbols_of [] = []
symbols_of (c ∷ cs) = c.symbols ++ symbols_of cs

-- The chunks carry the indices `n`, `n + 1`, and so on.
abbrev pub Numbered : ℕ → List CodeChunk → Type 0
Numbered n [] = Unit
Numbered n (c ∷ cs) = (c.index ≡ n) × Numbered (suc n) cs

symbols_of-append :
    (cs : List CodeChunk) (c : CodeChunk) → symbols_of (cs ++ c ∷ []) ≡ symbols_of cs ++ c.symbols
symbols_of-append [] c = append-nil c.symbols
symbols_of-append (d ∷ cs) c =
    ap (λ l. d.symbols ++ l) (symbols_of-append cs c)
    ∙ sym (append_assoc d.symbols (symbols_of cs) c.symbols)

pub Numbered-append :
    (n : ℕ) (cs : List CodeChunk) (c : CodeChunk)
    → Numbered n cs
    → c.index ≡ n + length cs
    → Numbered n (cs ++ c ∷ [])
Numbered-append n [] c h e = (omega (arith, e), tt)
Numbered-append n (d ∷ cs) c h e = (h.0, Numbered-append (suc n) cs c h.1 (omega (arith, e)))

make_chunk-index :
    (index : ℕ) (s : SymbolSpan) (ss : List SymbolSpan) (header : String)
    → (make_chunk index s ss header).index ≡ index
unfolding make_chunk
make_chunk-index index s ss header = refl

-- The symbols that the loop has taken, in chunks or not yet.
abbrev pub taken : Packing → List SymbolSpan
taken p = symbols_of p.chunks ++ p.current

flush-taken_of :
    (header : String) (chunks : List CodeChunk) (current : List SymbolSpan) (n : ℕ)
    → let p : Packing = record { chunks = chunks; current = current; current_tokens = n } in
      taken (flush header p) ≡ symbols_of chunks ++ current
unfolding flush make_chunk
flush-taken_of header chunks [] n = refl
flush-taken_of header chunks (s ∷ ss) n =
    append-nil (
      symbols_of
        (flush header (record { chunks = chunks; current = s ∷ ss; current_tokens = n })).chunks)
    ∙ symbols_of-append chunks (make_chunk (length chunks) s ss header)

flush-taken : (header : String) (p : Packing) → taken (flush header p) ≡ taken p
flush-taken header p = flush-taken_of header p.chunks p.current p.current_tokens

room :
    (current : List SymbolSpan) (n budget : ℕ)
    → (not (is_empty current) && ltb budget n) ≡ false
    → (current ≡ []) ⊎ (n ≤ budget)
room [] n budget e = inl refl
room (s ∷ ss) n budget e = inr (ground (arith, e))

-- The three rounds of the loop: the symbol alone, a new open chunk, the same open chunk.
pack_symbol-cases :
    (header : String) (budget : ℕ) (s : SymbolSpan) (p : Packing)
    → let tokens = estimate_tokens s.source in
      ((budget < tokens)
        × (pack_symbol header budget s p ≡ oversized header budget s (flush header p)))
      ⊎ (((tokens ≤ budget)
            × (pack_symbol header budget s p ≡ add_symbol s tokens (flush header p)))
          ⊎ (((p.current ≡ []) ⊎ (p.current_tokens + tokens ≤ budget))
              × (tokens ≤ budget)
              × (pack_symbol header budget s p ≡ add_symbol s tokens p)))
unfolding pack_symbol
pack_symbol-cases header budget s p =
    let t = estimate_tokens s.source in
    let alone = oversized header budget s (flush header p) in
    let opened = add_symbol s t (flush header p) in
    let added = add_symbol s t p in
    let full = not (is_empty p.current) && ltb budget (p.current_tokens + t) in
    elim (Bool-cases (ltb budget t)) [
      | inl e ↦
          inl (ltb→lt budget t e, if_true (ltb budget t) alone (if full then opened else added) e)
      | inr e ↦
          let small : t ≤ budget = ground (arith, e) in
          let skip = if_false (ltb budget t) alone (if full then opened else added) e in
          elim (Bool-cases full) [
            | inl f ↦ inr (inl (small, skip ∙ if_true full opened added f))
            | inr f ↦ inr (
                inr (
                  room p.current (p.current_tokens + t) budget f,
                  small,
                  skip ∙ if_false full opened added f,
                ))
          ]
    ]

-- The tokens of symbols that share a chunk.
abbrev pub total : List SymbolSpan → ℕ
total [] = 0
total (s ∷ ss) = estimate_tokens s.source + total ss

-- A chunk of `_make_chunk` within the budget, or one of `_make_oversized_chunk`.
pub data Fits : String → ℕ → CodeChunk → Type 0 where
  whole :
      (header : String) (budget index : ℕ) (s : SymbolSpan) (ss : List SymbolSpan)
      → total (s ∷ ss) ≤ budget
      → Fits header budget (make_chunk index s ss header)
  alone :
      (header : String) (budget index : ℕ) (s : SymbolSpan)
      → budget < estimate_tokens s.source
      → Fits header budget (make_oversized_chunk index s header budget)

-- After the symbols `taken`: they are in the chunks, which are numbered from 0 and fit, and in the
-- open chunk, whose tokens are counted and within the budget.
pub record IsPacked (header : String) (budget : ℕ) (seen : List SymbolSpan) (p : Packing)
    : Type 0 where
  pub all : taken p ≡ seen
  pub numbered : Numbered 0 p.chunks
  pub fit : All (Fits header budget) p.chunks
  pub counted : p.current_tokens ≡ total p.current
  pub within : total p.current ≤ budget

All-append :
    {A : Type 0} (P : A → Type 0) (xs : List A) (x : A) → All P xs → P x → All P (xs ++ x ∷ [])
All-append P [] x h k = (k, tt)
All-append P (y ∷ xs) x h k = (h.0, All-append P xs x h.1 k)

total-append :
    (ss : List SymbolSpan) (s : SymbolSpan)
    → total (ss ++ s ∷ []) ≡ total ss + estimate_tokens s.source
total-append [] s = omega arith
total-append (t ∷ ss) s = omega (arith, total-append ss s)

flush-IsPacked_of :
    (header : String) (budget : ℕ) (seen : List SymbolSpan) (chunks : List CodeChunk)
    (current : List SymbolSpan) (n : ℕ)
    → let p : Packing = record { chunks = chunks; current = current; current_tokens = n } in
      IsPacked header budget seen p
      → IsPacked header budget seen (flush header p) × ((flush header p).current ≡ [])
unfolding flush
flush-IsPacked_of header budget seen chunks [] n h = (h, refl)
flush-IsPacked_of header budget seen chunks (s ∷ ss) n h =
    let c = make_chunk (length chunks) s ss header in
    (
      record {
        all = flush-taken_of header chunks (s ∷ ss) n ∙ h.all;
        numbered =
            Numbered-append 0 chunks c h.numbered
              (omega (arith, make_chunk-index (length chunks) s ss header));
        fit =
            All-append (Fits header budget) chunks c h.fit
              (whole header budget (length chunks) s ss h.within);
        counted = omega arith;
        within = omega arith;
      },
      refl,
    )

pub flush-IsPacked :
    (header : String) (budget : ℕ) (seen : List SymbolSpan) (p : Packing)
    → IsPacked header budget seen p
    → IsPacked header budget seen (flush header p) × ((flush header p).current ≡ [])
flush-IsPacked header budget seen p h =
    flush-IsPacked_of header budget seen p.chunks p.current p.current_tokens h

alone-taken :
    (cs : List CodeChunk) (c : CodeChunk) (current seen : List SymbolSpan)
    → current ≡ []
    → symbols_of cs ++ current ≡ seen
    → symbols_of (cs ++ c ∷ []) ++ current ≡ seen ++ c.symbols
alone-taken cs c current seen e h =
    ap (λ l. symbols_of (cs ++ c ∷ []) ++ l) e
    ∙ append-nil (symbols_of (cs ++ c ∷ []))
    ∙ symbols_of-append cs c
    ∙ ap (λ l. l ++ c.symbols)
        (sym (append-nil (symbols_of cs)) ∙ ap (λ l. symbols_of cs ++ l) (sym e) ∙ h)

oversized-IsPacked :
    (header : String) (budget : ℕ) (seen : List SymbolSpan) (s : SymbolSpan) (p : Packing)
    → budget < estimate_tokens s.source
    → p.current ≡ []
    → IsPacked header budget seen p
    → IsPacked header budget (seen ++ s ∷ []) (oversized header budget s p)
unfolding make_oversized_chunk
oversized-IsPacked header budget seen s p big e h =
    let c = make_oversized_chunk (length p.chunks) s header budget in
    record {
      all = alone-taken p.chunks c p.current seen e h.all;
      numbered = Numbered-append 0 p.chunks c h.numbered (omega arith);
      fit =
          All-append (Fits header budget) p.chunks c h.fit
            (alone header budget (length p.chunks) s big);
      counted = h.counted;
      within = h.within;
    }

add_symbol-IsPacked :
    (header : String) (budget : ℕ) (seen : List SymbolSpan) (s : SymbolSpan) (p : Packing)
    → total p.current + estimate_tokens s.source ≤ budget
    → IsPacked header budget seen p
    → IsPacked header budget (seen ++ s ∷ []) (add_symbol s (estimate_tokens s.source) p)
add_symbol-IsPacked header budget seen s p fits h = record {
  all = sym (append_assoc (symbols_of p.chunks) p.current (s ∷ [])) ∙ ap (λ l. l ++ s ∷ []) h.all;
  numbered = h.numbered;
  fit = h.fit;
  counted = omega (arith, h.counted, total-append p.current s);
  within = omega (arith, fits, total-append p.current s);
}

pack_symbol-IsPacked :
    (header : String) (budget : ℕ) (seen : List SymbolSpan) (s : SymbolSpan) (p : Packing)
    → IsPacked header budget seen p
    → IsPacked header budget (seen ++ s ∷ []) (pack_symbol header budget s p)
pack_symbol-IsPacked header budget seen s p h =
    let q = flush-IsPacked header budget seen p h in
    let next = λ (r : Packing). IsPacked header budget (seen ++ s ∷ []) r in
    let from_empty = λ (cur : List SymbolSpan). total cur + estimate_tokens s.source ≤ budget in
    elim (pack_symbol-cases header budget s p) [
      | inl (big, e) ↦
          subst next (sym e) (oversized-IsPacked header budget seen s (flush header p) big q.1 q.0)
      | inr (inl (small, e)) ↦ subst next (sym e) (
          add_symbol-IsPacked header budget seen s (flush header p)
            (subst from_empty (sym q.1) (omega (arith, small))) q.0)
      | inr (inr (room, small, e)) ↦ subst next (sym e) (
          add_symbol-IsPacked header budget seen s p
            elim room [
              | inl empty ↦ subst from_empty (sym empty) (omega (arith, small))
              | inr fits ↦ omega (arith, fits, h.counted)
            ]
            h)
    ]

pub pack_symbols-IsPacked :
    (header : String) (budget : ℕ) (seen ss : List SymbolSpan) (p : Packing)
    → IsPacked header budget seen p
    → IsPacked header budget (seen ++ ss) (pack_symbols header budget ss p)
pack_symbols-IsPacked header budget seen [] p h =
    subst (λ l. IsPacked header budget l p) (sym (append-nil seen)) h
pack_symbols-IsPacked header budget seen (s ∷ ss) p h =
    subst (λ l. IsPacked header budget l (pack_symbols header budget (s ∷ ss) p))
      (append_assoc seen (s ∷ []) ss)
      (pack_symbols-IsPacked header budget (seen ++ s ∷ []) ss (pack_symbol header budget s p)
        (pack_symbol-IsPacked header budget seen s p h))
