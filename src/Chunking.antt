-- ===== src/Chunking.antt =====
-- Chunks of code for the prompt budget: packages/parsing/legacydoc_parsing/chunking.py, and the
-- records of packages/parsing/legacydoc_parsing/symbols.py that it reads. `len(text) / 3.6` is the
-- rational 5 * len / 18.
pub mod Packed
pub mod Partition
pub mod Budget
pub mod Fallback
mod Tests
use legacy_doc.Common.{
  ℕ, zero, suc, ◌+◌, ◌-◌, ◌*◌, ◌/◌, min, max, Bool, true, false, not, ◌&&◌, Option, List, [], ◌∷◌,
  ◌++◌, map, String, leb, ltb, if◌then◌else◌, any, take, length, chars, append, join, split, clip,
}
use Prim.Native.Char.{Char}

pub record SymbolSpan : Type 0 where
  pub name : String
  pub kind : String
  pub source : String
  pub line_start : ℕ
  pub line_end : ℕ
  pub byte_start : ℕ
  pub byte_end : ℕ
  pub parent : Option String
  pub signature : String
  pub complexity : ℕ

pub record ParsedFile : Type 0 where
  pub path : String
  pub language : String
  pub source : String
  pub symbols : List SymbolSpan
  pub parse_failed : Bool

-- `int(len(text) / 3.6) + 1`
unfoldable pub estimate_tokens : String → ℕ
estimate_tokens text = chars text * 5 / 18 + 1

pub record CodeChunk : Type 0 where
  pub index : ℕ
  pub source : String
  pub symbols : List SymbolSpan
  pub line_start : ℕ
  pub line_end : ℕ
  pub truncated : Bool

abbrev pub estimated_tokens : CodeChunk → ℕ
estimated_tokens c = estimate_tokens c.source

-- `", ".join(names) or "nenhum"`
abbrev names_or_none : List String → String
names_or_none [] = "nenhum"
names_or_none (n ∷ ns) = elim (join ", " (n ∷ ns)) [
  | String.[] ↦ "nenhum"
  | String.◌∷◌ c s ↦ String.◌∷◌ c s
]

unfoldable pub file_header : ParsedFile → String
file_header parsed =
    let names = names_or_none (map (λ s. s.name) (take 40 parsed.symbols)) in
    join "" (
      "// Arquivo: " ∷ parsed.path ∷ "\n// Linguagem: " ∷ parsed.language
      ∷ "\n// Simbolos no arquivo: " ∷ names ∷ "\n\n" ∷ [])

-- `min(symbol.line_start …)` and `max(symbol.line_end …)` over the symbols after the first one.
abbrev first_line : ℕ → List SymbolSpan → ℕ
first_line n [] = n
first_line n (s ∷ ss) = first_line (min n s.line_start) ss

abbrev last_line : ℕ → List SymbolSpan → ℕ
last_line n [] = n
last_line n (s ∷ ss) = last_line (max n s.line_end) ss

-- `_make_chunk`; its callers give at least one symbol.
unfoldable pub make_chunk : ℕ → SymbolSpan → List SymbolSpan → String → CodeChunk
make_chunk index s ss header = record {
  index = index;
  source = append header (join "\n\n" (map (λ t. t.source) (s ∷ ss)));
  symbols = s ∷ ss;
  line_start = first_line s.line_start ss;
  line_end = last_line s.line_end ss;
  truncated = false;
}

-- `int(tokens * CHARS_PER_TOKEN)`
abbrev pub max_chars : ℕ → ℕ
max_chars tokens = tokens * 18 / 5

abbrev pub truncation_notice : String
truncation_notice = "\n\n// [TRUNCADO] O corpo desta funcao excede o limite do modelo."

unfoldable pub make_oversized_chunk : ℕ → SymbolSpan → String → ℕ → CodeChunk
make_oversized_chunk index symbol header budget =
    let truncated = ltb (max_chars budget) (chars symbol.source) in
    let source =
      if truncated
      then append (clip (max_chars budget) symbol.source) truncation_notice
      else symbol.source in
    record {
      index = index;
      source = append header source;
      symbols = symbol ∷ [];
      line_start = symbol.line_start;
      line_end = symbol.line_end;
      truncated = truncated;
    }

-- The variables of the loop of `build_chunks`.
pub record Packing : Type 0 where
  pub chunks : List CodeChunk
  pub current : List SymbolSpan
  pub current_tokens : ℕ

-- `if current: chunks.append(_make_chunk(…)); current, current_tokens = [], 0`
unfoldable pub flush : String → Packing → Packing
flush header p = elim p.current [
  | [] ↦ p
  | s ∷ ss ↦ record {
    chunks = p.chunks ++ make_chunk (length p.chunks) s ss header ∷ [];
    current = [];
    current_tokens = 0;
  }
]

abbrev pub is_empty : List SymbolSpan → Bool
is_empty [] = true
is_empty (s ∷ ss) = false

abbrev pub oversized : String → ℕ → SymbolSpan → Packing → Packing
oversized header budget symbol p = record p {
  chunks = p.chunks ++ make_oversized_chunk (length p.chunks) symbol header budget ∷ [];
}

abbrev pub add_symbol : SymbolSpan → ℕ → Packing → Packing
add_symbol symbol tokens p = record p {
  current = p.current ++ symbol ∷ [];
  current_tokens = p.current_tokens + tokens;
}

-- One round of the loop.
unfoldable pub pack_symbol : String → ℕ → SymbolSpan → Packing → Packing
pack_symbol header budget symbol p =
    let tokens = estimate_tokens symbol.source in
    if ltb budget tokens
    then oversized header budget symbol (flush header p)
    else if not (is_empty p.current) && ltb budget (p.current_tokens + tokens)
    then add_symbol symbol tokens (flush header p)
    else add_symbol symbol tokens p

abbrev pub pack_symbols : String → ℕ → List SymbolSpan → Packing → Packing
pack_symbols header budget [] p = p
pack_symbols header budget (s ∷ ss) p =
    pack_symbols header budget ss (pack_symbol header budget s p)

-- The variables of the loop of `_fallback_line_chunks`.
pub record Cutting : Type 0 where
  pub chunks : List CodeChunk
  pub current : List String
  pub current_chars : ℕ
  pub start_line : ℕ

abbrev pub line_chunk : ℕ → List String → ℕ → ℕ → CodeChunk
line_chunk index lines line_start line_end = record {
  index = index;
  source = join "\n" lines;
  symbols = [];
  line_start = line_start;
  line_end = line_end;
  truncated = true;
}

unfoldable pub cut_line : ℕ → ℕ → String → Cutting → Cutting
cut_line limit offset line p =
    let current = p.current ++ line ∷ [] in
    let current_chars = p.current_chars + (chars line + 1) in
    if leb limit current_chars
    then record {
      chunks = p.chunks ++ line_chunk (length p.chunks) current p.start_line offset ∷ [];
      current = [];
      current_chars = 0;
      start_line = offset + 1;
    }
    else record p { current = current; current_chars = current_chars }

-- `for offset, line in enumerate(lines, start=offset)`
abbrev pub cut_lines : ℕ → ℕ → List String → Cutting → Cutting
cut_lines limit offset [] p = p
cut_lines limit offset (l ∷ ls) p = cut_lines limit (offset + 1) ls (cut_line limit offset l p)

-- `line.strip()` is not empty: `is_space` is Python's `str.isspace` of one character.
abbrev pub has_text : (Char → Bool) → String → Bool
has_text is_space String.[] = false
has_text is_space (String.◌∷◌ c s) = if is_space c then has_text is_space s else true

unfoldable pub fallback_line_chunks : (Char → Bool) → ParsedFile → ℕ → List CodeChunk
fallback_line_chunks is_space parsed max_tokens_per_chunk =
    let lines = split 10 parsed.source in
    let p =
      cut_lines (max_chars max_tokens_per_chunk) 1 lines
        (record { chunks = []; current = []; current_chars = 0; start_line = 1 }) in
    if any (has_text is_space) p.current
    then p.chunks ++ line_chunk (length p.chunks) p.current p.start_line (length lines) ∷ []
    else p.chunks

abbrev pub header_of : ParsedFile → Bool → String
header_of parsed include_file_header = if include_file_header then file_header parsed else String.[]

-- `max(max_tokens_per_chunk - header_tokens, 512)`; the difference may be negative in the source,
-- which the maximum hides.
abbrev pub budget_of : ℕ → String → ℕ
budget_of max_tokens_per_chunk header = max (max_tokens_per_chunk - estimate_tokens header) 512

unfoldable pub build_chunks : (Char → Bool) → ParsedFile → ℕ → Bool → List CodeChunk
build_chunks is_space parsed max_tokens_per_chunk include_file_header = elim parsed.symbols [
  | [] ↦ fallback_line_chunks is_space parsed max_tokens_per_chunk
  | s ∷ ss ↦
      let header = header_of parsed include_file_header in
      let start : Packing = record { chunks = []; current = []; current_tokens = 0 } in
      (flush header
        (pack_symbols header (budget_of max_tokens_per_chunk header) (s ∷ ss) start)).chunks
]
