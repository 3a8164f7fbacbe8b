-- ===== src/Chunking/Tests.antt =====
-- The chunks of small files, and the properties at them.
use legacy_doc.Common.{
  ℕ, ◌+◌, ◌≡◌, refl, Bool, true, false, none, List, [], ◌∷◌, map, String, All, max, split, ◌==◌,
}
use Prim.Native.Char.{Char, code}
use legacy_doc.Chunking.{
  SymbolSpan, ParsedFile, build_chunks, header_of, estimate_tokens, fallback_line_chunks,
  pack_symbol, flush, make_chunk, cut_line, file_header,
}
use legacy_doc.Chunking.Packed.{symbols_of, Numbered}
use legacy_doc.Chunking.Partition.{build_chunks_partition}
use legacy_doc.Chunking.Budget.{IsNear, build_chunks_budget}
use legacy_doc.Chunking.Fallback.{Covers, build_chunks-Covers}

abbrev function : String → ℕ → ℕ → SymbolSpan
function name first last = record {
  name = name;
  kind = "function";
  source = "def f(): pass";
  line_start = first;
  line_end = last;
  byte_start = 0;
  byte_end = 13;
  parent = none;
  signature = "def f()";
  complexity = 1;
}

abbrev file : List SymbolSpan → ParsedFile
file symbols = record {
  path = "a.py";
  language = "python";
  source = "x = 1\ny = 2\n\n";
  symbols = symbols;
  parse_failed = false;
}

abbrev two : ParsedFile
two = file (function "f" 1 2 ∷ function "g" 3 9 ∷ [])

abbrev space : Char → Bool
space c = code c == 32

two_in_one_chunk : map (λ c. c.line_end) (build_chunks space two 6000 true) ≡ 9 ∷ []
unfolding build_chunks pack_symbol flush make_chunk estimate_tokens file_header
two_in_one_chunk = refl

two_in_one_chunk_source :
    map (λ c. c.source) (build_chunks space two 6000 false) ≡ "def f(): pass\n\ndef f(): pass" ∷ []
unfolding build_chunks pack_symbol flush make_chunk estimate_tokens
two_in_one_chunk_source = refl

header_text :
    file_header two ≡ "// Arquivo: a.py\n// Linguagem: python\n// Simbolos no arquivo: f, g\n\n"
unfolding file_header
header_text = refl

lines_of_a_file : map (λ c. c.source) (build_chunks space (file []) 2 false) ≡ "x = 1\ny = 2" ∷ []
unfolding build_chunks fallback_line_chunks cut_line split
lines_of_a_file = refl

build_chunks_partition_example :
    (symbols_of (build_chunks space two 6000 true) ≡ two.symbols)
    × Numbered 0 (build_chunks space two 6000 true)
build_chunks_partition_example =
    build_chunks_partition space two 6000 true (function "f" 1 2) (function "g" 3 9 ∷ []) refl

build_chunks_budget_example :
    All
      (IsNear (max 6000 (estimate_tokens (header_of two true) + 512)))
      (build_chunks space two 6000 true)
build_chunks_budget_example =
    build_chunks_budget space two 6000 true (function "f" 1 2) (function "g" 3 9 ∷ []) refl

build_chunks-Covers_example :
    Covers space 0 1 (split 10 (file []).source) (build_chunks space (file []) 2 false)
build_chunks-Covers_example = build_chunks-Covers space (file []) 2 false refl
