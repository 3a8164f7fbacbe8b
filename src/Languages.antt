-- ===== src/Languages.antt =====
-- The languages of a source file, by its extension: packages/parsing/legacydoc_parsing/languages.py.
-- `lower` is `str.lower`. A suffix is Python's `PurePosixPath.suffix`: from the last dot of the last
-- component of the path, if that dot neither begins nor ends the component.
pub mod Detection
mod Tests
use legacy_doc.Common.{
  ℕ, Bool, true, false, ◌||◌, Option, none, some, List, [], ◌∷◌, String, str_eq, if◌then◌else◌,
  split, append, any, ◌==◌,
}
use Prim.Native.Char.{Char, code}

abbrev slash : Char
slash = "/"

pub record LanguageInfo : Type 0 where
  pub name : String
  pub display_name : String
  pub line_comment : String
  pub block_comment : Option (String × String)

abbrev language :
    (name display_name line_comment : String) → Option (String × String) → LanguageInfo
language name display_name line_comment block_comment = record {
  name = name;
  display_name = display_name;
  line_comment = line_comment;
  block_comment = block_comment;
}

abbrev slashes : Option (String × String)
slashes = some ("/*", "*/")

-- `LANGUAGES`; every entry has its name for a key.
abbrev pub languages : List LanguageInfo
languages =
    language "c" "C" "//" slashes
    ∷ language "cpp" "C++" "//" slashes
    ∷ language "csharp" "C#" "//" slashes
    ∷ language "go" "Go" "//" slashes
    ∷ language "java" "Java" "//" slashes
    ∷ language "javascript" "JavaScript" "//" slashes
    ∷ language "typescript" "TypeScript" "//" slashes
    ∷ language "tsx" "TypeScript (TSX)" "//" slashes
    ∷ language "python" "Python" "#" none
    ∷ language "ruby" "Ruby" "#" none
    ∷ language "rust" "Rust" "//" slashes
    ∷ language "php" "PHP" "//" slashes
    ∷ language "kotlin" "Kotlin" "//" slashes
    ∷ language "swift" "Swift" "//" slashes
    ∷ language "scala" "Scala" "//" slashes
    ∷ language "lua" "Lua" "--" none
    ∷ language "bash" "Shell" "#" none
    ∷ language "sql" "SQL" "--" none
    ∷ language "r" "R" "#" none
    ∷ language "perl" "Perl" "#" none
    ∷ language "haskell" "Haskell" "--" none
    ∷ language "elixir" "Elixir" "#" none
    ∷ language "dart" "Dart" "//" slashes
    ∷ language "objc" "Objective-C" "//" slashes
    ∷ language "vhdl" "VHDL" "--" none
    ∷ language "verilog" "Verilog" "//" slashes
    ∷ language "fortran" "Fortran" "!" none
    ∷ language "commonlisp" "Common Lisp" ";" none
    ∷ language "pascal" "Pascal / Delphi" "//" (some ("{", "}"))
    ∷ language "vb" "Visual Basic" "'" none
    ∷ language "ada" "Ada" "--" none
    ∷ language "erlang" "Erlang" "%" none
    ∷ language "powershell" "PowerShell" "#" (some ("<#", "#>"))
    ∷ language "tcl" "Tcl" "#" none
    ∷ language "cobol" "COBOL" "*" none
    ∷ language "groovy" "Groovy" "//" slashes
    ∷ []

-- `_EXTENSION_MAP`
abbrev pub extension_map : List (String × String)
extension_map =
    (".c", "c")
    ∷ (".h", "c")
    ∷ (".cpp", "cpp")
    ∷ (".cc", "cpp")
    ∷ (".cxx", "cpp")
    ∷ (".hpp", "cpp")
    ∷ (".hh", "cpp")
    ∷ (".hxx", "cpp")
    ∷ (".ipp", "cpp")
    ∷ (".java", "java")
    ∷ (".kt", "kotlin")
    ∷ (".kts", "kotlin")
    ∷ (".scala", "scala")
    ∷ (".sc", "scala")
    ∷ (".cs", "csharp")
    ∷ (".js", "javascript")
    ∷ (".jsx", "javascript")
    ∷ (".mjs", "javascript")
    ∷ (".cjs", "javascript")
    ∷ (".ts", "typescript")
    ∷ (".mts", "typescript")
    ∷ (".cts", "typescript")
    ∷ (".tsx", "tsx")
    ∷ (".py", "python")
    ∷ (".pyi", "python")
    ∷ (".rb", "ruby")
    ∷ (".rake", "ruby")
    ∷ (".php", "php")
    ∷ (".lua", "lua")
    ∷ (".pl", "perl")
    ∷ (".pm", "perl")
    ∷ (".r", "r")
    ∷ (".R", "r")
    ∷ (".go", "go")
    ∷ (".rs", "rust")
    ∷ (".swift", "swift")
    ∷ (".m", "objc")
    ∷ (".mm", "objc")
    ∷ (".dart", "dart")
    ∷ (".hs", "haskell")
    ∷ (".ex", "elixir")
    ∷ (".exs", "elixir")
    ∷ (".lisp", "commonlisp")
    ∷ (".cl", "commonlisp")
    ∷ (".sh", "bash")
    ∷ (".bash", "bash")
    ∷ (".zsh", "bash")
    ∷ (".sql", "sql")
    ∷ (".f", "fortran")
    ∷ (".f90", "fortran")
    ∷ (".f95", "fortran")
    ∷ (".for", "fortran")
    ∷ (".vhd", "vhdl")
    ∷ (".vhdl", "vhdl")
    ∷ (".v", "verilog")
    ∷ (".sv", "verilog")
    ∷ (".pas", "pascal")
    ∷ (".dpr", "pascal")
    ∷ (".dfm", "pascal")
    ∷ (".lpr", "pascal")
    ∷ (".pp", "pascal")
    ∷ (".vb", "vb")
    ∷ (".bas", "vb")
    ∷ (".cls", "vb")
    ∷ (".frm", "vb")
    ∷ (".ada", "ada")
    ∷ (".adb", "ada")
    ∷ (".ads", "ada")
    ∷ (".erl", "erlang")
    ∷ (".hrl", "erlang")
    ∷ (".ps1", "powershell")
    ∷ (".psm1", "powershell")
    ∷ (".tcl", "tcl")
    ∷ (".cob", "cobol")
    ∷ (".cbl", "cobol")
    ∷ (".cpy", "cobol")
    ∷ (".ccp", "cobol")
    ∷ (".groovy", "groovy")
    ∷ (".gradle", "groovy")
    ∷ []

-- `SUPPORTED_EXTENSIONS`, as a test.
abbrev pub is_supported : String → Bool
is_supported extension = any (λ entry. str_eq entry.0 extension) extension_map

-- `_EXTENSION_MAP.get`
abbrev pub lookup : String → List (String × String) → Option String
lookup key [] = none
lookup key ((k, value) ∷ rest) = if str_eq k key then some value else lookup key rest

-- `LANGUAGES.get`
abbrev pub get_language : String → List LanguageInfo → Option LanguageInfo
get_language key [] = none
get_language key (l ∷ rest) = if str_eq l.name key then some l else get_language key rest

-- The last component that is neither empty nor a single dot.
abbrev name_from : String → List String → String
name_from name [] = name
name_from name (part ∷ parts) =
    name_from (if str_eq part String.[] || str_eq part "." then name else part) parts

-- The text from the last dot, unless nothing follows it.
abbrev last_suffix : String → List String → Option String
last_suffix part (next ∷ rest) = last_suffix next rest
last_suffix part [] = if str_eq part String.[] then none else some (append "." part)

-- The suffix after the components between dots: `none` without a dot inside the name.
abbrev suffix_of : List String → Option String
suffix_of [] = none
suffix_of (only ∷ []) = none
suffix_of (before ∷ after ∷ []) =
    if str_eq before String.[] || str_eq after String.[] then none else some (append "." after)
suffix_of (before ∷ part ∷ after ∷ rest) = last_suffix part (after ∷ rest)

-- `PurePosixPath(path).suffix`
unfoldable pub suffix : String → Option String
suffix path = suffix_of (split 46 (name_from String.[] (split 47 path)))

-- `path.replace("\\", "/")`
unfoldable pub with_slashes : String → String
with_slashes String.[] = String.[]
with_slashes (String.◌∷◌ c s) = String.◌∷◌ (if code c == 92 then slash else c) (with_slashes s)

-- `_EXTENSION_MAP.get(suffix) or _EXTENSION_MAP.get(suffix.lower())`
abbrev pub key_or : Option String → Option String → Option String
key_or (some key) other = some key
key_or none other = other

abbrev pub language_for : Option String → Option LanguageInfo
language_for none = none
language_for (some key) = get_language key languages

abbrev pub language_of_suffix : (String → String) → Option String → Option LanguageInfo
language_of_suffix lower none = none
language_of_suffix lower (some s) =
    language_for (key_or (lookup s extension_map) (lookup (lower s) extension_map))

unfoldable pub detect_language : (lower : String → String) (path : String) → Option LanguageInfo
detect_language lower path = language_of_suffix lower (suffix (with_slashes path))
