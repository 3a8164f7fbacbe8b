-- ===== src/Languages/Tests.antt =====
-- Tests and examples of language detection.
use legacy_doc.Common.{◌≡◌, refl, is_some, String, Option, map, some, none, str_eq, if◌then◌else◌}
use mathlib.Core.Option
use legacy_doc.Languages.{suffix, with_slashes, detect_language}

-- `lower` on the texts of the tests.
abbrev lower : String → String
lower s = if str_eq s ".PY" then ".py" else s

suffix_dotfile : suffix "src/.gitignore" ≡ none
unfolding suffix legacy_doc.Common.split
suffix_dotfile = refl

suffix_two : suffix "a/b.tar.gz" ≡ some ".gz"
unfolding suffix legacy_doc.Common.split
suffix_two = refl

detect_upper : Option.map (λ l. l.name) (detect_language lower "src\\MAIN.PY") ≡ some "python"
unfolding detect_language suffix with_slashes legacy_doc.Common.split
detect_upper = refl
