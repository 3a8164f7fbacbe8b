-- ===== src/Languages/Detection.antt =====
-- The two tables fit: every extension has a language.
use legacy_doc.Common.{
  ◌≡◌, refl, sym, ap, ◌∙◌, Bool, true, false, ◌&&◌, ◌||◌, Bool-cases, inl, inr, Option, none, some,
  List, [], ◌∷◌, String, str_eq, any, is_some, arith,
}
use legacy_doc.Languages.{
  languages, extension_map, is_supported, lookup, get_language, key_or, language_for,
  language_of_suffix, suffix, with_slashes, detect_language,
}

abbrev every_known : List (String × String) → Bool
every_known [] = true
every_known (entry ∷ rest) = is_some (get_language entry.1 languages) && every_known rest

and_parts : (a b : Bool) → (a && b) ≡ true → (a ≡ true) × (b ≡ true)
and_parts a b h = (ground (arith, h), ground (arith, h))

lookup-known :
    (s : String) (m : List (String × String))
    → every_known m ≡ true
    → (is_some (lookup s m) ≡ any (λ entry. str_eq entry.0 s) m)
      × (is_some (language_for (lookup s m)) ≡ any (λ entry. str_eq entry.0 s) m)
lookup-known s [] h = (refl, refl)
lookup-known s ((k, v) ∷ rest) h =
    let (head, tail) = and_parts (is_some (get_language v languages)) (every_known rest) h in
    let (found, known) = lookup-known s rest tail in
    elim (Bool-cases (str_eq k s)) [ inl e ↦ rw e (refl, head) | inr e ↦ rw e (found, known) ]

key_or-known :
    (a b : Option String)
    → is_some (language_for a) ≡ is_some a
    → is_some (language_for (key_or a b)) ≡ (is_some (language_for a) || is_some (language_for b))
key_or-known none b h = refl
key_or-known (some key) b h = ground (arith, h)

-- A suffix is supported as it is written or in lower case.
abbrev pub is_supported_suffix : (String → String) → Option String → Bool
is_supported_suffix lower none = false
is_supported_suffix lower (some s) = is_supported s || is_supported (lower s)

language_of_suffix-known :
    (lower : String → String) (o : Option String)
    → is_some (language_of_suffix lower o) ≡ is_supported_suffix lower o
language_of_suffix-known lower none = refl
language_of_suffix-known lower (some s) =
    let (found, known) = lookup-known s extension_map refl in
    let (_, known') = lookup-known (lower s) extension_map refl in
    key_or-known (lookup s extension_map) (lookup (lower s) extension_map) (known ∙ sym found)
    ∙ ap (λ b. b || is_some (language_for (lookup (lower s) extension_map))) known
    ∙ ap (λ b. is_supported s || b) known'

-- A path has a language exactly when its suffix, as it is written or in lower case, is one of the
-- supported extensions: no extension of the table leads to a language that does not exist.
pub detect_language_iff :
    (lower : String → String) (path : String)
    → is_some (detect_language lower path) ≡ is_supported_suffix lower (suffix (with_slashes path))
unfolding detect_language
detect_language_iff lower path = language_of_suffix-known lower (suffix (with_slashes path))
