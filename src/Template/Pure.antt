-- ===== src/Template/Pure.antt =====
-- A text that is one reference in braces.
use konf.Shared.{
  Option, none, some, ◌≡◌, refl, true, [], ◌∷◌, ◌++◌, arith, Text, text, text_eq, starts_with,
  strip_prefix, strip_suffix-append, trim, trim_start, trim_end, trim_end-append, Json, string,
  Table, Result, ok, err,
}
use konf.Guard.{contains}
use konf.Template.{
  has_templates, is_path, try_pure_ref, resolve_ref, value_or_rendered, resolve_string,
  resolve_json_templates,
}

contains_behind : (s t value : Text) → contains t value ≡ true → contains (s ++ t) value ≡ true
unfolding contains
contains_behind [] t value h = h
contains_behind (c ∷ s) t value h = rw (contains_behind s t value h) (ground arith)

abbrev pub in_braces : Text → Text
in_braces inner = text "{{" ++ (inner ++ text "}}")

in_braces_templates : (inner : Text) → has_templates (in_braces inner) ≡ true
unfolding has_templates contains starts_with text_eq
in_braces_templates inner = contains_behind inner (text "}}") (text "}}") refl

in_braces_trimmed : (inner : Text) → trim (in_braces inner) ≡ in_braces inner
unfolding trim trim_start trim_end
in_braces_trimmed inner = trim_end-append (b'{' ∷ b'{' ∷ inner) (text "}}") (omega arith) refl

pure_path :
    (inner : Text)
    → is_path (trim inner) ≡ true
    → try_pure_ref (in_braces inner) ≡ some (trim inner)
unfolding try_pure_ref strip_prefix
pure_path inner h = rw (in_braces_trimmed inner, strip_suffix-append inner (text "}}"), h) refl

-- What an input in braces should come to: the value that is referred to, as it is, and else the
-- text that the renderer makes, or its error.
abbrev pub passed : Option Json → Result Text Text → Result Json Text
passed (some value) r = ok value
passed none (ok rendered) = ok (string rendered)
passed none (err problem) = err problem

value_or_rendered-passed :
    (render : Text → Table Json → Result Text Text) (state : Table Json) (s : Text)
    (o : Option Json) (r : Result Text Text)
    → render s state ≡ r
    → value_or_rendered render state s o ≡ passed o r
value_or_rendered-passed render state s (some value) r h = refl
value_or_rendered-passed render state s none (ok t) h = rw h refl
value_or_rendered-passed render state s none (err problem) h = rw h refl

-- A text that is one reference in braces, with blanks round it or without, has the value of the
-- reference, of whatever type, if the reference resolves; otherwise the text is rendered, and what
-- the renderer makes of it is the value, as a text, or its error is the error.
pub resolve_json_templates-pure :
    (render : Text → Table Json → Result Text Text) (state : Table Json) (inner : Text)
    → is_path (trim inner) ≡ true
    → resolve_json_templates render state (string (in_braces inner))
      ≡ passed (resolve_ref (trim inner) state) (render (in_braces inner) state)
unfolding resolve_json_templates resolve_string
resolve_json_templates-pure render state inner h =
    rw (in_braces_templates inner, pure_path inner h)
      (value_or_rendered-passed render state (in_braces inner) (resolve_ref (trim inner) state)
        (render (in_braces inner) state) refl)
