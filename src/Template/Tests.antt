-- ===== src/Template/Tests.antt =====
-- Inputs that refer to an output, and the theorem about references in braces.
use konf.Shared.{
  ◌≡◌, refl, true, [], ◌∷◌, Text, text, text_eq, starts_with, strip_prefix, strip_suffix, trim,
  trim_start, trim_end, Json, string, number, pos_int, array, nil, cons, object, field, end, Table,
  lookup, get_field, insert_field, Result, ok, err,
}
use konf.Guard.{contains, split}
use konf.Template.{
  has_templates, is_operator, is_digit, is_word, is_segment, is_path, try_pure_ref, follow_path,
  resolve_ref, resolve_string, resolve_json_templates,
}
use konf.Template.Pure.{in_braces, passed, resolve_json_templates-pure}

-- A renderer that refuses.
abbrev refuse : Text → Table Json → Result Text Text
refuse s vars = err (text "template render error")

abbrev messages : Json
messages = array (cons (string (text "hi")) (cons (number (pos_int 2)) nil))

abbrev state : Table Json
state = (text "prior", object (field (text "messages") messages end)) ∷ []

-- An array is passed on as an array, inside an object.
passed_on :
    resolve_json_templates refuse state (
      object (
        field
          (text "m")
          (string (text "{{ prior.messages }}"))
          (field (text "n") (string (text "plain")) end)))
    ≡ ok (object (field (text "m") messages (field (text "n") (string (text "plain")) end)))
unfolding resolve_json_templates resolve_string has_templates contains starts_with text_eq
    try_pure_ref strip_prefix strip_suffix trim trim_start trim_end is_path is_operator is_segment
    is_word is_digit split resolve_ref follow_path lookup get_field insert_field
passed_on = refl

-- With text round it the reference is rendered.
rendered_run :
    resolve_json_templates refuse state (string (text "see {{ prior.messages }}"))
    ≡ err (text "template render error")
unfolding resolve_json_templates resolve_string has_templates contains starts_with text_eq
    try_pure_ref strip_prefix trim trim_start trim_end
rendered_run = refl

a_path : is_path (trim (text " prior.messages ")) ≡ true
unfolding is_path is_operator is_segment is_word is_digit split trim trim_start trim_end contains
    starts_with text_eq
a_path = refl

resolve_json_templates-pure_example :
    resolve_json_templates refuse state (string (in_braces (text " prior.messages ")))
    ≡ passed
        (resolve_ref (trim (text " prior.messages ")) state)
        (refuse (in_braces (text " prior.messages ")) state)
resolve_json_templates-pure_example =
    resolve_json_templates-pure refuse state (text " prior.messages ") a_path
