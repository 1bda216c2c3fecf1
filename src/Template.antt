-- ===== src/Template.antt =====
-- crates/konflux-substrate/src/template.rs: how the inputs of a step are resolved from the outputs.
-- The rendering of a template by minijinja is the argument `render`.
pub mod Pure
mod Tests
use konf.Shared.{
  ℕ, ◌&&◌, ◌||◌, Bool, true, false, not, Option, none, some, List, [], ◌∷◌, ◌++◌, all, any,
  if◌then◌else◌, leb, ◌==◌, Text, text, trim, strip_prefix, strip_suffix, Table, lookup, insert,
  Json, null, bool, number, string, array, object, Items, nil, cons, Fields, end, field, get_field,
  insert_field, Result, ok, err, ok_or, ◌>>=◌,
}
use konf.Guard.{contains, split}
use konf.Workflow.{Expr, literal, ref, template, json}

unfoldable pub has_templates : Text → Bool
has_templates s = contains s (text "{{") && contains s (text "}}")

-- The characters of filters, calls, comparisons and arithmetic.
unfoldable pub is_operator : ℕ → Bool
is_operator c = any (λ d. c == d) (text "|()[]+-=<>,")

unfoldable pub is_digit : ℕ → Bool
is_digit c = leb b'0' c && leb c b'9'

unfoldable pub is_word : ℕ → Bool
is_word c = is_digit c || (leb b'a' c && leb c b'z') || (leb b'A' c && leb c b'Z') || c == b'_'

unfoldable pub is_segment : Text → Bool
is_segment [] = false
is_segment (c ∷ s) = all is_word (c ∷ s) && not (is_digit c)

abbrev pub is_empty : Text → Bool
is_empty [] = true
is_empty (c ∷ s) = false

-- The checks on what stands between the braces.
unfoldable pub is_path : Text → Bool
is_path inner =
    not (contains inner (text "{{") || contains inner (text "}}"))
    && not (any is_operator inner)
    && not (is_empty inner)
    && all is_segment (split b'.' inner)

abbrev pub between : Option Text → Option Text
between none = none
between (some s) = strip_suffix s (text "}}")

abbrev pub checked_path : Option Text → Option Text
checked_path none = none
checked_path (some s) = let inner = trim s in if is_path inner then some inner else none

unfoldable pub try_pure_ref : Text → Option Text
try_pure_ref s = checked_path (between (strip_prefix (trim s) (text "{{")))

-- `Value::get` with a text, which only an object answers.
abbrev pub get_member : Json → Text → Option Json
get_member (object fs) k = get_field k fs
get_member _ k = none

unfoldable pub follow_path : List Text → Option Json → Option Json
follow_path [] current = current
follow_path (part ∷ parts) none = none
follow_path (part ∷ parts) (some v) = follow_path parts (get_member v part)

-- The first segment names an output, the others lead into it.
abbrev pub resolve_parts : List Text → Table Json → Option Json
resolve_parts [] state = none
resolve_parts (root ∷ parts) state = follow_path parts (lookup root state)

unfoldable pub resolve_ref : Text → Table Json → Option Json
resolve_ref path state = resolve_parts (split b'.' path) state

abbrev pub map_ok {ℓ κ} : {A B : Type ℓ} {E : Type κ} → (A → B) → Result A E → Result B E
map_ok f (ok a) = ok (f a)
map_ok f (err e) = err e

module _ (render : Text → Table Json → Result Text Text) (state : Table Json) where
  abbrev pub rendered : Text → Result Json Text
  rendered s = map_ok string (render s state)

  -- A pure reference that resolves is its value; anything else is rendered.
  abbrev pub value_or_rendered : Text → Option Json → Result Json Text
  value_or_rendered s none = rendered s
  value_or_rendered s (some v) = ok v

  abbrev pub resolved_path : Option Text → Option Json
  resolved_path none = none
  resolved_path (some path) = resolve_ref path state

  unfoldable pub resolve_string : Text → Result Json Text
  resolve_string s =
      if has_templates s
      then value_or_rendered s (resolved_path (try_pure_ref s))
      else ok (string s)

  unfoldable mutual
    unfolding resolve_string

    pub resolve_json_templates : Json → Result Json Text
    resolve_json_templates null = ok null
    resolve_json_templates (bool b) = ok (bool b)
    resolve_json_templates (number n) = ok (number n)
    resolve_json_templates (string s) = resolve_string s
    resolve_json_templates (array vs) = map_ok array (resolve_items vs)
    resolve_json_templates (object fs) = map_ok object (resolve_fields fs end)

    pub resolve_items : Items → Result Items Text
    resolve_items nil = ok nil
    resolve_items (cons v vs) =
        resolve_json_templates v >>= λ w. resolve_items vs >>= λ ws. ok (cons w ws)

    -- The entries are inserted one after the other.
    pub resolve_fields : Fields → Fields → Result Fields Text
    resolve_fields end resolved = ok resolved
    resolve_fields (field k v fs) resolved =
        resolve_json_templates v >>= λ w. resolve_fields fs (insert_field k w resolved)

  unfoldable pub resolve_expr : Expr → Result Json Text
  resolve_expr (literal s) = ok (string s)
  resolve_expr (ref path) = ok_or (resolve_ref path state) (text "unresolved reference: " ++ path)
  resolve_expr (template tmpl) = rendered tmpl
  resolve_expr (json v) = resolve_json_templates v

  unfoldable pub resolve_from : Table Expr → Table Json → Result (Table Json) Text
  resolve_from [] resolved = ok resolved
  resolve_from ((key, expr) ∷ inputs) resolved =
      resolve_expr expr >>= λ value. resolve_from inputs (insert key value resolved)

  unfoldable pub resolve_inputs : Table Expr → Result (Table Json) Text
  unfolding resolve_from
  resolve_inputs inputs = resolve_from inputs []
