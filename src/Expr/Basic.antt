-- ===== src/Expr/Basic.antt =====
-- The basic values of expr.rs: literals, references and the keywords `exists` and `is empty`.
use konf.Shared.{
  ℕ, ◌+◌, ◌*◌, ◌-◌, ◌^◌, ◌&&◌, ◌||◌, Bool, true, false, not, Option, none, some, List, [], ◌∷◌,
  ◌++◌, if◌then◌else◌, ltb, leb, ◌==◌, Text, text, text_eq, trim, strip_suffix, Json, Items, Fields,
  Result, ok, err, ◌>>=◌, ℤ, pos, negsuc,
}
use konf.Guard.{split}
use konf.Template.{get_member}
use konf.Expr.Values.{
  ExprError, unknown_reference, type_error, ExprValue, bool, int, float, string, list, map, json,
  null, Entries, Floats, get_entry, json_to_expr_value, is_empty_text, is_empty_list, is_empty_map,
}

-- `i64::from_str`: an optional sign, at least one digit, and the value in range.
abbrev pub digit : ℕ → Option ℕ
digit c = if leb b'0' c && leb c b'9' then some (c - b'0') else none

abbrev pub next_digit : (ℕ → Option ℕ) → ℕ → Option ℕ → Option ℕ
next_digit more n none = none
next_digit more n (some d) = more (10 * n + d)

unfoldable pub more_digits : Text → ℕ → Option ℕ
more_digits [] n = some n
more_digits (c ∷ s) n = next_digit (more_digits s) n (digit c)

abbrev pub digits : Text → Option ℕ
digits [] = none
digits (c ∷ s) = more_digits (c ∷ s) 0

abbrev pub positive : Option ℕ → Option ℤ
positive none = none
positive (some n) = if ltb n (2 ^ 63) then some (pos n) else none

abbrev pub negative : Option ℕ → Option ℤ
negative none = none
negative (some n) =
    if n == 0 then some (pos 0) else if leb n (2 ^ 63) then some (negsuc (n - 1)) else none

unfoldable pub parse_i64 : Text → Option ℤ
parse_i64 [] = none
parse_i64 (c ∷ s) =
    if c == b'-'
    then negative (digits s)
    else if c == b'+'
    then positive (digits s)
    else positive (digits (c ∷ s))

-- What stands between two quotes, if the text is quoted.
unfoldable pub unquoted : ℕ → Text → Option Text
unquoted quote [] = none
unquoted quote (c ∷ s) = if c == quote then strip_suffix s (quote ∷ []) else none

module _ {F : Type 0} (floats : Floats F) (context : Entries F) where
  abbrev pub Value : Type 0
  Value = Result (ExprValue F) ExprError

  abbrev pub found_or : ExprError → Option (ExprValue F) → Value
  found_or e none = err e
  found_or e (some v) = ok v

  abbrev pub as_value : Option Json → Option (ExprValue F)
  as_value none = none
  as_value (some j) = some (json_to_expr_value floats j)

  abbrev pub missing : (expr part tail : Text) → ExprError
  missing expr part tail =
      unknown_reference (expr ++ (text ": field '" ++ (part ++ (text "' not found" ++ tail))))

  -- One segment of a reference.
  abbrev pub field_of : (expr part : Text) → ExprValue F → Value
  field_of expr part (map es) = found_or (missing expr part []) (get_entry floats part es)
  field_of expr part (json j) =
      found_or (missing expr part (text " in JSON")) (as_value (get_member j part))
  field_of expr part current = err (type_error (text "map or object") (floats.debug current))

  unfoldable pub follow_reference : (expr : Text) → List Text → ExprValue F → Value
  follow_reference expr [] current = ok current
  follow_reference expr (part ∷ parts) current =
      field_of expr part current >>= follow_reference expr parts

  abbrev pub from_root : (expr : Text) → List Text → Option (ExprValue F) → Value
  from_root expr parts none = err (unknown_reference expr)
  from_root expr parts (some root) = follow_reference expr parts root

  unfoldable pub reference : (expr : Text) → List Text → Value
  reference expr [] = err (unknown_reference expr)
  reference expr (root ∷ parts) = from_root expr parts (get_entry floats root context)

  abbrev pub float_or_reference : Text → Result F Text → Value
  float_or_reference expr (ok f) = ok (float f)
  float_or_reference expr (err problem) = reference expr (split b'.' expr)

  abbrev pub number_or_reference : Text → Option ℤ → Value
  number_or_reference expr none = float_or_reference expr (floats.parse_float expr)
  number_or_reference expr (some n) = ok (int n)

  abbrev pub single_quoted : Text → Option Text → Value
  single_quoted expr none = number_or_reference expr (parse_i64 expr)
  single_quoted expr (some s) = ok (string s)

  abbrev pub double_quoted : Text → Option Text → Value
  double_quoted expr none = single_quoted expr (unquoted b'\'' expr)
  double_quoted expr (some s) = ok (string s)

  abbrev pub literal_or : Text → Value
  literal_or expr =
      if text_eq expr (text "true")
      then ok (bool true)
      else if text_eq expr (text "false")
      then ok (bool false)
      else if text_eq expr (text "null") || text_eq expr (text "None")
      then ok null
      else double_quoted expr (unquoted b'"' expr)

  unfoldable pub eval_value : Text → Value
  eval_value expr = literal_or (trim expr)

  abbrev pub is_null_value : ExprValue F → Bool
  is_null_value null = true
  is_null_value _ = false

  -- `exists` is false where the reference fails.
  abbrev pub exists_value : Value → ExprValue F
  exists_value (ok v) = bool (not (is_null_value v))
  exists_value (err e) = bool false

  unfoldable pub is_empty_value : ExprValue F → Bool
  is_empty_value (string s) = is_empty_text floats s
  is_empty_value (list vs) = is_empty_list floats vs
  is_empty_value (map es) = is_empty_map floats es
  is_empty_value (json (Json.array Items.nil)) = true
  is_empty_value (json (Json.object Fields.end)) = true
  is_empty_value (json (Json.string s)) = is_empty_text floats s
  is_empty_value null = true
  is_empty_value _ = false

  -- `try_keyword_op`, and the basic value where there is no keyword.
  abbrev pub empty_or_value : Text → Option Text → Value
  empty_or_value expr none = eval_value expr
  empty_or_value expr (some reference) =
      eval_value (trim reference) >>= λ v. ok (bool (is_empty_value v))

  abbrev pub exists_or : Text → Option Text → Value
  exists_or expr none = empty_or_value expr (strip_suffix expr (text " is empty"))
  exists_or expr (some reference) = ok (exists_value (eval_value (trim reference)))

  unfoldable pub keyword_or_value : Text → Value
  keyword_or_value expr = exists_or expr (strip_suffix expr (text " exists"))
