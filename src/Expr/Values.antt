-- ===== src/Expr/Values.antt =====
-- The values of expr.rs: their conversion from JSON, and what `to_bool`, `equals` and `compare` make
-- of them.
use konf.Shared.{
  ◌^◌, Bool, true, false, not, Option, none, some, [], ◌∷◌, ◌++◌, if◌then◌else◌, ltb, ◌==◌, Text,
  text, text_eq, Json, Number, pos_int, neg_int, Items, Fields, json_eq, Result, ok, err, ◌>>=◌, ℤ,
  pos, negsuc,
}

pub data ExprError : Type 0 where
  parse_error : Text → ExprError
  type_error : (expected got : Text) → ExprError
  unknown_reference : Text → ExprError
  division_by_zero : ExprError

mutual
  pub data ExprValue (F : Type 0) : Type 0 where
    bool : Bool → ExprValue F
    int : ℤ → ExprValue F
    float : F → ExprValue F
    string : Text → ExprValue F
    list : Elements F → ExprValue F
    map : Entries F → ExprValue F
    json : Json → ExprValue F
    null : ExprValue F

  pub data Elements (F : Type 0) : Type 0 where
    nil : Elements F
    cons : ExprValue F → Elements F → Elements F

  pub data Entries (F : Type 0) : Type 0 where
    end : Entries F
    entry : Text → ExprValue F → Entries F → Entries F

-- The operations on `f64`, and `Number::as_f64`. `near a b` is `(a - b).abs() < f64::EPSILON`.
pub record Floats (F : Type 0) : Type 0 where
  pub parse_float : Text → Result F Text
  pub of_int : ℤ → F
  pub as_f64 : Number → Option F
  pub show_number : Number → Text
  pub debug_number : Number → Text
  pub is_zero : F → Bool
  pub below : F → F → Bool
  pub near : F → F → Bool
  pub same : F → F → Bool
  pub debug : ExprValue F → Text

-- `Number::as_i64`
unfoldable pub as_i64 : Number → Option ℤ
as_i64 (pos_int n) = if ltb n (2 ^ 63) then some (pos n) else none
as_i64 (neg_int n) = some (negsuc n)
as_i64 (Number.float bits) = none

unfoldable pub int_eq : ℤ → ℤ → Bool
int_eq (pos a) (pos b) = a == b
int_eq (negsuc a) (negsuc b) = a == b
int_eq _ _ = false

module _ {F : Type 0} (floats : Floats F) where
  abbrev pub float_or_text : Number → Option F → ExprValue F
  float_or_text n none = string (floats.show_number n)
  float_or_text n (some f) = float f

  abbrev pub int_or_float : Number → Option ℤ → ExprValue F
  int_or_float n none = float_or_text n (floats.as_f64 n)
  int_or_float n (some i) = int i

  -- `HashMap::insert`
  unfoldable pub insert_entry : Text → ExprValue F → Entries F → Entries F
  insert_entry k v end = entry k v end
  insert_entry k v (entry j w es) =
      if text_eq j k then entry k v es else entry j w (insert_entry k v es)

  unfoldable pub get_entry : Text → Entries F → Option (ExprValue F)
  get_entry k end = none
  get_entry k (entry j v es) = if text_eq j k then some v else get_entry k es

  unfoldable mutual
    unfolding insert_entry

    pub json_to_expr_value : Json → ExprValue F
    json_to_expr_value Json.null = null
    json_to_expr_value (Json.bool b) = bool b
    json_to_expr_value (Json.number n) = int_or_float n (as_i64 n)
    json_to_expr_value (Json.string s) = string s
    json_to_expr_value (Json.array vs) = list (elements_of vs)
    json_to_expr_value (Json.object fs) = map (entries_of fs end)

    pub elements_of : Items → Elements F
    elements_of Items.nil = nil
    elements_of (Items.cons v vs) = cons (json_to_expr_value v) (elements_of vs)

    pub entries_of : Fields → Entries F → Entries F
    entries_of Fields.end es = es
    entries_of (Fields.field k v fs) es = entries_of fs (insert_entry k (json_to_expr_value v) es)

  abbrev pub is_empty_text : Text → Bool
  is_empty_text [] = true
  is_empty_text (c ∷ s) = false

  abbrev pub is_empty_list : Elements F → Bool
  is_empty_list nil = true
  is_empty_list (cons v vs) = false

  abbrev pub is_empty_map : Entries F → Bool
  is_empty_map end = true
  is_empty_map (entry k v es) = false

  abbrev pub json_to_bool : Json → Bool
  json_to_bool (Json.bool b) = b
  json_to_bool (Json.string s) = not (is_empty_text s)
  json_to_bool Json.null = false
  json_to_bool _ = true

  unfoldable pub to_bool : ExprValue F → Bool
  to_bool (bool b) = b
  to_bool (int (pos n)) = not (n == 0)
  to_bool (int (negsuc n)) = true
  to_bool (float f) = not (floats.is_zero f)
  to_bool (string s) = not (is_empty_text s)
  to_bool (list vs) = not (is_empty_list vs)
  to_bool (map es) = not (is_empty_map es)
  to_bool (json j) = json_to_bool j
  to_bool null = false

  abbrev pub bools_eq : Bool → Bool → Bool
  bools_eq true b = b
  bools_eq false b = not b

  abbrev pub is_int : Option ℤ → ℤ → Bool
  is_int none b = false
  is_int (some a) b = int_eq a b

  abbrev pub is_float : Option F → F → Bool
  is_float none b = false
  is_float (some a) b = floats.same a b

  unfoldable pub equals : ExprValue F → ExprValue F → Bool
  equals (bool a) (bool b) = bools_eq a b
  equals (int a) (int b) = int_eq a b
  equals (float a) (float b) = floats.near a b
  equals (string a) (string b) = text_eq a b
  equals (json (Json.string s)) (string b) = text_eq s b
  equals (string a) (json (Json.string s)) = text_eq a s
  equals (json (Json.number n)) (int b) = is_int (as_i64 n) b
  equals (int a) (json (Json.number n)) = is_int (as_i64 n) a
  equals (json (Json.number n)) (float b) = is_float (floats.as_f64 n) b
  equals (float a) (json (Json.number n)) = is_float (floats.as_f64 n) a
  equals (json a) (json b) = json_eq a b
  equals null null = true
  equals _ _ = false

  abbrev pub parsed : Text → Result F Text → Result F ExprError
  parsed s (ok f) = ok f
  parsed s (err problem) =
      err (type_error (text "numeric string") (text "'" ++ (s ++ (text "' error: " ++ problem))))

  abbrev pub number_or : Number → Option F → Result F ExprError
  number_or n none =
      err (type_error (text "number") (text "json non-number: " ++ floats.debug_number n))
  number_or n (some f) = ok f

  unfoldable pub to_float : ExprValue F → Result F ExprError
  to_float (int i) = ok (floats.of_int i)
  to_float (float f) = ok f
  to_float (string s) = parsed s (floats.parse_float s)
  to_float (json (Json.number n)) = number_or n (floats.as_f64 n)
  to_float (json (Json.string s)) = parsed s (floats.parse_float s)
  to_float v = err (type_error (text "number") (floats.debug v))

  -- -1, 0 or 1
  abbrev pub sign_of : F → F → ℤ
  sign_of a b = if floats.below a b then negsuc 0 else if floats.below b a then pos 1 else pos 0

  unfoldable pub compare : ExprValue F → ExprValue F → Result ℤ ExprError
  compare a b = to_float a >>= λ va. to_float b >>= λ vb. ok (sign_of va vb)
