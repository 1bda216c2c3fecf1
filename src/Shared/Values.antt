-- ===== src/Shared/Values.antt =====
-- `serde_json::Value`. A number is an unsigned or a negative integer, or a finite float, given by
-- its bits. An object's entries are a map with text keys.
use mathlib.Core.Path.{◌≡◌, refl}
use mathlib.Core.Bool.{Bool, true, false, ◌&&◌, ◌||◌, not}
use mathlib.Core.Option.{Option, none, some}
use Prim.Native.Nat.{ℕ, zero, suc, ◌^◌, ◌+◌}
use native.Mathlib.Omega.{arith}
use konf.Shared.Tests.{if◌then◌else◌, ◌==◌}
use konf.Shared.Strings.{Text, text_eq, text_eq_iff}

pub data Number : Type 0 where
  pos_int neg_int float : ℕ → Number

mutual
  pub data Json : Type 0 where
    null : Json
    bool : Bool → Json
    number : Number → Json
    string : Text → Json
    array : Items → Json
    object : Fields → Json

  pub data Items : Type 0 where
    nil : Items
    cons : Json → Items → Items

  pub data Fields : Type 0 where
    end : Fields
    field : Text → Json → Fields → Fields

-- `as_object`, `as_str`, `as_u64`, `is_null`
unfoldable pub as_object : Json → Option Fields
as_object (object fs) = some fs
as_object _ = none

unfoldable pub as_str : Json → Option Text
as_str (string s) = some s
as_str _ = none

unfoldable pub as_u64 : Json → Option ℕ
as_u64 (number (pos_int n)) = some n
as_u64 _ = none

unfoldable pub is_null : Json → Bool
is_null null = true
is_null _ = false

-- `Map::get` and `Map::insert`
unfoldable pub get_field : Text → Fields → Option Json
get_field k end = none
get_field k (field j v fs) = if text_eq j k then some v else get_field k fs

unfoldable pub insert_field : Text → Json → Fields → Fields
insert_field k v end = field k v end
insert_field k v (field j w fs) =
    if text_eq j k then field k v fs else field j w (insert_field k v fs)

pub get_field-insert_field :
    (k j : Text) (v : Json) (fs : Fields)
    → get_field j (insert_field k v fs) ≡ (if text_eq k j then some v else get_field j fs)
unfolding get_field insert_field
get_field-insert_field k j v end = refl
get_field-insert_field k j v (field i w fs) =
    ground
      (arith, text_eq_iff k j, text_eq_iff i k, text_eq_iff i j, get_field-insert_field k j v fs)

unfoldable pub get_item : Items → ℕ → Option Json
get_item nil i = none
get_item (cons v vs) zero = some v
get_item (cons v vs) (suc i) = get_item vs i

unfoldable pub count_fields : Fields → ℕ
count_fields end = 0
count_fields (field k v fs) = count_fields fs + 1

-- Equality of floats, by their bits: the two zeros are equal, and there is no NaN.
is_zero_bits : ℕ → Bool
is_zero_bits b = b == 0 || b == 2 ^ 63

unfoldable pub number_eq : Number → Number → Bool
unfolding is_zero_bits
number_eq (pos_int a) (pos_int b) = a == b
number_eq (neg_int a) (neg_int b) = a == b
number_eq (float a) (float b) = a == b || (is_zero_bits a && is_zero_bits b)
number_eq _ _ = false

bool_eq : Bool → Bool → Bool
bool_eq true b = b
bool_eq false b = not b

found_eq : Option Json → (Json → Bool) → Bool
found_eq none p = false
found_eq (some w) p = p w

-- Equality of values. Two objects are equal if they have as many entries, and each entry of the
-- one is an entry of the other.
unfoldable mutual
  unfolding number_eq bool_eq found_eq

  pub json_eq : Json → Json → Bool
  json_eq null null = true
  json_eq (bool a) (bool b) = bool_eq a b
  json_eq (number a) (number b) = number_eq a b
  json_eq (string a) (string b) = text_eq a b
  json_eq (array a) (array b) = items_eq a b
  json_eq (object a) (object b) = count_fields a == count_fields b && fields_in a b
  json_eq _ _ = false

  pub items_eq : Items → Items → Bool
  items_eq nil nil = true
  items_eq (cons a as') (cons b bs) = json_eq a b && items_eq as' bs
  items_eq _ _ = false

  pub fields_in : Fields → Fields → Bool
  fields_in end b = true
  fields_in (field k v fs) b = found_eq (get_field k b) (json_eq v) && fields_in fs b
