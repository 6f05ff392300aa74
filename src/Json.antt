-- ===== src/Json.antt =====
-- serde_json's `Value` as the gateway's code sees it: its constructors, and the accessors that the
-- code calls. An object is a `BTreeMap`, so its fields are kept in the order of their keys.
use Prim.Native.Nat.{Ordering}
use Prim.Native.String.{compare}
use native.Mathlib.Decide.{ℕ_discrete}
use cld_gateway.Base.{
  Bool-cases, inl, inr, ℕ, String, Bool, Option, none, some, List, [], ◌∷◌, arith, str_eq,
  if◌then◌else◌, eq_iff,
}
use cld_gateway.Base.Int.{ℤ, pos, negsuc}

-- An integer, or a floating-point number by its text.
pub data Number : Type 0 where
  int : ℤ → Number
  float : String → Number

mutual
  pub data Json : Type 0 where
    null : Json
    bool : Bool → Json
    number : Number → Json
    string : String → Json
    array : Items → Json
    object : Fields → Json

  pub data Items : Type 0 where
    nil : Items
    cons : Json → Items → Items

  pub data Fields : Type 0 where
    end : Fields
    field : String → Json → Fields → Fields

-- `Map::get`.
unfoldable pub get_field : String → Fields → Option Json
get_field k end = none
get_field k (field j v m) = if str_eq j k then some v else get_field k m

-- `Map::insert`.
unfoldable pub insert_field : String → Json → Fields → Fields
insert_field k v end = field k v end
insert_field k v (field j w m) = elim (compare k j) [
  | Ordering.lt ↦ field k v (field j w m)
  | Ordering.eq ↦ field k v m
  | Ordering.gt ↦ field j w (insert_field k v m)
]

-- `Map::remove`.
unfoldable pub remove_field : String → Fields → Fields
remove_field k end = end
remove_field k (field j w m) =
    let rest = remove_field k m in if str_eq j k then rest else field j w rest

-- `Value::get` by a key.
unfoldable pub get : String → Json → Option Json
unfolding get_field
get k (object m) = get_field k m
get k null = none
get k (bool b) = none
get k (number n) = none
get k (string s) = none
get k (array xs) = none

unfoldable pub as_str : Json → Option String
as_str (string s) = some s
as_str null = none
as_str (bool b) = none
as_str (number n) = none
as_str (array xs) = none
as_str (object m) = none

abbrev pub as_u64_number : Number → Option ℕ
as_u64_number (int (pos n)) = some n
as_u64_number (int (negsuc n)) = none
as_u64_number (float t) = none

unfoldable pub as_u64 : Json → Option ℕ
as_u64 (number n) = as_u64_number n
as_u64 null = none
as_u64 (bool b) = none
as_u64 (string s) = none
as_u64 (array xs) = none
as_u64 (object m) = none

abbrev pub to_list : Items → List Json
to_list nil = []
to_list (cons x xs) = x ∷ to_list xs

abbrev pub from_list : List Json → Items
from_list [] = nil
from_list (x ∷ xs) = cons x (from_list xs)

unfoldable pub as_array : Json → Option (List Json)
as_array (array xs) = some (to_list xs)
as_array null = none
as_array (bool b) = none
as_array (number n) = none
as_array (string s) = none
as_array (object m) = none

unfoldable pub as_object : Json → Option Fields
as_object (object m) = some m
as_object null = none
as_object (bool b) = none
as_object (number n) = none
as_object (string s) = none
as_object (array xs) = none

pub String-discrete : Discrete String
String-discrete s t = elim (Bool-cases (str_eq s t)) [
  | inl e ↦ yes ((eq_iff s t).0 e)
  | inr e ↦ no (λ p. ground (arith, eq_iff s t))
]

-- `==` on `Value`.
unfoldable pub Json-discrete : Discrete Json
Json-discrete = hlevel (ℕ_discrete, String-discrete)
