-- ===== src/Firewall/Json.antt =====
-- The values that the agent's answers hold (web/src/app/(panel)/router/firewall/normalize.ts). A
-- missing key is `absent`. Numbers are whole and not negative, as the firmware's are; the fields of
-- an object stand in the order of its keys, which are distinct.
use zte_u60_pro_mu5250_manag.Common.{
  ℕ, Bool, true, false, Option, none, some, List, [], ◌∷◌, String, if◌then◌else◌, str_eq,
}

mutual
  pub data Json : Type 0 where
    absent null : Json
    bool : Bool → Json
    number : ℕ → Json
    text : String → Json
    array : Jsons → Json
    object : Fields → Json

  pub data Jsons : Type 0 where
    no_item : Jsons
    item : Json → Jsons → Jsons

  pub data Fields : Type 0 where
    no_field : Fields
    field : String → Json → Fields → Fields

-- `o[k]`.
unfoldable pub get : Fields → String → Json
get no_field k = Json.absent
get (field j v o) k = if str_eq j k then v else get o k

-- `v !== undefined && v !== null`.
abbrev pub is_given : Json → Bool
is_given Json.absent = false
is_given Json.null = false
is_given _ = true

-- `isObj`, with the object's fields.
abbrev pub as_object : Json → Option Fields
as_object (Json.object o) = some o
as_object _ = none

-- `pick(o, ...keys)`: the first given value.
unfoldable pub pick : Option Fields → List String → Json
unfolding get
pick none ks = Json.absent
pick (some o) [] = Json.absent
pick (some o) (k ∷ ks) = if is_given (get o k) then get o k else pick (some o) ks

-- `list.filter(isObj)`.
unfoldable pub objects : Jsons → List Fields
objects no_item = []
objects (item (Json.object o) vs) = o ∷ objects vs
objects (item v vs) = objects vs

-- The arrays among the values of an object.
unfoldable pub arrays : Fields → List Jsons
arrays no_field = []
arrays (field k (Json.array vs) o) = vs ∷ arrays o
arrays (field k v o) = arrays o

-- `ruleList` of an object without an array `rule_list`.
unfoldable pub only_array : Fields → List Jsons → Option (List Fields)
unfolding objects
only_array no_field _ = some []
only_array (field k v o) (vs ∷ []) = some (objects vs)
only_array (field k v o) _ = none

-- `ruleList`: a bare array, `rule_list`, the only array of an object, or nothing for `{}`.
unfoldable pub rule_list : Json → Option (List Fields)
unfolding get objects only_array arrays
rule_list (Json.array vs) = some (objects vs)
rule_list (Json.object o) = elim (get o "rule_list") [
  | Json.array vs ↦ some (objects vs)
  | _ ↦ only_array o (arrays o)
]
rule_list _ = none
