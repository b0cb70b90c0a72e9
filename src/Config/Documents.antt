-- ===== src/Config/Documents.antt =====
-- Documents of numbers, texts, objects and arrays, as an instance of the JSON parameter.
use my_rpc_project_v.Base.{
  List, [], ◌∷◌, Option, none, some, true, false, Bytes, bytes_eq, if◌then◌else◌, ℤ,
}
use my_rpc_project_v.Config.{Json}

-- `pair` is a member of an object in front of the others, `item` one of an array.
pub data Value : Type 0 where
  num : ℤ → Value
  str : Bytes → Value
  pair : Bytes → Value → Value → Value
  item : Value → Value → Value
  end : Value

abbrev pub find : Bytes → Value → Option Value
find key (pair k v rest) = if bytes_eq k key then some v else find key rest
find key (num n) = none
find key (str text) = none
find key (item v rest) = none
find key end = none

abbrev pub items : Value → List Value
items (item v rest) = v ∷ items rest
items (num n) = []
items (str text) = []
items (pair k v rest) = []
items end = []

abbrev pub text_of : Value → Option Bytes
text_of (str text) = some text
text_of _ = none

abbrev pub number_of : Value → Option ℤ
number_of (num n) = some n
number_of _ = none

abbrev pub documents : Value → Json
documents document = record {
  Value = Value;
  parse = λ file. elim file [ [] ↦ none | x ∷ xs ↦ some document ];
  empty = λ v. elim v [ end ↦ true | _ ↦ false ];
  contains = λ v key. elim (find key v) [ none ↦ false | some w ↦ true ];
  field = λ v key. find key v;
  elements = items;
  text_value = λ v key otherwise. elim (find key v) [ none ↦ some otherwise | some w ↦ text_of w ];
  number_value =
      λ v key otherwise. elim (find key v) [ none ↦ some otherwise | some w ↦ number_of w ];
  text = text_of;
  number = number_of;
}
