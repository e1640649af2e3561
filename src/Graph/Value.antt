-- ===== src/Graph/Value.antt =====
-- The dynamically typed values that `UpdateTask` is given, and how internal/graph/dag.go reads them:
-- coerceString (fmt.Sprintf with %v), coerceInt and marshalLabelsValue.
use chum.Base.{
  ℕ, zero, suc, ◌+◌, ◌/◌, ◌%◌, List, [], ◌∷◌, ◌++◌, Option, none, some, ltb, if◌then◌else◌,
}
use chum.Base.Int.{ℤ, pos, negsuc}
use chum.Base.Result.{Result, ok, err}
use chum.Text.{Text, text}

-- The dynamic types that the code tells apart. `floating n s` is a float that truncates to `n` and is
-- printed as `s`; `strings` is `[]string`; `anys` is `[]any`, where `none` is an element that is no
-- string, with its printed form; `other` is any other value, with its printed form.
pub data AnyValue : Type 0 where
  nil_value : AnyValue
  str : Text → AnyValue
  integer : ℤ → AnyValue
  floating : ℤ → Text → AnyValue
  strings : List Text → AnyValue
  anys : List (Option Text) → Text → AnyValue
  other : Text → AnyValue

-- What is wrong with an argument or with the state of the tables.
pub data Error : Type 0 where
  project_required id_required from_required to_required task_id_required : Error
  random_failed max_id_attempts : Error
  not_found : Text → Error
  not_updatable : Text → Error
  no_recognized_fields not_an_integer : Error
  label_not_string : ℕ → Error
  labels_not_json labels_not_strings : Error
  unresolved_dependency : Text → Text → Error
  self_loop cross_project would_cycle query_diverges : Error

-- The decimal digits of a number, lowest last; the fuel `suc n` is enough for `n`.
unfoldable pub decimal_from : ℕ → ℕ → Text → Text
decimal_from zero n rest = rest
decimal_from (suc f) n rest =
    let more = decimal_from f (n / 10) ((48 + n % 10) ∷ rest) in
    if ltb n 10 then (48 + n) ∷ rest else more

unfoldable pub decimal : ℕ → Text
unfolding decimal_from
decimal n = decimal_from (suc n) n []

abbrev pub join_from : Text → List Text → Text
join_from sep [] = []
join_from sep (x ∷ xs) = sep ++ (x ++ join_from sep xs)

-- `strings.Join`.
abbrev pub join : Text → List Text → Text
join sep [] = []
join sep (x ∷ xs) = x ++ join_from sep xs

-- `coerceString`: the `%v` form.
unfoldable pub coerce_string : AnyValue → Text
unfolding decimal
coerce_string nil_value = text "<nil>"
coerce_string (str s) = s
coerce_string (integer (pos n)) = decimal n
coerce_string (integer (negsuc n)) = b'-' ∷ decimal (suc n)
coerce_string (floating n s) = s
coerce_string (strings ss) = b'[' ∷ (join (b' ' ∷ []) ss ++ b']' ∷ [])
coerce_string (anys es s) = s
coerce_string (other s) = s

-- `coerceInt`.
unfoldable pub coerce_int : AnyValue → Result Error ℤ
coerce_int (integer n) = ok n
coerce_int (floating n s) = ok n
coerce_int _ = err not_an_integer

-- The loop over a `[]any`, from position `i` on.
unfoldable pub all_strings : ℕ → List (Option Text) → Result Error (List Text)
all_strings i [] = ok []
all_strings i (none ∷ es) = err (label_not_string i)
all_strings i (some s ∷ es) = elim (all_strings (suc i) es) [ ok ss ↦ ok (s ∷ ss) | err e ↦ err e ]

-- `marshalLabelsValue`, with the column held decoded. `decode` is json.Unmarshal into `[]string`.
unfoldable pub marshal_labels_value :
    (Text → Option (List Text)) → AnyValue → Result Error (List Text)
unfolding all_strings
marshal_labels_value decode nil_value = ok []
marshal_labels_value decode (strings ss) = ok ss
marshal_labels_value decode (anys es s) = all_strings 0 es
marshal_labels_value decode (str s) = elim (decode s) [
  | none ↦ err labels_not_json
  | some ss ↦ ok ss
]
marshal_labels_value decode _ = err labels_not_strings
