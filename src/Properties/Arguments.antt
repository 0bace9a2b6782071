-- ===== src/Properties/Arguments.antt =====
-- include/dbus/properties.hpp, `DbusArgument` and `arg_types`: the description of a method's or a
-- signal's arguments that introspection publishes.
use boost_dbus.Common.{
  ℕ, zero, suc, ◌+◌, ◌/◌, ◌%◌, ◌≡◌, sym, ap, ◌∙◌, Bool, true, false, List, [], ◌∷◌, ◌++◌, Bytes,
  Option, none, some, if◌then◌else◌, ltb, leb, length, get_or, codes, c_str, append_assoc,
  append-nil,
}
use boost_dbus.Element.{Ty, element_signature, type_string, c_str-element_signature}

pub record DbusArgument : Type 0 where
  pub direction : Bytes
  pub name : Bytes
  pub type : Bytes

-- `std::to_string`, with a unit of fuel for each digit.
unfoldable pub decimal : ℕ → ℕ → Bytes
decimal zero n = []
decimal (suc f) n =
    let higher = decimal f (n / 10) in
    if ltb n 10 then (48 + n) ∷ [] else higher ++ (48 + n % 10) ∷ []

unfoldable pub to_string : ℕ → Bytes
unfolding decimal
to_string n = decimal (suc n) n

abbrev pub direction_of : Bool → Bytes
direction_of true = codes "in"
direction_of false = codes "out"

-- The name given for the argument, else `arg_i` or `out_i`.
unfoldable pub tuple_name : Bool → Option (List Bytes) → ℕ → Bytes
unfolding to_string
tuple_name input names i =
    let fallback = if input then codes "arg_" ++ to_string i else codes "out_" ++ to_string i in
    elim names [
      | none ↦ fallback
      | some ns ↦ if leb (length ns) i then fallback else get_or ns i []
    ]

-- The arguments of a tuple, from index `i`, appended to `v`.
unfoldable pub arg_types :
    (input : Bool) (ts : List Ty) (names : Option (List Bytes)) (i : ℕ)
    → List DbusArgument
    → List DbusArgument
unfolding tuple_name
arg_types input [] names i v = v
arg_types input (t ∷ ts) names i v = arg_types input ts names (i + 1) (
    v
    ++ record {
      direction = direction_of input;
      name = tuple_name input names i;
      type = c_str (element_signature t);
    }
      ∷ [])

-- The one value of a handler that returns no tuple.
unfoldable pub raw_arg_types :
    Bool → Ty → Option (List Bytes) → List DbusArgument → List DbusArgument
raw_arg_types input t names v =
    let name : Bytes = elim names [
      | none ↦ codes "arg_0"
      | some ns ↦ if ltb (length ns) 1 then codes "arg_0" else get_or ns 0 []
    ] in
    v
    ++ record { direction = direction_of input; name = name; type = c_str (element_signature t) }
      ∷ []

-- What a handler returns.
pub data ResultType : Type 0 where
  tuple : List Ty → ResultType
  single : Ty → ResultType

unfoldable pub result_arg_types :
    ResultType → Option (List Bytes) → List DbusArgument → List DbusArgument
unfolding arg_types raw_arg_types
result_arg_types (tuple ts) names v = arg_types false ts names 0 v
result_arg_types (single t) names v = raw_arg_types false t names v

-- The constructors of `LambdaDbusMethod`: inputs, then outputs.
unfoldable pub method_args :
    List Ty → ResultType → Option (List Bytes) → Option (List Bytes) → List DbusArgument
unfolding result_arg_types
method_args ins out input_names output_names =
    result_arg_types out output_names (arg_types true ins input_names 0 [])

-- The description of a tuple, argument by argument.
abbrev pub describe : Bool → List Ty → Option (List Bytes) → ℕ → List DbusArgument
describe input [] names i = []
describe input (t ∷ ts) names i =
    record { direction = direction_of input; name = tuple_name input names i; type = type_string t }
    ∷ describe input ts names (i + 1)

arg_types-describe :
    (input : Bool) (ts : List Ty) (names : Option (List Bytes)) (i : ℕ) (v : List DbusArgument)
    → arg_types input ts names i v ≡ v ++ describe input ts names i
unfolding arg_types
arg_types-describe input [] names i v = sym (append-nil v)
arg_types-describe input (t ∷ ts) names i v =
    arg_types-describe input ts names (i + 1) _
    ∙ append_assoc v _ (describe input ts names (i + 1))
    ∙ ap
        (λ s.
          v
          ++ record { direction = direction_of input; name = tuple_name input names i; type = s }
            ∷ describe input ts names (i + 1))
        (c_str-element_signature t)

-- A method whose handler returns a tuple is described by its inputs and then its outputs, in order,
-- each with its index's name and its D-Bus signature.
pub method_args-describe :
    (ins outs : List Ty) (input_names output_names : Option (List Bytes))
    → method_args ins (tuple outs) input_names output_names
      ≡ describe true ins input_names 0 ++ describe false outs output_names 0
unfolding method_args
method_args-describe ins outs input_names output_names =
    arg_types-describe false outs output_names 0 (arg_types true ins input_names 0 [])
    ∙ ap (λ v. v ++ describe false outs output_names 0)
        (arg_types-describe true ins input_names 0 [])

-- A handler that returns one value, with no name for it: its output is called `arg_0`, as the first
-- input is.
pub raw_output_name :
    (t u : Ty)
    → method_args (t ∷ []) (single u) none none
      ≡ record { direction = codes "in"; name = codes "arg_0"; type = type_string t }
        ∷ record { direction = codes "out"; name = codes "arg_0"; type = type_string u }
        ∷ []
unfolding method_args
raw_output_name t u = rw (c_str-element_signature t, c_str-element_signature u)
