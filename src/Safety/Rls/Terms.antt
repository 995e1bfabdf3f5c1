-- ===== src/Safety/Rls/Terms.antt =====
-- `_is_suspicious_scalar`, `_resolve_value` and `_predicate` of src/sqllens/safety/rls.py. The
-- numbers, Python's int and float, are only passed on.
use sqllens.Prelude.{
  ℕ, String, Bool, true, false, ◌||◌, Option, none, some, List, [], ◌∷◌, str_eq, length, any, ltb,
  ◌==◌, if◌then◌else◌,
}
use sqllens.Prelude.Result.{Result, ok, err}
use sqllens.Prelude.Dict.{Dict, lookup}
use sqllens.Safety.MysqlText.{Text}

-- A metadata value: a scalar that the code tells apart, anything else, or a list of such.
pub data Item (N : Type 0) : Type 0 where
  boolean : Bool → Item N
  number : N → Item N
  text : Text → Item N
  other_item : Item N

pub data Value (N : Type 0) : Type 0 where
  scalar : Item N → Value N
  sequence : List (Item N) → Value N

-- A configured rule; `value` is `scalar other_item` where the source has None.
pub record Rule (N : Type 0) : Type 0 where
  pub table : String
  pub column : String
  pub operator : String
  pub value : Value N
  pub value_from_metadata : Option String

pub data BinaryOp : Type 0 where
  eq neq lt lte gt gte : BinaryOp

pub data Predicate (N : Type 0) : Type 0 where
  in_list : String → String → List (Item N) → Predicate N
  binary : BinaryOp → String → String → Value N → Predicate N

pub data RlsRefusal : Type 0 where
  unparsable not_one_statement non_ascii_identifier not_a_query unscoped unexpected : RlsRefusal
  missing_metadata not_a_list suspicious_value bad_operator unproven_reference : RlsRefusal

-- _MAX_DYNAMIC_STR_LEN
abbrev pub max_dynamic_str_len : ℕ
max_dynamic_str_len = 4096

unfoldable pub is_control : ℕ → Bool
is_control c = ltb c 0x20 || c == 0x7F

-- _BINARY_OPS
unfoldable pub binary_op : String → Option BinaryOp
binary_op o =
    if str_eq o "="
    then some eq
    else if str_eq o "!="
    then some neq
    else if str_eq o "<"
    then some lt
    else if str_eq o "<="
    then some lte
    else if str_eq o ">"
    then some gt
    else if str_eq o ">="
    then some gte
    else none

module _ {N : Type 0} where
  unfoldable pub is_suspicious_item : Item N → Bool
  is_suspicious_item (boolean b) = true
  is_suspicious_item (number n) = false
  is_suspicious_item (text []) = true
  is_suspicious_item (text (c ∷ cs)) =
      ltb max_dynamic_str_len (length (c ∷ cs)) || any is_control (c ∷ cs)
  is_suspicious_item other_item = true

  -- `_is_suspicious_scalar`, at any metadata value
  unfoldable pub is_suspicious_scalar : Value N → Bool
  is_suspicious_scalar (scalar i) = is_suspicious_item i
  is_suspicious_scalar (sequence is) = true

  -- `_resolve_value` for the operator `in`
  unfoldable pub resolve_list : Value N → Result RlsRefusal (Value N)
  resolve_list (scalar i) = err not_a_list
  resolve_list (sequence []) = err not_a_list
  resolve_list (sequence (i ∷ is)) =
      if any is_suspicious_item (i ∷ is) then err suspicious_value else ok (sequence (i ∷ is))

  unfoldable pub resolve_found : Rule N → Option (Value N) → Result RlsRefusal (Value N)
  resolve_found r none = err missing_metadata
  resolve_found r (some v) =
      if str_eq r.operator "in"
      then resolve_list v
      else if is_suspicious_scalar v
      then err suspicious_value
      else ok v

  unfoldable pub resolve_from :
      Rule N → Option String → Dict (Value N) → Result RlsRefusal (Value N)
  resolve_from r none metadata = ok r.value
  resolve_from r (some key) metadata = resolve_found r (lookup key metadata)

  unfoldable pub resolve_value : Rule N → Dict (Value N) → Result RlsRefusal (Value N)
  unfolding resolve_from
  resolve_value r metadata = resolve_from r r.value_from_metadata metadata

  list_predicate : Rule N → String → Value N → Result RlsRefusal (Predicate N)
  list_predicate r qualifier (sequence is) = ok (in_list qualifier r.column is)
  list_predicate r qualifier (scalar i) = err not_a_list

  unfoldable pub binary_predicate :
      Option BinaryOp → Rule N → String → Value N → Result RlsRefusal (Predicate N)
  binary_predicate none r qualifier v = err bad_operator
  binary_predicate (some op) r qualifier v = ok (binary op qualifier r.column v)

  unfoldable pub predicate : Rule N → String → Value N → Result RlsRefusal (Predicate N)
  unfolding list_predicate binary_predicate
  predicate r qualifier v =
      if str_eq r.operator "in"
      then list_predicate r qualifier v
      else binary_predicate (binary_op r.operator) r qualifier v
