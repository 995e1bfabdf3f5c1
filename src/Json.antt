-- ===== src/Json.antt =====
-- `copy_bounded_json` of src/sqllens/_bounded_json.py.
pub mod Measure
pub mod Spent
pub mod Bounds
pub mod Faithful
use sqllens.Prelude.{
  ℕ, suc, ◌+◌, ◌-◌, ◌*◌, Bool, true, false, not, ◌&&◌, ◌||◌, Option, none, some, [], ◌∷◌, ◌++◌,
  length, take, ltb, ◌==◌, if◌then◌else◌,
}
use sqllens.Prelude.Result.{Result, ok, err, ◌>>=◌, ◌>>◌, raise_if}
use sqllens.Safety.MysqlText.{Text}

-- What the code asks of Python's numbers and of `json.dumps`: integers with their `bit_length`, the
-- other plain values (floats, booleans, None), and the length of a scalar's encoding; `none` is an
-- exception.
pub record Encoder : Type 1 where
  pub Int : Type 0
  pub Plain : Type 0
  pub bit_length : Int → ℕ
  pub text_length : Text → ℕ
  pub int_length : Int → Option ℕ
  pub plain_length : Plain → Option ℕ

-- A Python object: `other` is one of a type that the code does not take.
mutual
  pub data Json (E : Encoder) : Type 0 where
    str : Text → Json E
    int : E.Int → Json E
    plain : E.Plain → Json E
    list : Items E → Json E
    dict : Fields E → Json E
    other : Json E

  pub data Items (E : Encoder) : Type 0 where
    nil : Items E
    cons : Json E → Items E → Items E

  -- keys may be any objects
  pub data Fields (E : Encoder) : Type 0 where
    end : Fields E
    field : Json E → Json E → Fields E → Fields E

pub data JsonError : Type 0 where
  byte_budget structure_budget key_type string_budget number_budget : JsonError
  unsupported invalid_scalar : JsonError

-- `max_depth` and `max_string_chars`
pub record JsonLimits : Type 0 where
  pub max_depth : ℕ
  pub max_string_chars : Option ℕ

-- The variables that the traversal changes. A budget that would fall below 0 is an error at once.
pub record Budget : Type 0 where
  pub bytes : ℕ
  pub nodes : ℕ
  pub truncated : Bool

-- "…(truncated)"
abbrev pub mark : Text
mark = 0x2026 ∷ 40 ∷ 116 ∷ 114 ∷ 117 ∷ 110 ∷ 99 ∷ 97 ∷ 116 ∷ 101 ∷ 100 ∷ 41 ∷ []

unfoldable pub charge : ℕ → Budget → Result JsonError Budget
charge size b =
    if ltb b.bytes size then err byte_budget else ok (record b { bytes = b.bytes - size })

-- the first test of `visit`
unfoldable pub enter : JsonLimits → ℕ → Budget → Result JsonError Budget
enter limits depth b =
    if b.nodes == 0 || ltb limits.max_depth depth
    then err structure_budget
    else ok (record b { nodes = b.nodes - 1 })

-- the text kept of a string, and whether it was cut
unfoldable pub cut_text : JsonLimits → Bool → Text → Text × Bool
cut_text limits key t = cut limits.max_string_chars
  where
    cut : Option ℕ → Text × Bool
    cut none = (t, false)
    cut (some n) = if not key && ltb n (length t) then (take n t ++ mark, true) else (t, false)

-- the `except` around the encoding of a scalar and its charge: a budget error is a ValueError too
unfoldable pub or_invalid : Result JsonError Budget → Result JsonError Budget
or_invalid (ok b) = ok b
or_invalid (err e) = err invalid_scalar

unfoldable pub charge_encoded : Option ℕ → Budget → Result JsonError Budget
unfolding charge or_invalid
charge_encoded none b = err invalid_scalar
charge_encoded (some n) b = or_invalid (charge n b)

-- a container of `n` parts: its brackets and commas
unfoldable pub open_container : ℕ → Budget → Result JsonError Budget
unfolding charge
open_container n b = if ltb b.nodes n then err structure_budget else charge (2 + (n - 1)) b

module _ {E : Encoder} where
  unfoldable pub length_items : Items E → ℕ
  length_items nil = 0
  length_items (cons x xs) = suc (length_items xs)

  unfoldable pub length_fields : Fields E → ℕ
  length_fields end = 0
  length_fields (field k v fs) = suc (length_fields fs)

  -- a scalar, behind the tests on its type
  unfoldable pub visit_text : JsonLimits → Bool → Text → Budget → Result JsonError (Json E × Budget)
  unfolding cut_text
  visit_text limits key t b = do
    let kept = cut_text limits key t
    raise_if (ltb b.bytes (length kept.0)) string_budget
    b' ←
        charge_encoded (some (E.text_length kept.0))
          (record b { truncated = b.truncated || kept.1 })
    ok (str kept.0, b')

  -- a key that is no string is refused before its type is looked at
  unfoldable pub visit_int : Bool → E.Int → Budget → Result JsonError (Json E × Budget)
  visit_int key n b = do
    raise_if key key_type
    raise_if (ltb (b.bytes * 4) (E.bit_length n)) number_budget
    b' ← charge_encoded (E.int_length n) b
    ok (int n, b')

  unfoldable pub visit_plain : Bool → E.Plain → Budget → Result JsonError (Json E × Budget)
  visit_plain key p b = do
    raise_if key key_type
    b' ← charge_encoded (E.plain_length p) b
    ok (plain p, b')

unfoldable mutual
  pub visit :
      {E : Encoder} → JsonLimits → Json E → ℕ → Bool → Budget → Result JsonError (Json E × Budget)
  visit limits (str t) depth key b = do b' ← enter limits depth b; visit_text limits key t b'
  visit limits (int n) depth key b = do b' ← enter limits depth b; visit_int key n b'
  visit limits (plain p) depth key b = do b' ← enter limits depth b; visit_plain key p b'
  visit limits (list xs) depth key b = do
    b' ← enter limits depth b
    raise_if key key_type
    b'' ← open_container (length_items xs) b'
    r ← visit_items limits xs (depth + 1) b''
    ok (list r.0, r.1)
  visit limits (dict fs) depth key b = do
    b' ← enter limits depth b
    raise_if key key_type
    b'' ← open_container (length_fields fs) b'
    r ← visit_fields limits fs (depth + 1) b''
    ok (dict r.0, r.1)
  visit limits other depth key b = do
    b' ← enter limits depth b
    err (if key then key_type else unsupported)

  pub visit_items :
      {E : Encoder} → JsonLimits → Items E → ℕ → Budget → Result JsonError (Items E × Budget)
  visit_items limits nil depth b = ok (nil, b)
  visit_items limits (cons x xs) depth b = do
    r ← visit limits x depth false b
    rest ← visit_items limits xs depth r.1
    ok (cons r.0 rest.0, rest.1)

  pub visit_fields :
      {E : Encoder} → JsonLimits → Fields E → ℕ → Budget → Result JsonError (Fields E × Budget)
  visit_fields limits end depth b = ok (end, b)
  visit_fields limits (field k v fs) depth b = do
    b' ← charge 1 b
    name ← visit limits k depth true b'
    r ← visit limits v depth false name.1
    rest ← visit_fields limits fs depth r.1
    ok (field name.0 r.0 rest.0, rest.1)

-- The copy, and whether a string was cut.
unfoldable pub copy_bounded_json :
    {E : Encoder} → Json E → ℕ → ℕ → JsonLimits → Result JsonError (Json E × Bool)
copy_bounded_json value max_bytes max_nodes limits = do
  r ←
      visit limits value 0 false
        (record { bytes = max_bytes; nodes = max_nodes; truncated = false })
  ok (r.0, r.1.truncated)
