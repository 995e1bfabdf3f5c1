-- ===== src/Json/Spent.antt =====
-- What each part of the traversal spends.
use sqllens.Prelude.{
  ℕ, suc, ◌+◌, ◌-◌, ◌≤◌, ◌≡◌, Bool, Option, none, some, arith, ◌*◌, refl, length, ltb,
}
use sqllens.Prelude.Result.{Result, ok, err, raise_if, >>=-eq-ok, ok-injective}
use sqllens.Json.{
  Encoder, JsonError, or_invalid, JsonLimits, Budget, Json, Items, Fields, charge, charge_encoded,
  enter, list, open_container, visit_int, visit_plain, visit_text, dict, cons, length_items, field,
  length_fields, cut_text, key_type, number_budget, string_budget, nil, end,
}
use sqllens.Safety.MysqlText.{Text}
use sqllens.Json.Measure.{
  or_zero, size, nodes, height, size_items, size_fields, nodes_items, nodes_fields, height_items,
  height_fields,
}

-- What was spent between two budgets.
pub record Spent (b b' : Budget) (bytes nodes : ℕ) : Type 0 where
  pub of_bytes : b.bytes ≡ bytes + b'.bytes
  pub of_nodes : b.nodes ≡ nodes + b'.nodes

pub charge-Spent : (n : ℕ) (b : Budget) {b' : Budget} → charge n b ≡ ok b' → Spent b b' n 0
unfolding charge
charge-Spent n b h = ground arith

pub or_invalid-eq-ok : (r : Result JsonError Budget) {b : Budget} → or_invalid r ≡ ok b → r ≡ ok b
unfolding or_invalid
or_invalid-eq-ok (ok b) h = h
or_invalid-eq-ok (err e) h = cc

pub charge_encoded-Spent :
    (o : Option ℕ) (b : Budget) {b' : Budget}
    → charge_encoded o b ≡ ok b'
    → Spent b b' (or_zero o) 0
unfolding charge_encoded or_zero
charge_encoded-Spent none b h = cc
charge_encoded-Spent (some n) b h = charge-Spent n b (or_invalid-eq-ok (charge n b) h)

pub open_container-Spent :
    (n : ℕ) (b : Budget) {b' : Budget} → open_container n b ≡ ok b' → Spent b b' (2 + (n - 1)) 0
unfolding open_container
open_container-Spent n b h = ground arith

pub enter-Spent :
    (limits : JsonLimits) (depth : ℕ) (b : Budget) {b' : Budget}
    → enter limits depth b ≡ ok b'
    → Spent b b' 0 1 × (depth ≤ limits.max_depth)
unfolding enter
enter-Spent limits depth b h = ground arith

module _ {E : Encoder} where
  pub visit_text-Spent :
      (limits : JsonLimits) (key : Bool) (t : Text) (b : Budget) {r : Json E × Budget}
      → visit_text limits key t b ≡ ok r
      → Spent b r.1 (size r.0) 0 × (nodes r.0 ≡ 1) × (height r.0 ≡ 0)
  unfolding visit_text size nodes height or_zero
  visit_text-Spent limits key t b {r} h =
      let (u, e, h') =
        >>=-eq-ok (raise_if (ltb b.bytes (length (cut_text limits key t).0)) string_budget) _ h in
      let (b', c, last) =
        >>=-eq-ok (charge_encoded (some (E.text_length (cut_text limits key t).0)) _) _ h' in
      let spent = charge_encoded-Spent (some (E.text_length (cut_text limits key t).0)) _ c in
      rw (← ok-injective last)
        (record { of_bytes = spent.of_bytes; of_nodes = spent.of_nodes }, refl, refl)

  pub visit_int-Spent :
      (key : Bool) (n : E.Int) (b : Budget) {r : Json E × Budget}
      → visit_int {E = E} key n b ≡ ok r
      → Spent b r.1 (size r.0) 0 × (nodes r.0 ≡ 1) × (height r.0 ≡ 0)
  unfolding visit_int size nodes height
  visit_int-Spent key n b {r} h =
      let (u, e, h') = >>=-eq-ok (raise_if key key_type) _ h in
      let (u', e', h'') =
        >>=-eq-ok (raise_if (ltb (b.bytes * 4) (E.bit_length n)) number_budget) _ h' in
      let (b', c, last) = >>=-eq-ok (charge_encoded (E.int_length n) b) _ h'' in
      rw (← ok-injective last) (charge_encoded-Spent _ b c, refl, refl)

  pub visit_plain-Spent :
      (key : Bool) (p : E.Plain) (b : Budget) {r : Json E × Budget}
      → visit_plain {E = E} key p b ≡ ok r
      → Spent b r.1 (size r.0) 0 × (nodes r.0 ≡ 1) × (height r.0 ≡ 0)
  unfolding visit_plain size nodes height
  visit_plain-Spent key p b {r} h =
      let (u, e, h') = >>=-eq-ok (raise_if key key_type) _ h in
      let (b', c, last) = >>=-eq-ok (charge_encoded (E.plain_length p) b) _ h' in
      rw (← ok-injective last) (charge_encoded-Spent _ b c, refl, refl)

-- What a traversal spends is what its result measures, and the result stays within the depth.
pub record Measured {E : Encoder} (limits : JsonLimits) (depth : ℕ) (b : Budget)
    (r : Json E × Budget) : Type 0 where
  pub spent : Spent b r.1 (size r.0) (nodes r.0)
  pub within : depth + height r.0 ≤ limits.max_depth

pub record MeasuredItems {E : Encoder} (limits : JsonLimits) (depth : ℕ) (xs : Items E) (b : Budget)
    (r : Items E × Budget) : Type 0 where
  pub spent : Spent b r.1 (size_items r.0) (nodes_items r.0)
  pub within : height_items r.0 ≤ suc limits.max_depth - depth
  pub same_length : length_items r.0 ≡ length_items xs

pub record MeasuredFields {E : Encoder} (limits : JsonLimits) (depth : ℕ) (fs : Fields E)
    (b : Budget) (r : Fields E × Budget) : Type 0 where
  pub spent : Spent b r.1 (size_fields r.0) (nodes_fields r.0)
  pub within : height_fields r.0 ≤ suc limits.max_depth - depth
  pub same_length : length_fields r.0 ≡ length_fields fs

module _ {E : Encoder} (limits : JsonLimits) (depth : ℕ) {b b' : Budget} where
  pub scalar-Measured :
      (r : Json E × Budget)
      → Spent b b' 0 1 × (depth ≤ limits.max_depth)
      → Spent b' r.1 (size r.0) 0 × (nodes r.0 ≡ 1) × (height r.0 ≡ 0)
      → Measured limits depth b r
  scalar-Measured r (s, fits) (t, one, flat) = record {
    spent = record { of_bytes = omega arith; of_nodes = omega arith };
    within = omega arith;
  }

  pub list-Measured :
      {b'' : Budget} (xs : Items E) (q : Items E × Budget)
      → Spent b b' 0 1 × (depth ≤ limits.max_depth)
      → Spent b' b'' (2 + (length_items xs - 1)) 0
      → MeasuredItems limits (depth + 1) xs b'' q
      → Measured limits depth b (list q.0, q.1)
  unfolding size nodes height
  list-Measured xs q (s, fits) t m = record {
    spent = record { of_bytes = omega (arith, m.same_length); of_nodes = omega arith };
    within = omega arith;
  }

  pub dict-Measured :
      {b'' : Budget} (fs : Fields E) (q : Fields E × Budget)
      → Spent b b' 0 1 × (depth ≤ limits.max_depth)
      → Spent b' b'' (2 + (length_fields fs - 1)) 0
      → MeasuredFields limits (depth + 1) fs b'' q
      → Measured limits depth b (dict q.0, q.1)
  unfolding size nodes height
  dict-Measured fs q (s, fits) t m = record {
    spent = record { of_bytes = omega (arith, m.same_length); of_nodes = omega arith };
    within = omega arith;
  }

pub nil-Measured :
    {E : Encoder} (limits : JsonLimits) (depth : ℕ) (b : Budget)
    → MeasuredItems {E = E} limits depth nil b (nil, b)
unfolding size nodes height
nil-Measured limits depth b = record {
  spent = record { of_bytes = omega arith; of_nodes = omega arith };
  within = omega arith;
  same_length = refl;
}

pub end-Measured :
    {E : Encoder} (limits : JsonLimits) (depth : ℕ) (b : Budget)
    → MeasuredFields {E = E} limits depth end b (end, b)
unfolding size nodes height
end-Measured limits depth b = record {
  spent = record { of_bytes = omega arith; of_nodes = omega arith };
  within = omega arith;
  same_length = refl;
}

pub cons-Measured :
    {E : Encoder} (limits : JsonLimits) (depth : ℕ) {b : Budget} (xs : Items E) (x : Json E)
    (r : Json E × Budget) (q : Items E × Budget)
    → Measured limits depth b r
    → MeasuredItems limits depth xs r.1 q
    → MeasuredItems limits depth (cons x xs) b (cons r.0 q.0, q.1)
unfolding size nodes height length_items
cons-Measured limits depth xs x r q m k = record {
  spent = record { of_bytes = omega arith; of_nodes = omega arith };
  within = omega arith;
  same_length = omega arith;
}

pub field-Measured :
    {E : Encoder} (limits : JsonLimits) (depth : ℕ) {b b' : Budget} (fs : Fields E)
    (name v : Json E) (n r : Json E × Budget) (q : Fields E × Budget)
    → Spent b b' 1 0
    → Measured limits depth b' n
    → Measured limits depth n.1 r
    → MeasuredFields limits depth fs r.1 q
    → MeasuredFields limits depth (field name v fs) b (field n.0 r.0 q.0, q.1)
unfolding size nodes height length_fields
field-Measured limits depth fs name v n r q s m k l = record {
  spent = record { of_bytes = omega arith; of_nodes = omega arith };
  within = omega arith;
  same_length = omega arith;
}
