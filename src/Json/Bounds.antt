-- ===== src/Json/Bounds.antt =====
-- The budgets bound the copy: its encoded size, its nodes and its depth.
use sqllens.Prelude.{ℕ, ◌+◌, ◌≤◌, ◌≡◌, Bool, arith, ap, true, false}
use sqllens.Prelude.Result.{ok, raise_if, >>=-eq-ok, ok-injective}
use sqllens.Json.{
  Encoder, JsonLimits, Budget, Json, Items, Fields, charge, enter, list, open_container, str, dict,
  int, plain, cons, length_items, field, length_fields, key_type, visit, visit_items, visit_fields,
  nil, end, copy_bounded_json,
}
use sqllens.Json.Measure.{size, nodes, height}
use sqllens.Json.Spent.{
  Measured, MeasuredFields, MeasuredItems, charge-Spent, cons-Measured, dict-Measured, end-Measured,
  enter-Spent, field-Measured, list-Measured, nil-Measured, open_container-Spent, scalar-Measured,
  visit_int-Spent, visit_plain-Spent, visit_text-Spent,
}

mutual
  unfolding visit

  visit-Measured :
      {E : Encoder} (limits : JsonLimits) (j : Json E) (depth : ℕ) (key : Bool) (b : Budget)
      {r : Json E × Budget}
      → visit limits j depth key b ≡ ok r
      → Measured limits depth b r
  visit-Measured limits (str t) depth key b {r} h =
      let (b', e, h') = >>=-eq-ok (enter limits depth b) _ h in
      scalar-Measured limits depth r (enter-Spent limits depth b e)
        (visit_text-Spent limits key t b' h')
  visit-Measured {E} limits (int n) depth key b {r} h =
      let (b', e, h') = >>=-eq-ok (enter limits depth b) _ h in
      scalar-Measured limits depth r (enter-Spent limits depth b e)
        (visit_int-Spent {E = E} key n b' h')
  visit-Measured {E} limits (plain p) depth key b {r} h =
      let (b', e, h') = >>=-eq-ok (enter limits depth b) _ h in
      scalar-Measured limits depth r (enter-Spent limits depth b e)
        (visit_plain-Spent {E = E} key p b' h')
  visit-Measured limits (list xs) depth key b {r} h =
      let (b', e, h') = >>=-eq-ok (enter limits depth b) _ h in
      let (u, k, h'') = >>=-eq-ok (raise_if key key_type) _ h' in
      let (b'', o, h3) = >>=-eq-ok (open_container (length_items xs) b') _ h'' in
      let (q, v, last) = >>=-eq-ok (visit_items limits xs (depth + 1) b'') _ h3 in
      rw (← ok-injective last) (
        list-Measured limits depth xs q (enter-Spent limits depth b e)
          (open_container-Spent (length_items xs) b' o)
          (visit_items-Measured limits xs (depth + 1) b'' v))
  visit-Measured limits (dict fs) depth key b {r} h =
      let (b', e, h') = >>=-eq-ok (enter limits depth b) _ h in
      let (u, k, h'') = >>=-eq-ok (raise_if key key_type) _ h' in
      let (b'', o, h3) = >>=-eq-ok (open_container (length_fields fs) b') _ h'' in
      let (q, v, last) = >>=-eq-ok (visit_fields limits fs (depth + 1) b'') _ h3 in
      rw (← ok-injective last) (
        dict-Measured limits depth fs q (enter-Spent limits depth b e)
          (open_container-Spent (length_fields fs) b' o)
          (visit_fields-Measured limits fs (depth + 1) b'' v))
  visit-Measured limits Json.other depth key b {r} h =
      let (b', e, h') = >>=-eq-ok (enter limits depth b) _ h in cc

  visit_items-Measured :
      {E : Encoder} (limits : JsonLimits) (xs : Items E) (depth : ℕ) (b : Budget)
      {r : Items E × Budget}
      → visit_items limits xs depth b ≡ ok r
      → MeasuredItems limits depth xs b r
  visit_items-Measured limits nil depth b h = rw (← ok-injective h) (nil-Measured limits depth b)
  visit_items-Measured limits (cons x xs) depth b h =
      let (r, e, h') = >>=-eq-ok (visit limits x depth false b) _ h in
      let (q, v, last) = >>=-eq-ok (visit_items limits xs depth r.1) _ h' in
      rw (← ok-injective last) (
        cons-Measured limits depth xs x r q (visit-Measured limits x depth false b e)
          (visit_items-Measured limits xs depth r.1 v))

  visit_fields-Measured :
      {E : Encoder} (limits : JsonLimits) (fs : Fields E) (depth : ℕ) (b : Budget)
      {r : Fields E × Budget}
      → visit_fields limits fs depth b ≡ ok r
      → MeasuredFields limits depth fs b r
  visit_fields-Measured limits end depth b h = rw (← ok-injective h) (end-Measured limits depth b)
  visit_fields-Measured limits (field k v fs) depth b h =
      let (b', c, h') = >>=-eq-ok (charge 1 b) _ h in
      let (n, e, h'') = >>=-eq-ok (visit limits k depth true b') _ h' in
      let (r, e', h3) = >>=-eq-ok (visit limits v depth false n.1) _ h'' in
      let (q, w, last) = >>=-eq-ok (visit_fields limits fs depth r.1) _ h3 in
      rw (← ok-injective last) (
        field-Measured limits depth fs k v n r q (charge-Spent 1 b c)
          (visit-Measured limits k depth true b' e) (visit-Measured limits v depth false n.1 e')
          (visit_fields-Measured limits fs depth r.1 w))

-- An accepted value's copy keeps to every budget: its compact encoding to `max_bytes`, its nodes,
-- keys among them, to `max_nodes`, and its nesting to `max_depth`.
pub copy_bounded_json-bounds :
    {E : Encoder} (value copy : Json E) (max_bytes max_nodes : ℕ) (limits : JsonLimits) (cut : Bool)
    → copy_bounded_json value max_bytes max_nodes limits ≡ ok (copy, cut)
    → (size copy ≤ max_bytes) × (nodes copy ≤ max_nodes) × (height copy ≤ limits.max_depth)
unfolding copy_bounded_json
copy_bounded_json-bounds value copy max_bytes max_nodes limits cut h =
    let start : Budget = record { bytes = max_bytes; nodes = max_nodes; truncated = false } in
    let (r, e, last) = >>=-eq-ok (visit limits value 0 false start) _ h in
    let m = visit-Measured limits value 0 false start e in
    let same : r.0 ≡ copy = ap {B = _} (λ p. p.0) (ok-injective last) in
    rw (← same) (omega arith, omega arith, omega arith)
