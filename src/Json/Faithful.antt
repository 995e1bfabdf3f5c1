-- ===== src/Json/Faithful.antt =====
-- Without a limit on strings, a copy is the value itself.
use sqllens.Json.{
  Encoder, JsonLimits, Budget, Json, Items, Fields, charge, charge_encoded, enter, list,
  open_container, str, visit_int, visit_plain, visit_text, dict, int, plain, cons, length_items,
  field, length_fields, cut_text, key_type, visit, number_budget, string_budget, visit_items,
  visit_fields, nil, end, copy_bounded_json,
}
use sqllens.Json.Spent.{or_invalid-eq-ok}
use sqllens.Safety.MysqlText.{Text}
use sqllens.Prelude.{
  ℕ, ◌+◌, ◌*◌, ◌≡◌, refl, sym, ap, ◌∙◌, Bool, true, false, ◌||◌, Option, none, some, arith, length,
  ltb,
}
use sqllens.Prelude.Result.{ok, raise_if, >>=-eq-ok, ok-injective}

charge-truncated :
    (n : ℕ) (b : Budget) {b' : Budget} → charge n b ≡ ok b' → b'.truncated ≡ b.truncated
unfolding charge
charge-truncated n b h = ground arith

charge_encoded-truncated :
    (o : Option ℕ) (b : Budget) {b' : Budget}
    → charge_encoded o b ≡ ok b'
    → b'.truncated ≡ b.truncated
unfolding charge_encoded
charge_encoded-truncated none b h = cc
charge_encoded-truncated (some n) b h = charge-truncated n b (or_invalid-eq-ok (charge n b) h)

open_container-truncated :
    (n : ℕ) (b : Budget) {b' : Budget} → open_container n b ≡ ok b' → b'.truncated ≡ b.truncated
unfolding open_container
open_container-truncated n b h = ground arith

enter-truncated :
    (limits : JsonLimits) (depth : ℕ) (b : Budget) {b' : Budget}
    → enter limits depth b ≡ ok b'
    → b'.truncated ≡ b.truncated
unfolding enter
enter-truncated limits depth b h = ground arith

or_false : (b : Bool) → (b || false) ≡ b
or_false true = refl
or_false false = refl

module _ {E : Encoder} where
  visit_text-same :
      (limits : JsonLimits) (key : Bool) (t : Text) (b : Budget) {r : Json E × Budget}
      → limits.max_string_chars ≡ none
      → visit_text limits key t b ≡ ok r
      → (r.0 ≡ str t) × (r.1.truncated ≡ b.truncated)
  unfolding visit_text cut_text
  visit_text-same limits key t b {r} n h =
      let h0 = rw n at h in
      let (u, e, h') = >>=-eq-ok (raise_if (ltb b.bytes (length t)) string_budget) _ h0 in
      let (b', c, last) =
        >>=-eq-ok
          (charge_encoded (some (E.text_length t)) (record b { truncated = b.truncated || false }))
          _ h' in
      rw (← ok-injective last)
        (refl, charge_encoded-truncated (some (E.text_length t)) _ c ∙ or_false b.truncated)

  visit_int-same :
      (key : Bool) (n : E.Int) (b : Budget) {r : Json E × Budget}
      → visit_int {E = E} key n b ≡ ok r
      → (r.0 ≡ int n) × (r.1.truncated ≡ b.truncated)
  unfolding visit_int
  visit_int-same key n b {r} h =
      let (u, e, h') = >>=-eq-ok (raise_if key key_type) _ h in
      let (u', e', h'') =
        >>=-eq-ok (raise_if (ltb (b.bytes * 4) (E.bit_length n)) number_budget) _ h' in
      let (b', c, last) = >>=-eq-ok (charge_encoded (E.int_length n) b) _ h'' in
      rw (← ok-injective last) (refl, charge_encoded-truncated _ b c)

  visit_plain-same :
      (key : Bool) (p : E.Plain) (b : Budget) {r : Json E × Budget}
      → visit_plain {E = E} key p b ≡ ok r
      → (r.0 ≡ plain p) × (r.1.truncated ≡ b.truncated)
  unfolding visit_plain
  visit_plain-same key p b {r} h =
      let (u, e, h') = >>=-eq-ok (raise_if key key_type) _ h in
      let (b', c, last) = >>=-eq-ok (charge_encoded (E.plain_length p) b) _ h' in
      rw (← ok-injective last) (refl, charge_encoded-truncated _ b c)

mutual
  unfolding visit

  visit-same :
      {E : Encoder} (limits : JsonLimits) (n : limits.max_string_chars ≡ none) (j : Json E)
      (depth : ℕ) (key : Bool) (b : Budget) {r : Json E × Budget}
      → visit limits j depth key b ≡ ok r
      → (r.0 ≡ j) × (r.1.truncated ≡ b.truncated)
  visit-same limits n (str t) depth key b {r} h =
      let (b', e, h') = >>=-eq-ok (enter limits depth b) _ h in
      let (s, t') = visit_text-same limits key t b' n h' in
      (s, t' ∙ enter-truncated limits depth b e)
  visit-same {E} limits n (int i) depth key b {r} h =
      let (b', e, h') = >>=-eq-ok (enter limits depth b) _ h in
      let (s, t') = visit_int-same {E = E} key i b' h' in (s, t' ∙ enter-truncated limits depth b e)
  visit-same {E} limits n (plain p) depth key b {r} h =
      let (b', e, h') = >>=-eq-ok (enter limits depth b) _ h in
      let (s, t') = visit_plain-same {E = E} key p b' h' in
      (s, t' ∙ enter-truncated limits depth b e)
  visit-same limits n (list xs) depth key b {r} h =
      let (b', e, h') = >>=-eq-ok (enter limits depth b) _ h in
      let (u, k, h'') = >>=-eq-ok (raise_if key key_type) _ h' in
      let (b'', o, h3) = >>=-eq-ok (open_container (length_items xs) b') _ h'' in
      let (q, v, last) = >>=-eq-ok (visit_items limits xs (depth + 1) b'') _ h3 in
      let (s, t') = visit_items-same limits n xs (depth + 1) b'' v in
      rw (← ok-injective last) (
        ap list s,
        t' ∙ open_container-truncated (length_items xs) b' o ∙ enter-truncated limits depth b e,
      )
  visit-same limits n (dict fs) depth key b {r} h =
      let (b', e, h') = >>=-eq-ok (enter limits depth b) _ h in
      let (u, k, h'') = >>=-eq-ok (raise_if key key_type) _ h' in
      let (b'', o, h3) = >>=-eq-ok (open_container (length_fields fs) b') _ h'' in
      let (q, v, last) = >>=-eq-ok (visit_fields limits fs (depth + 1) b'') _ h3 in
      let (s, t') = visit_fields-same limits n fs (depth + 1) b'' v in
      rw (← ok-injective last) (
        ap dict s,
        t' ∙ open_container-truncated (length_fields fs) b' o ∙ enter-truncated limits depth b e,
      )
  visit-same limits n Json.other depth key b {r} h =
      let (b', e, h') = >>=-eq-ok (enter limits depth b) _ h in cc

  visit_items-same :
      {E : Encoder} (limits : JsonLimits) (n : limits.max_string_chars ≡ none) (xs : Items E)
      (depth : ℕ) (b : Budget) {r : Items E × Budget}
      → visit_items limits xs depth b ≡ ok r
      → (r.0 ≡ xs) × (r.1.truncated ≡ b.truncated)
  visit_items-same limits n nil depth b h = rw (← ok-injective h) (refl, refl)
  visit_items-same limits n (cons x xs) depth b h =
      let (r, e, h') = >>=-eq-ok (visit limits x depth false b) _ h in
      let (q, v, last) = >>=-eq-ok (visit_items limits xs depth r.1) _ h' in
      let (s, t) = visit-same limits n x depth false b e in
      let (s', t') = visit_items-same limits n xs depth r.1 v in
      rw (← ok-injective last) (rw s (rw s' refl), t' ∙ t)

  visit_fields-same :
      {E : Encoder} (limits : JsonLimits) (n : limits.max_string_chars ≡ none) (fs : Fields E)
      (depth : ℕ) (b : Budget) {r : Fields E × Budget}
      → visit_fields limits fs depth b ≡ ok r
      → (r.0 ≡ fs) × (r.1.truncated ≡ b.truncated)
  visit_fields-same limits n end depth b h = rw (← ok-injective h) (refl, refl)
  visit_fields-same limits n (field k v fs) depth b h =
      let (b', c, h') = >>=-eq-ok (charge 1 b) _ h in
      let (m, e, h'') = >>=-eq-ok (visit limits k depth true b') _ h' in
      let (r, e', h3) = >>=-eq-ok (visit limits v depth false m.1) _ h'' in
      let (q, w, last) = >>=-eq-ok (visit_fields limits fs depth r.1) _ h3 in
      let (s, t) = visit-same limits n k depth true b' e in
      let (s', t') = visit-same limits n v depth false m.1 e' in
      let (s'', t'') = visit_fields-same limits n fs depth r.1 w in
      rw (← ok-injective last) (rw s (rw s' (rw s'' refl)), t'' ∙ t' ∙ t ∙ charge-truncated 1 b c)

-- Where no length of strings is given, an accepted value comes out as it went in, and nothing is
-- said to be cut.
pub copy_bounded_json-same :
    {E : Encoder} (value : Json E) (max_bytes max_nodes : ℕ) (limits : JsonLimits) (copy : Json E)
    (cut : Bool)
    → limits.max_string_chars ≡ none
    → copy_bounded_json value max_bytes max_nodes limits ≡ ok (copy, cut)
    → (copy ≡ value) × (cut ≡ false)
unfolding copy_bounded_json
copy_bounded_json-same value max_bytes max_nodes limits copy cut n h =
    let begin : Budget = record { bytes = max_bytes; nodes = max_nodes; truncated = false } in
    let (r, e, last) = >>=-eq-ok (visit limits value 0 false begin) _ h in
    let (s, t) = visit-same limits n value 0 false begin e in
    let pair = ok-injective last in
    (sym (ap {B = _} (λ p. p.0) pair) ∙ s, sym (ap {B = _} (λ p. p.1) pair) ∙ t)
