-- ===== src/Json/Measure.antt =====
-- The encoded size, the nodes and the depth of a value.
use Prim.Native.Nat.{max}
use sqllens.Prelude.{ℕ, suc, ◌+◌, ◌-◌, Option, none, some}
use sqllens.Json.{
  Encoder, Json, Items, Fields, list, str, dict, int, plain, cons, length_items, field,
  length_fields, nil, end,
}

unfoldable pub or_zero : Option ℕ → ℕ
or_zero none = 0
or_zero (some n) = n

-- The length of the compact encoding, the number of nodes, and the depth below the root.
unfoldable mutual
  pub size : {E : Encoder} → Json E → ℕ
  size {E} (str t) = E.text_length t
  size {E} (int n) = or_zero (E.int_length n)
  size {E} (plain p) = or_zero (E.plain_length p)
  size (list xs) = 2 + (length_items xs - 1) + size_items xs
  size (dict fs) = 2 + (length_fields fs - 1) + size_fields fs
  size Json.other = 0

  pub size_items : {E : Encoder} → Items E → ℕ
  size_items nil = 0
  size_items (cons x xs) = size x + size_items xs

  pub size_fields : {E : Encoder} → Fields E → ℕ
  size_fields end = 0
  size_fields (field k v fs) = 1 + size k + size v + size_fields fs

unfoldable mutual
  pub nodes : {E : Encoder} → Json E → ℕ
  nodes (list xs) = 1 + nodes_items xs
  nodes (dict fs) = 1 + nodes_fields fs
  nodes (str t) = 1
  nodes (int n) = 1
  nodes (plain p) = 1
  nodes Json.other = 1

  pub nodes_items : {E : Encoder} → Items E → ℕ
  nodes_items nil = 0
  nodes_items (cons x xs) = nodes x + nodes_items xs

  pub nodes_fields : {E : Encoder} → Fields E → ℕ
  nodes_fields end = 0
  nodes_fields (field k v fs) = nodes k + nodes v + nodes_fields fs

unfoldable mutual
  pub height : {E : Encoder} → Json E → ℕ
  height (list xs) = height_items xs
  height (dict fs) = height_fields fs
  height (str t) = 0
  height (int n) = 0
  height (plain p) = 0
  height Json.other = 0

  pub height_items : {E : Encoder} → Items E → ℕ
  height_items nil = 0
  height_items (cons x xs) = max (suc (height x)) (height_items xs)

  pub height_fields : {E : Encoder} → Fields E → ℕ
  height_fields end = 0
  height_fields (field k v fs) = max (max (suc (height k)) (suc (height v))) (height_fields fs)
