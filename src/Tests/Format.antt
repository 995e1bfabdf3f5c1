-- ===== src/Tests/Format.antt =====
-- The size budgets at small payloads, with a size that counts.
use sqllens.Prelude.{
  ℕ, ◌+◌, ◌*◌, ◌≤◌, ◌<◌, ◌≡◌, refl, ◌⊎◌, some, List, [], ◌∷◌, arith, length, length-take, ltb,
  if◌then◌else◌,
}
use sqllens.Format.{Payload, kept, fit_table, fit_chart, trim_blocks_to_budget}
use sqllens.Format.Fitted.{IsFitted, fit_table-IsFitted, IsTrimmed, trim_blocks_to_budget-IsTrimmed}

abbrev three_rows : List ℕ
three_rows = 1 ∷ 2 ∷ 3 ∷ []

-- ten bytes for a row, and its counts
abbrev size : Payload ℕ → ℕ
size p = 10 * length p.rows + p.row_count + p.truncated

size_mono : (m n : ℕ) → m ≤ n → size (kept three_rows m) ≤ size (kept three_rows n)
size_mono m n h = omega (arith, length-take m three_rows, length-take n three_rows)

fit_table_two : fit_table 25 size three_rows ≡ some (kept three_rows 2)
unfolding fit_table
fit_table_two = refl

fit_table-IsFitted_example : IsFitted 25 size three_rows (fit_table 25 size three_rows)
fit_table-IsFitted_example = fit_table-IsFitted 25 size three_rows size_mono refl

-- ten bytes for a row, and the digits of its counts below 100
abbrev digits : ℕ → ℕ
digits n = if ltb n 10 then 1 else 2

abbrev json_size : Payload ℕ → ℕ
json_size p = 10 * length p.rows + digits p.row_count + digits p.truncated

abbrev twenty_rows : List ℕ
twenty_rows =
    1 ∷ 2 ∷ 3 ∷ 4 ∷ 5 ∷ 6 ∷ 7 ∷ 8 ∷ 9 ∷ 10 ∷ 11 ∷ 12 ∷ 13 ∷ 14 ∷ 15 ∷ 16 ∷ 17 ∷ 18 ∷ 19 ∷ 20 ∷ []

-- A chart is measured with the counts of all rows, so it may be a byte over its budget.
fit_chart_ten : fit_chart 103 json_size twenty_rows ≡ some (kept twenty_rows 10)
unfolding fit_chart
fit_chart_ten = refl

fit_chart_over : 103 < json_size (kept twenty_rows 10)
fit_chart_over = omega arith

-- a table is not
fit_table_nine : fit_table 103 json_size twenty_rows ≡ some (kept twenty_rows 9)
unfolding fit_table
fit_table_nine = refl

trim_blocks_to_budget-IsTrimmed_example :
    ((trim_blocks_to_budget 2 length (λ n. n) three_rows ≡ three_rows)
      × ((three_rows ≡ []) ⊎ (length three_rows ≤ 2)))
    ⊎ ((2 < length three_rows)
        × IsTrimmed 2 length
            (λ n. n)
            three_rows
            3
            (trim_blocks_to_budget 2 length (λ n. n) three_rows))
trim_blocks_to_budget-IsTrimmed_example =
    trim_blocks_to_budget-IsTrimmed 2 length (λ n. n) three_rows
