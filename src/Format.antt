-- ===== src/Format.antt =====
-- The size budgets of src/sqllens/tools/_format.py: the rows of a table or chart payload and the
-- blocks of an answer, cut to a ceiling. What json.dumps makes of a value is a parameter, its length.
pub mod Search
pub mod Fitted
use sqllens.Prelude.{
  ℕ, zero, suc, ◌+◌, ◌-◌, ◌/◌, Bool, true, false, ◌||◌, Option, none, some, List, [], ◌∷◌, ◌++◌,
  leb, ltb, length, take, if◌then◌else◌,
}
use sqllens.Conversation.ToolUse.{Block}

-- The part of a payload that is cut, with its counts. The rest of it stays as it is.
pub record Payload (Row : Type 0) : Type 0 where
  pub rows : List Row
  pub row_count : ℕ
  pub truncated : ℕ

-- while lo < hi, on fuel
unfoldable pub largest_fitting : (ℕ → Bool) → ℕ → ℕ → ℕ → ℕ
largest_fitting fits zero lo hi = lo
largest_fitting fits (suc fuel) lo hi =
    let mid = (lo + hi + 1) / 2 in
    let up = largest_fitting fits fuel mid hi in
    let down = largest_fitting fits fuel lo (mid - 1) in
    if ltb lo hi then (if fits mid then up else down) else lo

module _ {Row : Type 0} where
  -- the payload as first built, and with its rows taken out
  abbrev pub untrimmed : List Row → Payload Row
  untrimmed rows = record { rows = rows; row_count = length rows; truncated = 0 }

  abbrev pub rowless : List Row → Payload Row
  rowless rows = record { rows = []; row_count = length rows; truncated = 0 }

  -- the payload that keeps the first n rows
  abbrev pub kept : List Row → ℕ → Payload Row
  kept rows n = record { rows = take n rows; row_count = n; truncated = length rows - n }

  -- what is measured of a chart that keeps the first n rows
  abbrev pub chart_candidate : List Row → ℕ → Payload Row
  chart_candidate rows n = record { rows = take n rows; row_count = length rows; truncated = 0 }

  -- `_compute_table_payload`, from the first payload on
  unfoldable pub fit_table : ℕ → (Payload Row → ℕ) → List Row → Option (Payload Row)
  unfolding largest_fitting
  fit_table budget serialized_len rows =
      let total = length rows in
      let fits = λ (n : ℕ). leb (serialized_len (kept rows n)) budget in
      if leb (serialized_len (untrimmed rows)) budget
      then some (untrimmed rows)
      else if leb (serialized_len (rowless rows)) budget
      then some (kept rows (largest_fitting fits total 0 total))
      else none

  -- `_compute_chart_payload`, from the first payload on
  unfoldable pub fit_chart : ℕ → (Payload Row → ℕ) → List Row → Option (Payload Row)
  unfolding largest_fitting
  fit_chart budget serialized_len rows =
      let total = length rows in
      let fits = λ (n : ℕ). leb (serialized_len (chart_candidate rows n)) budget in
      if leb (serialized_len (untrimmed rows)) budget
      then some (untrimmed rows)
      else if leb (serialized_len (rowless rows)) budget
      then some (kept rows (largest_fitting fits total 0 total))
      else none

module _ {Block : Type 0} where
  unfoldable pub is_empty : List Block → Bool
  is_empty [] = true
  is_empty (b ∷ bs) = false

  -- the first n blocks and the notice
  abbrev pub noticed : (ℕ → Block) → List Block → ℕ → List Block
  noticed notice blocks n = take n blocks ++ notice (length blocks - n) ∷ []

  -- while kept: with so many blocks kept
  unfoldable pub pop_blocks : ℕ → (List Block → ℕ) → (ℕ → Block) → List Block → ℕ → List Block
  pop_blocks budget serialized_len notice blocks zero = notice (length blocks) ∷ []
  pop_blocks budget serialized_len notice blocks (suc n) =
      let later = pop_blocks budget serialized_len notice blocks n in
      if leb (serialized_len (noticed notice blocks n)) budget
      then noticed notice blocks n
      else later

  -- `_trim_blocks_to_budget`, `notice` being `_truncation_notice_block`
  unfoldable pub trim_blocks_to_budget :
      ℕ → (List Block → ℕ) → (ℕ → Block) → List Block → List Block
  unfolding is_empty pop_blocks
  trim_blocks_to_budget budget serialized_len notice blocks =
      if is_empty blocks || leb (serialized_len blocks) budget
      then blocks
      else pop_blocks budget serialized_len notice blocks (length blocks)
