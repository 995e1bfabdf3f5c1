-- ===== src/Safety/Limits.antt =====
-- src/sqllens/safety/limits.py. A DataFrame is its rows with the two attributes that the row cap
-- stamps on it; what a row holds is not read.
use sqllens.Prelude.{
  ℕ, ◌+◌, ◌≤◌, min, ◌≡◌, inl, inr, Bool, true, false, ◌||◌, Option, none, some, List, arith, length,
  take, length-take, take-eq_self, ltb, if◌then◌else◌, Bool-cases, ap, ◌∙◌, take-take,
}

-- df, df.attrs["truncated"] and df.attrs["max_rows"]
pub record Frame (Row : Type 0) : Type 0 where
  pub rows : List Row
  pub truncated : Option Bool
  pub max_rows : Option ℕ

-- `effective_row_cap`: the cap of the request, if one is bound, narrows the constructor's.
unfoldable pub effective_row_cap : Option ℕ → ℕ → ℕ
effective_row_cap none limit = limit
effective_row_cap (some request_cap) limit = min limit request_cap

-- attrs.get(key, default)
unfoldable pub get_or {ℓ} : {A : Type ℓ} → Option A → A → A
get_or none d = d
get_or (some a) d = a

module _ {Row : Type 0} where
  unfoldable pub mark_truncation : Frame Row → Bool → ℕ → Frame Row
  mark_truncation df t n = record df { truncated = some t; max_rows = some n }

  -- `rows` is what `fetchmany(max_rows + 1)` returned
  unfoldable pub rows_to_capped_df : List Row → ℕ → Frame Row
  unfolding mark_truncation
  rows_to_capped_df rows n =
      let over = ltb n (length rows) in
      mark_truncation
        (record { rows = if over then take n rows else rows; truncated = none; max_rows = none })
        over n

  -- What `RowCapRunner.run_sql` does to the frame that the inner runner returned.
  unfoldable pub cap_frame : ℕ → Frame Row → Frame Row
  unfolding mark_truncation get_or
  cap_frame limit df =
      if ltb limit (length df.rows)
      then mark_truncation (record df { rows = take limit df.rows }) true limit
      else if get_or df.truncated false
      then mark_truncation df true (get_or df.max_rows limit)
      else mark_truncation df false limit

  -- The cap holds whatever the inner runner returned: at most `cap` rows, the first ones, stamped
  -- truncated exactly if rows were cut here or the inner runner had cut some.
  pub cap_frame_lem :
      (limit : ℕ) (df : Frame Row)
      → (length (cap_frame limit df).rows ≤ limit)
        × ((cap_frame limit df).rows ≡ take limit df.rows)
        × ((cap_frame limit df).truncated
            ≡ some (ltb limit (length df.rows) || get_or df.truncated false))
  unfolding cap_frame
  cap_frame_lem limit df = elim (Bool-cases (ltb limit (length df.rows))) [
    | inl e ↦ (rw e (omega (arith, length-take limit df.rows)), rw e, rw e)
    | inr e ↦
        let fits : length df.rows ≤ limit = ground arith in
        (ground arith, ground (arith, take-eq_self limit df.rows fits), ground arith)
  ]

  -- One more row than the cap tells exactly whether the query has more rows than the cap: the frame
  -- is that of the whole result cut to the cap.
  pub rows_to_capped_df-take :
      (n : ℕ) (result : List Row)
      → rows_to_capped_df (take (n + 1) result) n ≡ record {
        rows = take n result;
        truncated = some (ltb n (length result));
        max_rows = some n;
      }
  unfolding rows_to_capped_df
  rows_to_capped_df-take n result = elim (Bool-cases (ltb n (length result))) [
    | inl e ↦
        let long : ltb n (length (take (n + 1) result)) ≡ true =
          ground (arith, length-take (n + 1) result) in
        let cut : take n (take (n + 1) result) ≡ take n result =
          take-take n (n + 1) result ∙ ap (λ k. take k result) (omega arith) in
        rw (long, e, cut)
    | inr e ↦
        let fits : length result ≤ n = ground arith in
        let short : ltb n (length (take (n + 1) result)) ≡ false =
          ground (arith, length-take (n + 1) result) in
        rw (short, e, take-eq_self (n + 1) result (omega arith), take-eq_self n result fits)
  ]

  -- Behind a runner that streams under the same cap or a narrower one, the guard changes no row and
  -- no truncation mark, and states its own cap where nothing was cut.
  pub cap_frame-rows_to_capped_df :
      (n limit : ℕ) (rows : List Row)
      → n ≤ limit
      → cap_frame limit (rows_to_capped_df rows n) ≡ (
          if ltb n (length rows)
          then rows_to_capped_df rows n
          else record { rows = rows; truncated = some false; max_rows = some limit })
  unfolding cap_frame rows_to_capped_df
  cap_frame-rows_to_capped_df n limit rows h = elim (Bool-cases (ltb n (length rows))) [
    | inl e ↦
        let short : ltb limit (length (take n rows)) ≡ false = ground (arith, length-take n rows) in
        rw e (rw short)
    | inr e ↦ let short : ltb limit (length rows) ≡ false = ground arith in rw e (rw short)
  ]
