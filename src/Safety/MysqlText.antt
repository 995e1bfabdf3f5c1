-- ===== src/Safety/MysqlText.antt =====
-- `_mysql_parse_sql` of src/sqllens/safety/readonly.py. A text is the list of its code points, and
-- the index `i` of the source is the suffix that is still to be read.
pub mod Blanks
pub mod Total
pub mod Strict
use sqllens.Prelude.{
  ℕ, zero, suc, ◌+◌, ◌-◌, ◌*◌, ◌≤◌, ◌<◌, min, String, ◌≡◌, refl, sym, ap, ◌∙◌, ◌≢◌, ◌↔◌, ◌⊎◌, inl,
  inr, Bool, true, false, not, ◌&&◌, ◌||◌, Option, none, some, List, [], ◌∷◌, ◌++◌, map, arith,
  str_eq, eq_iff, length, take, drop, any, all, length-append, length-take, take-eq_self, take-take,
  ltb, leb, ◌==◌, if◌then◌else◌, ==_iff, Bool-cases, Option-cases, &&-eq-true,
}
use sqllens.Prelude.Result.{Result, ok, err, ◌>>=◌, ◌>>◌, raise_if, >>=-eq-ok, Result-cases}
use sqllens.Prelude.Dict.{Dict, lookup, insert, without, lookup-insert, lookup-without}
use mathlib.Core.Option

abbrev pub Text : Type 0
Text = List ℕ

pub data Refusal : Type 0 where
  backslash_quote executable_comment unterminated_comment nested_comment : Refusal
  ambiguous_dashes ambiguous_return out_of_fuel : Refusal

-- What one step of the outer loop leaves: the text it passed over, as it comes out, and the rest.
pub record Piece : Type 0 where
  pub out : Text
  pub rest : Text

abbrev pub push_front : ℕ → Piece → Piece
push_front c p = record p { out = c ∷ p.out }

abbrev pub prepend : ℕ → Result Refusal Piece → Result Refusal Piece
prepend c (ok p) = ok (push_front c p)
prepend c (err e) = err e

-- `'`, `"` and the backquote
unfoldable pub is_quote : ℕ → Bool
is_quote c = c == 39 || c == 34 || c == 96

-- The inner loop, behind an opening quote `q`. A backquoted name has no backslash escapes.
pub quoted : ℕ → Text → Result Refusal Piece
quoted q [] = ok (record { out = []; rest = [] })
quoted q (c ∷ []) = ok (record { out = c ∷ []; rest = [] })
quoted q (c ∷ d ∷ r) =
    let both = prepend c (prepend d (quoted q r)) in
    let one = prepend c (quoted q (d ∷ r)) in
    if not (q == 96) && c == 92
    then if d == q then err backslash_quote else both
    else if c == q
    then if d == q then both else ok (record { out = c ∷ []; rest = d ∷ r })
    else one

-- s.startswith("*/"), s.startswith("/*")
unfoldable pub starts_close : Text → Bool
starts_close (c ∷ d ∷ r) = c == 42 && d == 47
starts_close _ = false

unfoldable pub starts_open : Text → Bool
starts_open (c ∷ d ∷ r) = c == 47 && d == 42
starts_open _ = false

-- sql.find("*/", i): the text before it and the text behind it
pub find_close : Text → Option Piece
find_close [] = none
find_close (c ∷ []) = none
find_close (c ∷ d ∷ r) =
    let later = Option.map (push_front c) (find_close (d ∷ r)) in
    if starts_close (c ∷ d ∷ r) then some (record { out = []; rest = r }) else later

-- "/*" in s
pub has_open : Text → Bool
has_open [] = false
has_open (c ∷ r) = starts_open (c ∷ r) || has_open r

-- sql.startswith(("/*!", "/*M!"), i), behind the `/*`
unfoldable pub is_executable : Text → Bool
is_executable (c ∷ d ∷ r) = c == 33 || (c == 77 && d == 33)
is_executable (c ∷ []) = c == 33
is_executable [] = false

pub close_comment : Option Piece → Result Refusal Piece
close_comment none = err unterminated_comment
close_comment (some p) =
    if has_open p.out
    then err nested_comment
    else ok (record { out = 47 ∷ 42 ∷ (p.out ++ 42 ∷ 47 ∷ []); rest = p.rest })

-- A block comment, behind its `/*`.
pub block_comment : Text → Result Refusal Piece
block_comment r = if is_executable r then err executable_comment else close_comment (find_close r)

-- sql[offset:offset + 2] == "\r\n", behind the `\r`
unfoldable pub starts_newline : Text → Bool
starts_newline (c ∷ r) = c == 10
starts_newline [] = false

-- A line comment up to its newline, carriage returns blanked; the flag is `mysql_line_comments`.
unfoldable pub line_comment : Bool → Text → Result Refusal Piece
line_comment m [] = ok (record { out = []; rest = [] })
line_comment m (c ∷ r) =
    let more = line_comment m r in
    if c == 10
    then ok (record { out = []; rest = c ∷ r })
    else if c == 13
    then if not m && not (starts_newline r) then err ambiguous_return else prepend 32 more
    else prepend c more

unfoldable pub starts_dashes : Text → Bool
starts_dashes (c ∷ d ∷ r) = c == 45 && d == 45
starts_dashes _ = false

-- What stands behind `--`, if anything, is neither a blank, a control character nor a delete.
unfoldable pub is_ambiguous : Text → Bool
is_ambiguous (c ∷ d ∷ e ∷ r) = c == 45 && d == 45 && not (leb e 32 || e == 127)
is_ambiguous _ = false

-- One round of the outer loop, at `c`.
unfoldable pub step : Bool → ℕ → Text → Result Refusal Piece
step m c r =
    if is_quote c
    then prepend c (quoted c r)
    else if starts_open (c ∷ r)
    then block_comment (drop 1 r)
    else if is_ambiguous (c ∷ r)
    then err ambiguous_dashes
    else if c == 35 || starts_dashes (c ∷ r)
    then line_comment m (c ∷ r)
    else ok (record { out = c ∷ []; rest = r })

unfoldable pub scan : Bool → ℕ → Text → Result Refusal Text
scan m zero s = err out_of_fuel
scan m (suc fuel) [] = ok []
scan m (suc fuel) (c ∷ r) = do p ← step m c r; later ← scan m fuel p.rest; ok (p.out ++ later)

-- Every round passes over at least one character.
unfoldable pub mysql_parse_sql : Bool → Text → Result Refusal Text
mysql_parse_sql m sql = scan m (suc (length sql)) sql
