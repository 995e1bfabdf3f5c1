-- ===== src/Safety/MysqlText/Total.antt =====
-- The fuel of the MySQL pre-pass is enough: every round shortens the text.
use sqllens.Prelude.{
  ℕ, zero, suc, ◌≤◌, ◌<◌, ◌≡◌, refl, ap, ◌≢◌, inl, inr, Bool, true, false, not, ◌&&◌, ◌||◌, Option,
  none, some, [], ◌∷◌, arith, length, drop, length-append, ◌==◌, if◌then◌else◌, Bool-cases,
}
use sqllens.Prelude.Result.{Result, ok, err, Result-cases}
use sqllens.Safety.MysqlText.{
  Text, Refusal, out_of_fuel, Piece, prepend, is_quote, quoted, starts_open, find_close, has_open,
  is_executable, close_comment, block_comment, starts_newline, line_comment, starts_dashes,
  is_ambiguous, step, scan, mysql_parse_sql,
}
use sqllens.Safety.MysqlText.Blanks.{find_close-cut}
use native.Mathlib.Nat.{le_refl}

-- A round that passes leaves a shorter text, and no round reports missing fuel.
abbrev Advances : ℕ → Result Refusal Piece → Type 0
Advances n (ok p) = length p.rest ≤ n
Advances n (err e) = e ≢ out_of_fuel

Advances-if :
    (n : ℕ) (t : Bool) (x y : Result Refusal Piece)
    → Advances n x
    → Advances n y
    → Advances n (if t then x else y)
Advances-if n true x y hx hy = hx
Advances-if n false x y hx hy = hy

Advances-prepend :
    (n k : ℕ) (c : ℕ) (m : Result Refusal Piece) → n ≤ k → Advances n m → Advances k (prepend c m)
Advances-prepend n k c (ok p) h a = omega arith
Advances-prepend n k c (err e) h a = a

quoted-Advances : (q : ℕ) (s : Text) → Advances (length s) (quoted q s)
unfolding quoted
quoted-Advances q [] = omega arith
quoted-Advances q (c ∷ []) = omega arith
quoted-Advances q (c ∷ d ∷ r) =
    let both =
      Advances-prepend (suc (length r)) _ c _ (omega arith)
        (Advances-prepend (length r) _ d _ (omega arith) (quoted-Advances q r)) in
    let one = Advances-prepend _ _ c _ (omega arith) (quoted-Advances q (d ∷ r)) in
    Advances-if _ (not (q == 96) && c == 92) _ _ (Advances-if _ (d == q) _ _ (λ e. cc) both)
      (Advances-if _ (c == q) _ _ (Advances-if _ (d == q) _ _ both (omega arith)) one)

find_close_shorter : (s : Text) {p : Piece} → find_close s ≡ some p → length p.rest ≤ length s
find_close_shorter s {p} e =
    omega (arith, ap length (find_close-cut s e), length-append p.out (42 ∷ 47 ∷ p.rest))

close_comment-Advances :
    (r : Text) (o : Option Piece) → find_close r ≡ o → Advances (length r) (close_comment o)
unfolding close_comment
close_comment-Advances r none e = λ x. cc
close_comment-Advances r (some p) e =
    Advances-if _ (has_open p.out) _ _ (λ x. cc) (find_close_shorter r e)

block_comment-Advances : (r : Text) → Advances (length r) (block_comment r)
unfolding block_comment
block_comment-Advances r =
    Advances-if _ (is_executable r) _ _ (λ x. cc) (close_comment-Advances r (find_close r) refl)

line_comment-Advances : (m : Bool) (s : Text) → Advances (length s) (line_comment m s)
unfolding line_comment
line_comment-Advances m [] = omega arith
line_comment-Advances m (c ∷ r) =
    let more = λ (k : ℕ).
      Advances-prepend _ (suc (length r)) k _ (omega arith) (line_comment-Advances m r) in
    Advances-if _ (c == 10) _ _ (omega arith) (
      Advances-if _ (c == 13) _ _
        (Advances-if _ (not m && not (starts_newline r)) _ _ (λ x. cc) (more 32)) (more c))

-- A line comment passes over its first character, unless that is a newline.
line_comment-shorter :
    (m : Bool) (c : ℕ) (r : Text) → (c == 10) ≡ false → Advances (length r) (line_comment m (c ∷ r))
unfolding line_comment
line_comment-shorter m c r h =
    let more =
      λ (k : ℕ). Advances-prepend _ (length r) k _ (omega arith) (line_comment-Advances m r) in
    rw h (
      Advances-if _ (c == 13) _ _
        (Advances-if _ (not m && not (starts_newline r)) _ _ (λ x. cc) (more 32)) (more c))

comment_ne_newline :
    (c : ℕ) (r : Text) → (c == 35 || starts_dashes (c ∷ r)) ≡ true → (c == 10) ≡ false
unfolding starts_dashes
comment_ne_newline c [] h = ground arith
comment_ne_newline c (d ∷ r) h = ground arith

length-drop_one : (r : Text) → length (drop 1 r) ≤ length r
length-drop_one [] = omega arith
length-drop_one (c ∷ r) = omega arith

Advances-mono : (n k : ℕ) (m : Result Refusal Piece) → n ≤ k → Advances n m → Advances k m
Advances-mono n k (ok p) h a = omega arith
Advances-mono n k (err e) h a = a

step-Advances : (m : Bool) (c : ℕ) (r : Text) → Advances (length r) (step m c r)
unfolding step
step-Advances m c r =
    Advances-if _ (is_quote c) _ _
      (Advances-prepend (length r) _ c _ (omega arith) (quoted-Advances c r))
      (Advances-if _ (starts_open (c ∷ r)) _ _
        (Advances-mono _ _ _ (length-drop_one r) (block_comment-Advances (drop 1 r)))
        (Advances-if _ (is_ambiguous (c ∷ r)) _ _ (λ x. cc)
          (elim (Bool-cases (c == 35 || starts_dashes (c ∷ r))) [
            | inl e ↦ rw e (line_comment-shorter m c r (comment_ne_newline c r e))
            | inr e ↦ rw e (le_refl (length r))
          ])))

scan-ne-out_of_fuel :
    (m : Bool) (fuel : ℕ) (s : Text) → length s < fuel → scan m fuel s ≢ err out_of_fuel
unfolding scan
scan-ne-out_of_fuel m zero s h e = absurd (omega arith)
scan-ne-out_of_fuel m (suc f) [] h e = cc
scan-ne-out_of_fuel m (suc f) (c ∷ r) h e = elim (Result-cases (step m c r)) [
  | inl (p, sp) ↦
      let shorter : length p.rest ≤ length r = rw sp at (step-Advances m c r) in
      elim (Result-cases (scan m f p.rest)) [
        | inl (t, st) ↦ cc
        | inr (x, sx) ↦ scan-ne-out_of_fuel m f p.rest (omega arith) (cc)
      ]
  | inr (x, sx) ↦ absurd ((rw sx at (step-Advances m c r)) (cc))
]

-- The pre-pass always ends by itself: it returns a text or refuses for a reason of the source, and
-- the model's own `out_of_fuel` never comes out.
pub mysql_parse_sql-ne-out_of_fuel :
    (m : Bool) (sql : Text) → mysql_parse_sql m sql ≢ err out_of_fuel
unfolding mysql_parse_sql
mysql_parse_sql-ne-out_of_fuel m sql = scan-ne-out_of_fuel m _ sql (omega arith)
