-- ===== src/Safety/MysqlText/Strict.antt =====
-- The pre-pass with no dialect is stricter than the one for MySQL.
use sqllens.Prelude.{
  ◌≡◌, refl, inl, inr, true, false, [], ◌∷◌, arith, Bool, suc, ℕ, length, zero, ◌||◌, ◌==◌,
  if◌then◌else◌,
}
use sqllens.Prelude.Result.{Result, ok, err, Result-cases}
use sqllens.Safety.MysqlText.{
  Text, Refusal, line_comment, mysql_parse_sql, scan, step, Piece, is_quote, starts_open,
  starts_dashes, is_ambiguous,
}

-- `y` passes wherever `x` does, with the same piece.
abbrev Agrees : {A : Type 0} → Result Refusal A → Result Refusal A → Type 0
Agrees (ok a) y = y ≡ ok a
Agrees (err e) y = Unit {0}

line_comment-Agrees : (s : Text) → Agrees (line_comment false s) (line_comment true s)
unfolding line_comment
line_comment-Agrees [] = refl
line_comment-Agrees (c ∷ r) = elim (Result-cases (line_comment false r)) [
  | inl (p, e) ↦ ground (arith, line_comment-Agrees r)
  | inr (x, e) ↦ ground (arith, line_comment-Agrees r)
]

Agrees-refl : {A : Type 0} (x : Result Refusal A) → Agrees x x
Agrees-refl (ok a) = refl
Agrees-refl (err e) = tt

Agrees-if :
    (t : Bool) (x y x' y' : Result Refusal Piece)
    → Agrees x x'
    → Agrees y y'
    → Agrees (if t then x else y) (if t then x' else y')
Agrees-if true x y x' y' h k = h
Agrees-if false x y x' y' h k = k

step-Agrees : (c : ℕ) (r : Text) → Agrees (step false c r) (step true c r)
unfolding step
step-Agrees c r = Agrees-if (is_quote c) _ _ _ _ (Agrees-refl _) (
    Agrees-if (starts_open (c ∷ r)) _ _ _ _ (Agrees-refl _) (
      Agrees-if (is_ambiguous (c ∷ r)) _ _ _ _ tt
        (Agrees-if (c == 35 || starts_dashes (c ∷ r)) _ _ _ _ (line_comment-Agrees (c ∷ r)) refl)))

scan-Agrees : (fuel : ℕ) (s : Text) → Agrees (scan false fuel s) (scan true fuel s)
unfolding scan
scan-Agrees zero s = tt
scan-Agrees (suc f) [] = refl
scan-Agrees (suc f) (c ∷ r) = elim (Result-cases (step false c r)) [
  | inl (p, e) ↦
      let same : step true c r ≡ ok p = rw e at (step-Agrees c r) in
      elim (Result-cases (scan false f p.rest)) [
        | inl (t, st) ↦
            let rest : scan true f p.rest ≡ ok t = rw st at (scan-Agrees f p.rest) in
            rw e (rw same (rw st (rw rest)))
        | inr (x, st) ↦ rw e (rw st tt)
      ]
  | inr (x, e) ↦ rw e tt
]

-- Whatever text the pre-pass lets through with no dialect, it lets through under MySQL, with the
-- same result.
pub mysql_parse_sql_mono :
    (sql : Text) {o : Text} → mysql_parse_sql false sql ≡ ok o → mysql_parse_sql true sql ≡ ok o
unfolding mysql_parse_sql
mysql_parse_sql_mono sql h = rw h at (scan-Agrees (suc (length sql)) sql)
