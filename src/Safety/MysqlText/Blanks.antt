-- ===== src/Safety/MysqlText/Blanks.antt =====
-- What the MySQL pre-pass may change in a text it lets through: carriage returns, into blanks.
use sqllens.Prelude.{
  ℕ, zero, suc, ◌≤◌, ◌≡◌, refl, sym, ap, ◌∙◌, inl, inr, Bool, true, false, not, ◌&&◌, ◌||◌, Option,
  none, some, [], ◌∷◌, ◌++◌, arith, length, drop, length-append, ◌==◌, if◌then◌else◌, ==_iff,
  Option-cases,
}
use sqllens.Prelude.Result.{ok-injective, Result, ok, err, >>=-eq-ok}
use sqllens.Safety.MysqlText.{
  Text, Refusal, Piece, prepend, is_quote, quoted, starts_close, starts_open, find_close, has_open,
  is_executable, close_comment, block_comment, starts_newline, line_comment, starts_dashes,
  is_ambiguous, step, scan, mysql_parse_sql,
}
use mathlib.Core.List.{append_assoc}

-- `o` is `s` with some carriage returns blanked. The flag says that only those directly before a
-- newline may be.
pub data Blanks (lf_only : Bool) : Text → Text → Type 0 where
  done : Blanks lf_only [] []
  keep : {s o : Text} (c : ℕ) → Blanks lf_only s o → Blanks lf_only (c ∷ s) (c ∷ o)
  blank :
      {s o : Text}
      → (lf_only ≡ true → starts_newline s ≡ true)
      → Blanks lf_only s o
      → Blanks lf_only (13 ∷ s) (32 ∷ o)

module _ {b : Bool} where
  pub Blanks-refl : (s : Text) → Blanks b s s
  Blanks-refl [] = done
  Blanks-refl (c ∷ s) = keep c (Blanks-refl s)

  pub length-Blanks : {s o : Text} → Blanks b s o → length o ≡ length s
  length-Blanks done = refl
  length-Blanks (keep c h) = ap suc (length-Blanks h)
  length-Blanks (blank e h) = ap suc (length-Blanks h)

-- The piece's output is what it read, up to blanked carriage returns, in front of its rest. What
-- follows the output, `rest`, may be blanked as well.
pub record Covers (b : Bool) (s : Text) (p : Piece) : Type 0 where
  pub shorter : length p.rest ≤ length s
  pub glue : (o : Text) → Blanks b p.rest o → Blanks b s (p.out ++ o)

abbrev pub CoversOk : Bool → Text → Result Refusal Piece → Type 0
CoversOk b s (ok p) = Covers b s p
CoversOk b s (err e) = Unit

module _ {b : Bool} where
  -- a piece that is a prefix of the text, unchanged
  Covers-read : (s : Text) {p : Piece} → s ≡ p.out ++ p.rest → Covers b s p
  Covers-read s {p} e = record {
    shorter = omega (arith, ap length e, length-append p.out p.rest);
    glue = λ o h. rw e (onto p.out o h);
  }
    where
      onto : (t o : Text) → Blanks b p.rest o → Blanks b (t ++ p.rest) (t ++ o)
      onto [] o h = h
      onto (c ∷ t) o h = keep c (onto t o h)

module _ (b : Bool) where
  CoversOk-if :
      (s : Text) (t : Bool) (x y : Result Refusal Piece)
      → (t ≡ true → CoversOk b s x)
      → (t ≡ false → CoversOk b s y)
      → CoversOk b s (if t then x else y)
  CoversOk-if s true x y hx hy = hx refl
  CoversOk-if s false x y hx hy = hy refl

  CoversOk-prepend :
      (c : ℕ) (s : Text) (m : Result Refusal Piece)
      → CoversOk b s m
      → CoversOk b (c ∷ s) (prepend c m)
  CoversOk-prepend c s (ok q) k = record {
    shorter = omega (arith, k.shorter);
    glue = λ o h. keep c (k.glue o h);
  }
  CoversOk-prepend c s (err x) k = tt

  quoted-CoversOk : (q : ℕ) (s : Text) → CoversOk b s (quoted q s)
  unfolding quoted
  quoted-CoversOk q [] = Covers-read [] refl
  quoted-CoversOk q (c ∷ []) = Covers-read (c ∷ []) refl
  quoted-CoversOk q (c ∷ d ∷ r) =
      let both = CoversOk-prepend c (d ∷ r) _ (CoversOk-prepend d r _ (quoted-CoversOk q r)) in
      let one = CoversOk-prepend c (d ∷ r) _ (quoted-CoversOk q (d ∷ r)) in
      CoversOk-if _ (not (q == 96) && c == 92) _ _
        (λ _. CoversOk-if _ (d == q) _ _ (λ _. tt) (λ _. both))
        (λ _.
          CoversOk-if _ (c == q) _ _
            (λ _. CoversOk-if _ (d == q) _ _ (λ _. both) (λ _. Covers-read (c ∷ d ∷ r) refl))
            (λ _. one))

-- find_close cuts its text around the first `*/`.
pub find_close-cut : (s : Text) {p : Piece} → find_close s ≡ some p → s ≡ p.out ++ 42 ∷ 47 ∷ p.rest
unfolding find_close starts_close
find_close-cut [] h = cc
find_close-cut (c ∷ []) h = cc
find_close-cut (c ∷ d ∷ r) {p} h = elim (Option-cases (find_close (d ∷ r))) [
  | inl e ↦ ground arith
  | inr (q, e) ↦ ground (arith, find_close-cut (d ∷ r) e)
]

starts_open-cut : (c : ℕ) (r : Text) → starts_open (c ∷ r) ≡ true → c ∷ r ≡ 47 ∷ 42 ∷ drop 1 r
unfolding starts_open
starts_open-cut c [] h = cc
starts_open-cut c (d ∷ r) h = ground arith

module _ (b : Bool) where
  close_comment-CoversOk :
      (r : Text) (o : Option Piece) → find_close r ≡ o → CoversOk b (47 ∷ 42 ∷ r) (close_comment o)
  unfolding close_comment
  close_comment-CoversOk r none e = tt
  close_comment-CoversOk r (some p) e =
      CoversOk-if b _ (has_open p.out) _ _ (λ _. tt)
        (λ _.
          Covers-read (47 ∷ 42 ∷ r)
            (ap (λ t. 47 ∷ 42 ∷ t) (find_close-cut r e ∙ sym (append_assoc p.out _ p.rest))))

  block_comment-CoversOk : (r : Text) → CoversOk b (47 ∷ 42 ∷ r) (block_comment r)
  unfolding block_comment
  block_comment-CoversOk r =
      CoversOk-if b _ (is_executable r) _ _ (λ _. tt)
        (λ _. close_comment-CoversOk r (find_close r) refl)

line_comment-CoversOk : (m : Bool) (s : Text) → CoversOk (not m) s (line_comment m s)
unfolding line_comment
line_comment-CoversOk m [] = Covers-read [] refl
line_comment-CoversOk m (c ∷ r) =
    let more = line_comment-CoversOk m r in
    CoversOk-if (not m) _ (c == 10) _ _ (λ _. Covers-read (c ∷ r) refl)
      (λ _.
        CoversOk-if (not m) _ (c == 13) _ _
          (λ e.
            CoversOk-if (not m) _ (not m && not (starts_newline r)) _ _ (λ _. tt)
              (λ g. rw ((==_iff c 13).0 e) (blanked m r (ground arith) _ more)))
          (λ _. CoversOk-prepend (not m) c r _ more))
  where
    blanked :
        (m : Bool) (r : Text)
        → (not m ≡ true → starts_newline r ≡ true)
        → (x : Result Refusal Piece) → CoversOk (not m) r x
        → CoversOk (not m) (13 ∷ r) (prepend 32 x)
    blanked m r g (ok q) k = record {
      shorter = omega (arith, k.shorter);
      glue = λ o h. blank g (k.glue o h);
    }
    blanked m r g (err x) k = tt

step-CoversOk : (m : Bool) (c : ℕ) (r : Text) → CoversOk (not m) (c ∷ r) (step m c r)
unfolding step
step-CoversOk m c r =
    CoversOk-if (not m) _ (is_quote c) _ _
      (λ _. CoversOk-prepend (not m) c r _ (quoted-CoversOk (not m) c r))
      (λ _.
        CoversOk-if (not m) _ (starts_open (c ∷ r)) _ _
          (λ e. rw (starts_open-cut c r e) (block_comment-CoversOk (not m) (drop 1 r)))
          (λ _.
            CoversOk-if (not m) _ (is_ambiguous (c ∷ r)) _ _ (λ _. tt)
              (λ _.
                CoversOk-if (not m) _ (c == 35 || starts_dashes (c ∷ r)) _ _
                  (λ _. line_comment-CoversOk m (c ∷ r)) (λ _. Covers-read (c ∷ r) refl))))

scan-Blanks :
    (m : Bool) (fuel : ℕ) (s : Text) {o : Text} → scan m fuel s ≡ ok o → Blanks (not m) s o
unfolding scan
scan-Blanks m zero s h = cc
scan-Blanks m (suc f) [] h = rw (← ok-injective h) done
scan-Blanks m (suc f) (c ∷ r) {o} h =
    let (p, e, later) = >>=-eq-ok (step m c r) _ h in
    let (t, e', last) = >>=-eq-ok (scan m f p.rest) _ later in
    rw (← ok-injective last) ((rw e at (step-CoversOk m c r)).glue t (scan-Blanks m f p.rest e'))

-- A text that the pre-pass lets through comes out unchanged but for carriage returns that became
-- blanks; with no MySQL dialect only those directly before a newline may have.
pub mysql_parse_sql-Blanks :
    (m : Bool) (sql : Text) {o : Text} → mysql_parse_sql m sql ≡ ok o → Blanks (not m) sql o
unfolding mysql_parse_sql
mysql_parse_sql-Blanks m sql h = scan-Blanks m _ sql h
