-- ===== src/Tests/Sql.antt =====
-- The safety guards at concrete statements.
use sqllens.Safety.Rls.Values.{IsUsable, resolve_value_iff}
use sqllens.Safety.Denylist.Union.{denied_funcs-union}
use sqllens.Safety.Denylist.{contains, denied_funcs, always_denied_funcs}
use sqllens.Safety.Rls.Terms.{resolve_value, scalar, text}
use sqllens.Tests.Data.{tenant_rule}
use sqllens.Safety.Guards.Wall.{IsWalled, run_sql-IsWalled}
use sqllens.Safety.Guards.Rows.{build_runner-length}
use sqllens.Safety.Rls.Scoped.{IsScoped, apply_rls-IsScoped}
use sqllens.Safety.Readonly.Accepts.{IsReadOnly, assert_select_only_iff}
use sqllens.Safety.MysqlText.Blanks.{Blanks, mysql_parse_sql-Blanks}
use sqllens.Safety.MysqlText.Total.{mysql_parse_sql-ne-out_of_fuel}
use sqllens.Safety.MysqlText.Strict.{mysql_parse_sql_mono}
use sqllens.Prelude.{
  ℕ, ◌≤◌, ◌≡◌, refl, ◌≢◌, ◌↔◌, ◌⊎◌, true, false, ◌||◌, none, some, [], ◌∷◌, arith, length, take,
  ltb,
}
use sqllens.Prelude.Result.{ok, err}
use sqllens.Prelude.Dict.{lookup}
use sqllens.Safety.Limits.{
  rows_to_capped_df-take, cap_frame-rows_to_capped_df, cap_frame, rows_to_capped_df, get_or,
  cap_frame_lem, effective_row_cap, mark_truncation,
}
use sqllens.Safety.Guards.{
  RunError, Runner, build_runner, rls, new_row_cap, read_only, new_rls, row_cap, executor,
  relation_check_executor, run_sql, cap_result, has_rules, from_executor,
}
use sqllens.Safety.MysqlText.{
  mysql_parse_sql, out_of_fuel, scan, step, line_comment, is_quote, starts_open, starts_dashes,
  is_ambiguous, starts_newline,
}
use sqllens.Safety.Readonly.{assert_select_only}
use sqllens.Safety.Rls.{
  apply_rls, prepare, normalize_rls_identifiers, rewrite, walk_scopes, walk_scope, inject_tables,
  inject_rules, note_references, account, rules_for, is_protected, has_id, mentions_protected,
}
use sqllens.Tests.Data.{
  three_rows, toy_parser, toy_unicode, select_text, database, tenant_rules, toy_syntax,
  tenant_metadata,
}
use sqllens.Safety.Rls.Terms.{
  resolve_value, resolve_from, resolve_found, is_suspicious_scalar, is_suspicious_item, predicate,
  binary_op, binary_predicate, is_control,
}

abbrev guarded : Runner ℕ Unit ℕ ℕ
guarded = rls (read_only (row_cap (executor database) 2) none) tenant_rules none

run_sql-IsWalled_example :
    ((e : RunError Unit) × (run_sql toy_parser toy_unicode toy_syntax guarded tenant_metadata
          (some 5)
          false
          select_text
          0
        ≡ (err e, 0)))
    ⊎ IsWalled toy_parser toy_unicode toy_syntax database tenant_rules none tenant_metadata 2
        select_text 0
        (run_sql toy_parser toy_unicode toy_syntax guarded tenant_metadata
          (some 5)
          false
          select_text
          0)
unfolding build_runner new_row_cap new_rls relation_check_executor has_rules effective_row_cap
run_sql-IsWalled_example =
    run_sql-IsWalled toy_parser toy_unicode toy_syntax database 2 tenant_rules none guarded
      tenant_metadata (some 5) false select_text 0 (λ h. cc) refl

build_runner-length_example : length {A = ℕ} (1 ∷ 2 ∷ []) ≤ effective_row_cap (some 5) 2
unfolding build_runner new_row_cap new_rls run_sql cap_result cap_frame from_executor
    mark_truncation effective_row_cap has_rules
build_runner-length_example =
    build_runner-length toy_parser toy_unicode toy_syntax database 2 false [] none
      (row_cap (executor database) 2) [] (some 5) false select_text 0
      (record { rows = 1 ∷ 2 ∷ []; truncated = some true; max_rows = some 2 }) refl refl

apply_rls-IsScoped_example :
    IsScoped toy_syntax select_text tenant_rules none tenant_metadata (83 ∷ 87 ∷ [])
unfolding apply_rls prepare normalize_rls_identifiers rewrite walk_scopes walk_scope inject_tables
    inject_rules note_references account resolve_value resolve_from resolve_found
    is_suspicious_scalar is_suspicious_item predicate rules_for is_protected binary_op
    binary_predicate lookup has_id mentions_protected is_control
apply_rls-IsScoped_example =
    apply_rls-IsScoped toy_syntax select_text tenant_rules none tenant_metadata (λ h. cc) refl

assert_select_only_iff_example :
    (assert_select_only toy_parser toy_unicode select_text none ≡ ok tt)
    ↔ IsReadOnly toy_parser toy_unicode select_text none
assert_select_only_iff_example = assert_select_only_iff toy_parser toy_unicode select_text none

-- "#\r\n" with no dialect
mysql_parse_sql-Blanks_example : Blanks true (35 ∷ 13 ∷ 10 ∷ []) (35 ∷ 32 ∷ 10 ∷ [])
unfolding mysql_parse_sql scan step line_comment is_quote starts_open starts_dashes is_ambiguous
    starts_newline
mysql_parse_sql-Blanks_example = mysql_parse_sql-Blanks false (35 ∷ 13 ∷ 10 ∷ []) refl

mysql_parse_sql-ne-out_of_fuel_example :
    mysql_parse_sql true (47 ∷ 42 ∷ 32 ∷ 42 ∷ 47 ∷ 65 ∷ []) ≢ err out_of_fuel
mysql_parse_sql-ne-out_of_fuel_example =
    mysql_parse_sql-ne-out_of_fuel true (47 ∷ 42 ∷ 32 ∷ 42 ∷ 47 ∷ 65 ∷ [])

mysql_parse_sql_mono_example : mysql_parse_sql true (35 ∷ 13 ∷ 10 ∷ []) ≡ ok (35 ∷ 32 ∷ 10 ∷ [])
unfolding mysql_parse_sql scan step line_comment is_quote starts_open starts_dashes is_ambiguous
    starts_newline
mysql_parse_sql_mono_example = mysql_parse_sql_mono (35 ∷ 13 ∷ 10 ∷ []) refl

cap_frame_lem_example :
    (length (cap_frame 2 three_rows).rows ≤ 2)
    × ((cap_frame 2 three_rows).rows ≡ take 2 three_rows.rows)
    × ((cap_frame 2 three_rows).truncated
        ≡ some (ltb 2 (length three_rows.rows) || get_or three_rows.truncated false))
cap_frame_lem_example = cap_frame_lem 2 three_rows

rows_to_capped_df-take_example :
    rows_to_capped_df {Row = ℕ} (take 3 (1 ∷ 2 ∷ 3 ∷ 4 ∷ [])) 2
    ≡ record { rows = 1 ∷ 2 ∷ []; truncated = some true; max_rows = some 2 }
rows_to_capped_df-take_example = rows_to_capped_df-take {Row = ℕ} 2 (1 ∷ 2 ∷ 3 ∷ 4 ∷ [])

cap_frame-rows_to_capped_df_example :
    cap_frame {Row = ℕ} 3 (rows_to_capped_df (1 ∷ 2 ∷ []) 2)
    ≡ record { rows = 1 ∷ 2 ∷ []; truncated = some false; max_rows = some 3 }
cap_frame-rows_to_capped_df_example =
    cap_frame-rows_to_capped_df {Row = ℕ} 2 3 (1 ∷ 2 ∷ []) (omega arith)

resolve_value_iff_example :
    (resolve_value tenant_rule tenant_metadata ≡ ok (scalar (text (97 ∷ [])))) ↔ (
      (lookup "tenant_id" tenant_metadata ≡ some (scalar (text (97 ∷ []))))
      × IsUsable tenant_rule (scalar (text (97 ∷ []))))
resolve_value_iff_example =
    resolve_value_iff tenant_rule tenant_metadata "tenant_id" (scalar (text (97 ∷ []))) refl

denied_funcs-union_example :
    (contains (denied_funcs (some "mysql")) "sleep" ≡ true
      → contains (denied_funcs none) "sleep" ≡ true)
    × (contains always_denied_funcs "sleep" ≡ true
        → contains (denied_funcs (some "mysql")) "sleep" ≡ true)
denied_funcs-union_example = denied_funcs-union (some "mysql") "sleep"
