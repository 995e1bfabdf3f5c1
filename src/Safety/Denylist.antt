-- ===== src/Safety/Denylist.antt =====
-- The function denylists of src/sqllens/safety/readonly.py.
pub mod Union
use sqllens.Prelude.{String, Bool, false, ◌||◌, Option, none, some, List, [], ◌∷◌, ◌++◌, str_eq}
use sqllens.Prelude.Dict.{Dict, lookup}

-- _SIDE_EFFECT_FUNCS
abbrev pub sqlite_funcs : List String
sqlite_funcs = "load_extension" ∷ []

abbrev pub postgres_funcs : List String
postgres_funcs =
    "dblink_exec" ∷ "dblink" ∷ "dblink_connect" ∷ "dblink_connect_u" ∷ "dblink_disconnect"
    ∷ "dblink_open" ∷ "dblink_fetch" ∷ "dblink_close" ∷ "dblink_send_query" ∷ "dblink_get_result"
    ∷ "dblink_get_notify" ∷ "dblink_cancel_query" ∷ "set_config" ∷ "pg_notify" ∷ "pg_reload_conf"
    ∷ "pg_promote" ∷ "pg_rotate_logfile" ∷ "pg_switch_wal" ∷ "pg_advisory_lock"
    ∷ "pg_advisory_lock_shared" ∷ "pg_advisory_xact_lock" ∷ "pg_advisory_xact_lock_shared"
    ∷ "pg_try_advisory_lock" ∷ "pg_try_advisory_lock_shared" ∷ "pg_try_advisory_xact_lock"
    ∷ "pg_try_advisory_xact_lock_shared" ∷ "pg_advisory_unlock" ∷ "pg_advisory_unlock_shared"
    ∷ "pg_advisory_unlock_all" ∷ "pg_stat_reset" ∷ "pg_stat_reset_shared"
    ∷ "pg_stat_reset_single_table_counters" ∷ "pg_stat_reset_single_function_counters"
    ∷ "pg_stat_reset_slru" ∷ "pg_stat_reset_replication_slot" ∷ "pg_stat_reset_subscription_stats"
    ∷ "pg_stat_reset_backend_stats" ∷ "query_to_xml" ∷ "query_to_xmlschema"
    ∷ "query_to_xml_and_xmlschema" ∷ "table_to_xml" ∷ "table_to_xmlschema"
    ∷ "table_to_xml_and_xmlschema" ∷ "schema_to_xml" ∷ "schema_to_xmlschema"
    ∷ "schema_to_xml_and_xmlschema" ∷ "database_to_xml" ∷ "database_to_xmlschema"
    ∷ "database_to_xml_and_xmlschema" ∷ "cursor_to_xml" ∷ "cursor_to_xmlschema" ∷ "ts_stat"
    ∷ "ts_rewrite" ∷ "crosstab" ∷ "crosstab2" ∷ "crosstab3" ∷ "crosstab4" ∷ "connectby"
    ∷ "xpath_table" ∷ "dblink_build_sql_insert" ∷ "dblink_build_sql_update" ∷ "get_raw_page"
    ∷ "bt_page_items" ∷ "pg_sleep" ∷ "pg_terminate_backend" ∷ "pg_cancel_backend" ∷ "pg_file_write"
    ∷ "pg_file_rename" ∷ "pg_file_unlink" ∷ "pg_file_sync" ∷ "pg_logdir_ls" ∷ "pg_read_file"
    ∷ "pg_read_binary_file" ∷ "pg_ls_dir" ∷ "pg_stat_file" ∷ "pg_read_server_files" ∷ "pg_ls_logdir"
    ∷ "pg_ls_waldir" ∷ "pg_ls_tmpdir" ∷ "pg_ls_archive_statusdir" ∷ "pg_ls_logicalmapdir"
    ∷ "pg_ls_logicalsnapdir" ∷ "pg_ls_replslotdir" ∷ "lo_import" ∷ "lo_export" ∷ "lo_create"
    ∷ "lo_creat" ∷ "lo_from_bytea" ∷ "lo_put" ∷ "lowrite" ∷ "lo_truncate" ∷ "lo_truncate64"
    ∷ "lo_unlink" ∷ []

abbrev pub mysql_funcs : List String
mysql_funcs =
    "sleep" ∷ "load_file" ∷ "benchmark" ∷ "sys_exec" ∷ "sys_eval" ∷ "get_lock" ∷ "release_lock"
    ∷ "release_all_locks" ∷ "master_pos_wait" ∷ "source_pos_wait" ∷ []

abbrev pub side_effect_funcs : Dict (List String)
side_effect_funcs =
    ("sqlite", sqlite_funcs) ∷ ("postgres", postgres_funcs) ∷ ("mysql", mysql_funcs) ∷ []

-- _ALWAYS_DENIED_FUNCS
abbrev pub always_denied_funcs : List String
always_denied_funcs = "generate_series" ∷ "exploding_generate_series" ∷ []

-- _DENIED_BY_DIALECT
unfoldable pub denied_by_dialect : Dict (List String) → Dict (List String)
denied_by_dialect [] = []
denied_by_dialect ((dialect, names) ∷ rest) =
    (dialect, names ++ always_denied_funcs) ∷ denied_by_dialect rest

-- _DENIED_UNION
unfoldable pub denied_union : Dict (List String) → List String
denied_union [] = always_denied_funcs
denied_union ((dialect, names) ∷ rest) = names ++ denied_union rest

-- name in names
unfoldable pub contains : List String → String → Bool
contains [] n = false
contains (x ∷ xs) n = str_eq x n || contains xs n

unfoldable pub or_union : Option (List String) → List String
unfolding denied_union
or_union (some names) = names
or_union none = denied_union side_effect_funcs

-- `_denied_funcs`; the empty name is no key, so it gets the union too
unfoldable pub denied_funcs : Option String → List String
unfolding or_union denied_by_dialect lookup
denied_funcs none = or_union none
denied_funcs (some dialect) = or_union (lookup dialect (denied_by_dialect side_effect_funcs))
