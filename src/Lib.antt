-- ===== src/Lib.antt =====
-- Verification of the core of SQL Lens (src/sqllens), an agent that answers questions over a database.
-- A statement that the language model writes reaches the database through a stack of runners
-- (src/sqllens/agent/factory.py): the row-level-security rewrite outermost, then the read-only guard,
-- then the row cap, then the engine's own runner. Around it, a turn of a conversation works on a
-- bounded store, and its end rolls back or trims what the turn left behind. Inside it the agent asks
-- the model, runs the tools that it calls through a registry, and asks again, up to a limit that the
-- configuration and the request's profile set.
--
-- Which file models what:
-- - Safety/MysqlText: `_mysql_parse_sql` of src/sqllens/safety/readonly.py. A text is the list of its
--   code points; the index of the source is the suffix still to be read.
-- - Safety/Denylist: the tables of denied function names and `_denied_funcs` of the same file.
-- - Safety/Readonly: `_parse_statements`, `assert_no_denied_functions`, `assert_select_only`; each
--   `raise` is a constructor of `Unsafe`.
-- - Safety/Introspect: `first_sql_keyword`, `is_read_shaped`, `is_introspection_query` and
--   `sqlglot_dialect_for_url` of the same file.
-- - Safety/Rls, Rls/Terms: src/sqllens/safety/rls.py, and the
--   fields of `RlsRule` of src/sqllens/config.py. The tree that the source changes in place is
--   passed on by the walk, and a table node's `id` is a number.
-- - Safety/Limits: src/sqllens/safety/limits.py. A DataFrame is its rows and two attributes.
-- - Safety/Guards: the runners of src/sqllens/safety/__init__.py and of limits.py, with their
--   constructors and the composition in the factory. `W` is all that the executor may change.
-- - Safety/Relations: src/sqllens/safety/relations.py. The statements that it executes are the
--   constructors of `Query`; the parts of the statement come from sqlglot.
-- - Profiles: src/sqllens/profiles.py, with the fields of `EffectiveSettings` of
--   src/sqllens/runtime.py. How the write of the file ends is an argument of each operation.
-- - Agent/Access, Agent/Registry: the feature and group tests of
--   src/sqllens/agent/core/agent/config.py, and src/sqllens/agent/core/registry.py.
-- - Agent/Requests, Agent/Calls, Agent/Loop: `_build_llm_request`, `_send_llm_request`,
--   `_handle_streaming_response`, and `_send_message` from the first request on, of
--   src/sqllens/agent/core/agent/agent.py, with no observability provider. Code that may raise is a
--   function of the state (`Act` of Prelude/Act), which keeps what it changed before it raised; what
--   is yielded is a list of events.
-- - Conversation/Store: src/sqllens/conversation_store.py, the OrderedDict as a list in its order.
-- - Conversation/ToolUse, Conversation/Turn: `_tool_use_ids`, `_first_unanswered_tool_use`,
--   `_conversation_baseline`, `_trim_unanswered_tool_use` and `_rollback_conversation` of
--   src/sqllens/tools/query_database.py. What they log is their `Outcome`. ToolUse has the search over
--   messages, Scan the same search over what a store returns, where it may raise; Uses says apart from
--   it what a tool use and its answer are. Turn/Shipped is the store of Conversation/Store as the
--   agent's store.
-- - Conversation/Queue: `_conversation_turn` and `_release_queue_entry` of the same file, as steps
--   between the points where the event loop may switch tasks; entries are numbers in a heap.
-- - Memory/Consistency: `CollectionState` of src/sqllens/_memory_consistency.py. Each method holds the
--   lock, so a run of several threads is a sequence of whole methods.
-- - Format: the loops of src/sqllens/tools/_format.py that cut a table, a chart and the blocks of an
--   answer to a size.
-- - Json: `copy_bounded_json` of src/sqllens/_bounded_json.py.
-- - Prelude: the names of the library that the files share, results, stateful runs and rules for what
--   they keep, dictionaries, list lemmas.
-- - Tests: small instances of the parameters, and the theorems at concrete inputs.
--
-- Parameters: sqlglot (parser, syntax tree, scopes, tokenizer), Python's Unicode tables, the encoding
-- of scalars by `json.dumps`, the database's runner and connection, the language model with its
-- filters, middlewares and hooks, the tools with their pydantic schemas, and the audit logger. They
-- are functions without laws, but for two hypotheses where they are stated: a response's provider
-- blocks use only tools among its tool calls, and a payload with more rows has no shorter JSON text.
--
-- Bounds and fuel: `mysql_parse_sql` scans with one more unit of fuel than the text has characters,
-- and every round passes over at least one. The binary search of Format has as much fuel as there are
-- rows, and its range shrinks in every round. The agent's loop recurs on the iterations that are left,
-- as its test does. All other loops are structural. Numbers are unbounded, as Python's are; a
-- subtraction of the source that may fall below 0 is tested first.
--
-- Not modelled: log lines and messages' wording, asyncio's scheduling and the fairness of its locks,
-- observability spans, what `_send_message` does before the first request (the user, the workflow
-- handler, error recovery), configuration, result formatting but for its size budgets, drivers and
-- worker threads, UI components, the tools themselves, memory storage and its import and export,
-- authentication, transport, command line, evaluation and the UI.
pub mod Prelude
pub mod Safety
pub mod Memory
pub mod Profiles
pub mod Format
pub mod Conversation
pub mod Json
pub mod Agent
pub mod Tests
