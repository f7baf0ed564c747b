-- ===== src/Lib.antt =====
-- PPBase: a Python server that speaks the PocketBase protocol over PostgreSQL.
--
-- The files model the parts of the package `ppbase` that decide what a request may do.
--
-- SqlConsole models ppbase/services/sql_console.py. Lexer is one turn of the loop of
-- `split_statements`, Split the loop, Classify the functions `_top_level_words`, `_object_command`
-- and `_classify`, Script `analyze_script`, and Execute `_execute_on_connection` and
-- `execute_script`. A script is the list of its code points, and Python's Unicode tables are the
-- record `Unicode` of the prelude, about which nothing is assumed. The driver, PostgreSQL and the
-- write barrier are the record `Driver`, whose operations may raise at every step; what PostgreSQL
-- promises of its transactions is `IsTransactional`. The loop of the splitter has one unit of fuel
-- more than the script has characters, since each turn consumes one. `classify` has the frames that are
-- left of Python's stack: without one it ends in RecursionError.
--
-- Value is a JSON value of the settings or of a request, with what Python's built-ins compute of it
-- (`int`, `str`, the truth of a float) as the record `Builtins`.
--
-- RateLimit models ppbase/middleware/rate_limit.py. Config is `_extract_rate_limit_config`, Identity
-- `_resolve_client_identifier`, Bucket the region of `RateLimitMiddleware.dispatch` under the lock for
-- one client, Middleware the buckets of all clients, the cache of the settings and `dispatch`. Times
-- are ticks of the monotonic clock with any number of ticks to the second.
--
-- StorageSafety models ppbase/core/storage_safety.py. Utf8 is the encoding of Python's
-- `str.encode` and `bytes.hex`, Component the validators and `local_storage_id_name`.
-- `is_remote_file_reference` is left out, since it is `urlsplit` of the standard library.
--
-- ClientFilter models ppbase/services/client_filter_guard.py. Paths is `_paths`, `_sort_paths` and
-- `_schema_fields`, Guard `_check_path` and `assert_client_query_allowed`. The parser of filters and
-- the loader of collections are parameters. Rules models ppbase/services/rule_engine.py.
--
-- FieldTypes models the validators of text, password, bool, select, file and relation fields in
-- ppbase/models/field_types.py. Definition is `FieldDefinition` with its options, Select
-- `_validate_select`, Text the validators of one text, References those of files and relations.
--
-- FileReferences models `canonical_local_file_references_for_row` of
-- ppbase/services/file_references.py. A set that is sorted in the end is a list kept in order.
--
-- CopyFormat models ppbase/backup/copy_format.py, the data file of a native backup. Segment is
-- `CopySegment`, Layout `validate_segment_layout`, Writer `SegmentWriter` and its open segment, Export
-- `export_table_segment` and the loop over the tables in ppbase/backup/native.py, Reader
-- `SegmentReader.iter_uncompressed`, Import `import_table_segment`. The file that is written to, zlib,
-- SHA-256 and the connection are parameters; a hash object is the bytes that it was updated with. The
-- loop over the chunks has as much fuel as the segment has bytes, since each turn reads one at least.
-- The fuel of the loop inside it is the bytes that are pending and those that are missing: a turn that
-- goes on has given a byte at least, where zlib keeps to `IsProgressing`. A reading whose fuel does
-- not suffice would end as `endless`.
--
-- Realtime models ppbase/services/realtime_service.py. Topic is `parse_realtime_topic`, Manager
-- `SubscriptionManager`, Allow `_build_rule_context` and `_is_subscription_allowed_for_event`, which
-- uses the rules of Rules, and Delivery `broadcast_record_change` with `_build_subscription_event_data`
-- and `_send_realtime_message`. Audience says what the calls of a manager mean. A broadcast is one step.
-- Subscribe models `realtime_subscribe` of ppbase/api/realtime.py, where no extension takes part.
--
-- Hooks models ppbase/ext/hooks.py and `HookEvent` of ppbase/ext/events.py. Chain is `run_hook_chain`
-- with `HookEvent.next`, Registry the class `Hook`. A handler is what it does to its chain: it ends or
-- it calls `next`. An event is triggered by one hook at a time, and a binding that is passed to `bind`
-- is not shared with another hook.
--
-- The other parts (records, collections, the SQL of filters, backup archives, file storage,
-- the HTTP routes, the admin interface) are not modelled: most of them is input and output through
-- the database, the file system and the framework.
pub mod Prelude
pub mod Value
pub mod StorageSafety
pub mod SqlConsole
pub mod RateLimit
pub mod ClientFilter
pub mod Rules
pub mod FieldTypes
pub mod FileReferences
pub mod CopyFormat
pub mod Realtime
pub mod Hooks
pub mod Tests
