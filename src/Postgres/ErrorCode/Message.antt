-- ===== src/Postgres/ErrorCode/Message.antt =====
-- `message` of the category in include/chx/sql/postgresql/error_code.hpp.
use Prim.Native.String.{String}
use chxsql.Postgres.ErrorCode.Values.{Errc}

-- The last clause is the `default` of the switch.
unfoldable pub message : Errc → String
message Errc.successful_completion = "successful completion"
message Errc.warning = "warning"
message Errc.dynamic_result_sets_returned = "dynamic result sets returned"
message Errc.implicit_zero_bit_padding = "implicit zero bit padding"
message Errc.null_value_eliminated_in_set_function = "null value eliminated in set function"
message Errc.privilege_not_granted = "privilege not granted"
message Errc.privilege_not_revoked = "privilege not revoked"
message Errc.string_data_right_truncation = "string data right truncation"
message Errc.deprecated_feature = "deprecated feature"
message Errc.no_data = "no data"
message Errc.no_additional_dynamic_result_sets_returned =
    "no additional dynamic result sets returned"
message Errc.sql_statement_not_yet_complete = "sql statement not yet complete"
message Errc.connection_exception = "connection exception"
message Errc.connection_does_not_exist = "connection does not exist"
message Errc.connection_failure = "connection failure"
message Errc.sqlclient_unable_to_establish_sqlconnection =
    "sqlclient unable to establish sqlconnection"
message Errc.sqlserver_rejected_establishment_of_sqlconnection =
    "sqlserver rejected establishment of sqlconnection"
message Errc.transaction_resolution_unknown = "transaction resolution unknown"
message Errc.protocol_violation = "protocol violation"
message Errc.triggered_action_exception = "triggered action exception"
message Errc.feature_not_supported = "feature not supported"
message Errc.invalid_transaction_initiation = "invalid transaction initiation"
message Errc.locator_exception = "locator exception"
message Errc.invalid_locator_specification = "invalid locator specification"
message Errc.invalid_grantor = "invalid grantor"
message Errc.invalid_grant_operation = "invalid grant operation"
message Errc.invalid_role_specification = "invalid role specification"
message Errc.diagnostics_exception = "diagnostics exception"
message Errc.stacked_diagnostics_accessed_without_active_handler =
    "stacked diagnostics accessed without active handler"
message Errc.case_not_found = "case not found"
message Errc.cardinality_violation = "cardinality violation"
message Errc.data_exception = "data exception"
message Errc.array_subscript_error = "array subscript error"
message Errc.character_not_in_repertoire = "character not in repertoire"
message Errc.datetime_field_overflow = "datetime field overflow"
message Errc.division_by_zero = "division by zero"
message Errc.error_in_assignment = "error in assignment"
message Errc.escape_character_conflict = "escape character conflict"
message Errc.indicator_overflow = "indicator overflow"
message Errc.interval_field_overflow = "interval field overflow"
message Errc.invalid_argument_for_logarithm = "invalid argument for logarithm"
message Errc.invalid_argument_for_ntile_function = "invalid argument for ntile function"
message Errc.invalid_argument_for_nth_value_function = "invalid argument for nth value function"
message Errc.invalid_argument_for_power_function = "invalid argument for power function"
message Errc.invalid_argument_for_width_bucket_function =
    "invalid argument for width bucket function"
message Errc.invalid_character_value_for_cast = "invalid character value for cast"
message Errc.invalid_datetime_format = "invalid datetime format"
message Errc.invalid_escape_character = "invalid escape character"
message Errc.invalid_escape_octet = "invalid escape octet"
message Errc.invalid_escape_sequence = "invalid escape sequence"
message Errc.nonstandard_use_of_escape_character = "nonstandard use of escape character"
message Errc.invalid_indicator_parameter_value = "invalid indicator parameter value"
message Errc.invalid_parameter_value = "invalid parameter value"
message Errc.invalid_preceding_or_following_size = "invalid preceding or following size"
message Errc.invalid_regular_expression = "invalid regular expression"
message Errc.invalid_row_count_in_limit_clause = "invalid row count in limit clause"
message Errc.invalid_row_count_in_result_offset_clause = "invalid row count in result offset clause"
message Errc.invalid_tablesample_argument = "invalid tablesample argument"
message Errc.invalid_tablesample_repeat = "invalid tablesample repeat"
message Errc.invalid_time_zone_displacement_value = "invalid time zone displacement value"
message Errc.invalid_use_of_escape_character = "invalid use of escape character"
message Errc.most_specific_type_mismatch = "most specific type mismatch"
message Errc.null_value_not_allowed = "null value not allowed"
message Errc.null_value_no_indicator_parameter = "null value no indicator parameter"
message Errc.numeric_value_out_of_range = "numeric value out of range"
message Errc.sequence_generator_limit_exceeded = "sequence generator limit exceeded"
message Errc.string_data_length_mismatch = "string data length mismatch"
message Errc.string_data_right_truncation_22001 = "string data right truncation 22001"
message Errc.substring_error = "substring error"
message Errc.trim_error = "trim error"
message Errc.unterminated_c_string = "unterminated c string"
message Errc.zero_length_character_string = "zero length character string"
message Errc.floating_point_exception = "floating point exception"
message Errc.invalid_text_representation = "invalid text representation"
message Errc.invalid_binary_representation = "invalid binary representation"
message Errc.bad_copy_file_format = "bad copy file format"
message Errc.untranslatable_character = "untranslatable character"
message Errc.not_an_xml_document = "not an xml document"
message Errc.invalid_xml_document = "invalid xml document"
message Errc.invalid_xml_content = "invalid xml content"
message Errc.invalid_xml_comment = "invalid xml comment"
message Errc.invalid_xml_processing_instruction = "invalid xml processing instruction"
message Errc.duplicate_json_object_key_value = "duplicate json object key value"
message Errc.invalid_argument_for_sql_json_datetime_function =
    "invalid argument for sql json datetime function"
message Errc.invalid_json_text = "invalid json text"
message Errc.invalid_sql_json_subscript = "invalid sql json subscript"
message Errc.more_than_one_sql_json_item = "more than one sql json item"
message Errc.no_sql_json_item = "no sql json item"
message Errc.non_numeric_sql_json_item = "non numeric sql json item"
message Errc.non_unique_keys_in_a_json_object = "non unique keys in a json object"
message Errc.singleton_sql_json_item_required = "singleton sql json item required"
message Errc.sql_json_array_not_found = "sql json array not found"
message Errc.sql_json_member_not_found = "sql json member not found"
message Errc.sql_json_number_not_found = "sql json number not found"
message Errc.sql_json_object_not_found = "sql json object not found"
message Errc.too_many_json_array_elements = "too many json array elements"
message Errc.too_many_json_object_members = "too many json object members"
message Errc.sql_json_scalar_required = "sql json scalar required"
message Errc.sql_json_item_cannot_be_cast_to_target_type =
    "sql json item cannot be cast to target type"
message Errc.integrity_constraint_violation = "integrity constraint violation"
message Errc.restrict_violation = "restrict violation"
message Errc.not_null_violation = "not null violation"
message Errc.foreign_key_violation = "foreign key violation"
message Errc.unique_violation = "unique violation"
message Errc.check_violation = "check violation"
message Errc.exclusion_violation = "exclusion violation"
message Errc.invalid_cursor_state = "invalid cursor state"
message Errc.invalid_transaction_state = "invalid transaction state"
message Errc.active_sql_transaction = "active sql transaction"
message Errc.branch_transaction_already_active = "branch transaction already active"
message Errc.held_cursor_requires_same_isolation_level = "held cursor requires same isolation level"
message Errc.inappropriate_access_mode_for_branch_transaction =
    "inappropriate access mode for branch transaction"
message Errc.inappropriate_isolation_level_for_branch_transaction =
    "inappropriate isolation level for branch transaction"
message Errc.no_active_sql_transaction_for_branch_transaction =
    "no active sql transaction for branch transaction"
message Errc.read_only_sql_transaction = "read only sql transaction"
message Errc.schema_and_data_statement_mixing_not_supported =
    "schema and data statement mixing not supported"
message Errc.no_active_sql_transaction = "no active sql transaction"
message Errc.in_failed_sql_transaction = "in failed sql transaction"
message Errc.idle_in_transaction_session_timeout = "idle in transaction session timeout"
message Errc.invalid_sql_statement_name = "invalid sql statement name"
message Errc.triggered_data_change_violation = "triggered data change violation"
message Errc.invalid_authorization_specification = "invalid authorization specification"
message Errc.invalid_password = "invalid password"
message Errc.dependent_privilege_descriptors_still_exist =
    "dependent privilege descriptors still exist"
message Errc.dependent_objects_still_exist = "dependent objects still exist"
message Errc.invalid_transaction_termination = "invalid transaction termination"
message Errc.sql_routine_exception = "sql routine exception"
message Errc.function_executed_no_return_statement = "function executed no return statement"
message Errc.modifying_sql_data_not_permitted = "modifying sql data not permitted"
message Errc.prohibited_sql_statement_attempted = "prohibited sql statement attempted"
message Errc.reading_sql_data_not_permitted = "reading sql data not permitted"
message Errc.invalid_cursor_name = "invalid cursor name"
message Errc.external_routine_exception = "external routine exception"
message Errc.containing_sql_not_permitted = "containing sql not permitted"
message Errc.modifying_sql_data_not_permitted_38002 = "modifying sql data not permitted 38002"
message Errc.prohibited_sql_statement_attempted_38003 = "prohibited sql statement attempted 38003"
message Errc.reading_sql_data_not_permitted_38004 = "reading sql data not permitted 38004"
message Errc.external_routine_invocation_exception = "external routine invocation exception"
message Errc.invalid_sqlstate_returned = "invalid sqlstate returned"
message Errc.null_value_not_allowed_39004 = "null value not allowed 39004"
message Errc.trigger_protocol_violated = "trigger protocol violated"
message Errc.srf_protocol_violated = "srf protocol violated"
message Errc.event_trigger_protocol_violated = "event trigger protocol violated"
message Errc.savepoint_exception = "savepoint exception"
message Errc.invalid_savepoint_specification = "invalid savepoint specification"
message Errc.invalid_catalog_name = "invalid catalog name"
message Errc.invalid_schema_name = "invalid schema name"
message Errc.transaction_rollback = "transaction rollback"
message Errc.transaction_integrity_constraint_violation =
    "transaction integrity constraint violation"
message Errc.serialization_failure = "serialization failure"
message Errc.statement_completion_unknown = "statement completion unknown"
message Errc.deadlock_detected = "deadlock detected"
message Errc.syntax_error_or_access_rule_violation = "syntax error or access rule violation"
message Errc.syntax_error = "syntax error"
message Errc.insufficient_privilege = "insufficient privilege"
message Errc.cannot_coerce = "cannot coerce"
message Errc.grouping_error = "grouping error"
message Errc.windowing_error = "windowing error"
message Errc.invalid_recursion = "invalid recursion"
message Errc.invalid_foreign_key = "invalid foreign key"
message Errc.invalid_name = "invalid name"
message Errc.name_too_long = "name too long"
message Errc.reserved_name = "reserved name"
message Errc.datatype_mismatch = "datatype mismatch"
message Errc.indeterminate_datatype = "indeterminate datatype"
message Errc.collation_mismatch = "collation mismatch"
message Errc.indeterminate_collation = "indeterminate collation"
message Errc.wrong_object_type = "wrong object type"
message Errc.generated_always = "generated always"
message Errc.undefined_column = "undefined column"
message Errc.undefined_function = "undefined function"
message Errc.undefined_table = "undefined table"
message Errc.undefined_parameter = "undefined parameter"
message Errc.undefined_object = "undefined object"
message Errc.duplicate_column = "duplicate column"
message Errc.duplicate_cursor = "duplicate cursor"
message Errc.duplicate_database = "duplicate database"
message Errc.duplicate_function = "duplicate function"
message Errc.duplicate_prepared_statement = "duplicate prepared statement"
message Errc.duplicate_schema = "duplicate schema"
message Errc.duplicate_table = "duplicate table"
message Errc.duplicate_alias = "duplicate alias"
message Errc.duplicate_object = "duplicate object"
message Errc.ambiguous_column = "ambiguous column"
message Errc.ambiguous_function = "ambiguous function"
message Errc.ambiguous_parameter = "ambiguous parameter"
message Errc.ambiguous_alias = "ambiguous alias"
message Errc.invalid_column_reference = "invalid column reference"
message Errc.invalid_column_definition = "invalid column definition"
message Errc.invalid_cursor_definition = "invalid cursor definition"
message Errc.invalid_database_definition = "invalid database definition"
message Errc.invalid_function_definition = "invalid function definition"
message Errc.invalid_prepared_statement_definition = "invalid prepared statement definition"
message Errc.invalid_schema_definition = "invalid schema definition"
message Errc.invalid_table_definition = "invalid table definition"
message Errc.invalid_object_definition = "invalid object definition"
message Errc.with_check_option_violation = "with check option violation"
message Errc.insufficient_resources = "insufficient resources"
message Errc.disk_full = "disk full"
message Errc.out_of_memory = "out of memory"
message Errc.too_many_connections = "too many connections"
message Errc.configuration_limit_exceeded = "configuration limit exceeded"
message Errc.program_limit_exceeded = "program limit exceeded"
message Errc.statement_too_complex = "statement too complex"
message Errc.too_many_columns = "too many columns"
message Errc.too_many_arguments = "too many arguments"
message Errc.object_not_in_prerequisite_state = "object not in prerequisite state"
message Errc.object_in_use = "object in use"
message Errc.cant_change_runtime_param = "cant change runtime param"
message Errc.lock_not_available = "lock not available"
message Errc.unsafe_new_enum_value_usage = "unsafe new enum value usage"
message Errc.operator_intervention = "operator intervention"
message Errc.query_canceled = "query canceled"
message Errc.admin_shutdown = "admin shutdown"
message Errc.crash_shutdown = "crash shutdown"
message Errc.cannot_connect_now = "cannot connect now"
message Errc.database_dropped = "database dropped"
message Errc.idle_session_timeout = "idle session timeout"
message Errc.system_error = "system error"
message Errc.io_error = "io error"
message Errc.undefined_file = "undefined file"
message Errc.duplicate_file = "duplicate file"
message Errc.snapshot_too_old = "snapshot too old"
message Errc.config_file_error = "config file error"
message Errc.lock_file_exists = "lock file exists"
message Errc.fdw_error = "fdw error"
message Errc.fdw_column_name_not_found = "fdw column name not found"
message Errc.fdw_dynamic_parameter_value_needed = "fdw dynamic parameter value needed"
message Errc.fdw_function_sequence_error = "fdw function sequence error"
message Errc.fdw_inconsistent_descriptor_information = "fdw inconsistent descriptor information"
message Errc.fdw_invalid_attribute_value = "fdw invalid attribute value"
message Errc.fdw_invalid_column_name = "fdw invalid column name"
message Errc.fdw_invalid_column_number = "fdw invalid column number"
message Errc.fdw_invalid_data_type = "fdw invalid data type"
message Errc.fdw_invalid_data_type_descriptors = "fdw invalid data type descriptors"
message Errc.fdw_invalid_descriptor_field_identifier = "fdw invalid descriptor field identifier"
message Errc.fdw_invalid_handle = "fdw invalid handle"
message Errc.fdw_invalid_option_index = "fdw invalid option index"
message Errc.fdw_invalid_option_name = "fdw invalid option name"
message Errc.fdw_invalid_string_length_or_buffer_length =
    "fdw invalid string length or buffer length"
message Errc.fdw_invalid_string_format = "fdw invalid string format"
message Errc.fdw_invalid_use_of_null_pointer = "fdw invalid use of null pointer"
message Errc.fdw_too_many_handles = "fdw too many handles"
message Errc.fdw_out_of_memory = "fdw out of memory"
message Errc.fdw_no_schemas = "fdw no schemas"
message Errc.fdw_option_name_not_found = "fdw option name not found"
message Errc.fdw_reply_handle = "fdw reply handle"
message Errc.fdw_schema_not_found = "fdw schema not found"
message Errc.fdw_table_not_found = "fdw table not found"
message Errc.fdw_unable_to_create_execution = "fdw unable to create execution"
message Errc.fdw_unable_to_create_reply = "fdw unable to create reply"
message Errc.fdw_unable_to_establish_connection = "fdw unable to establish connection"
message Errc.plpgsql_error = "plpgsql error"
message Errc.raise_exception = "raise exception"
message Errc.no_data_found = "no data found"
message Errc.too_many_rows = "too many rows"
message Errc.assert_failure = "assert failure"
message Errc.internal_error = "internal error"
message Errc.data_corrupted = "data corrupted"
message Errc.index_corrupted = "index corrupted"
message Errc.malformed_message = "malformed message"
message _ = "Unknown SQLSTATE error code"
