-- ===== src/Postgres/ErrorCode/Sqlstates.antt =====
-- The table of `sqlstate_to_errc` in include/chx/sql/postgresql/error_code.hpp.
use Prim.Native.String.{String}
use chxsql.Base.{List, [], ◌∷◌}
use chxsql.Postgres.ErrorCode.Values.{Errc}

-- The entries of `sqlstate_map`, in the order of the source.
unfoldable pub sqlstate_map : List (String × Errc)
sqlstate_map =
    ("00000", Errc.successful_completion)
    ∷ ("01000", Errc.warning)
    ∷ ("0100C", Errc.dynamic_result_sets_returned)
    ∷ ("01008", Errc.implicit_zero_bit_padding)
    ∷ ("01003", Errc.null_value_eliminated_in_set_function)
    ∷ ("01007", Errc.privilege_not_granted)
    ∷ ("01006", Errc.privilege_not_revoked)
    ∷ ("01004", Errc.string_data_right_truncation)
    ∷ ("01P01", Errc.deprecated_feature)
    ∷ ("02000", Errc.no_data)
    ∷ ("02001", Errc.no_additional_dynamic_result_sets_returned)
    ∷ ("03000", Errc.sql_statement_not_yet_complete)
    ∷ ("08000", Errc.connection_exception)
    ∷ ("08003", Errc.connection_does_not_exist)
    ∷ ("08006", Errc.connection_failure)
    ∷ ("08001", Errc.sqlclient_unable_to_establish_sqlconnection)
    ∷ ("08004", Errc.sqlserver_rejected_establishment_of_sqlconnection)
    ∷ ("08007", Errc.transaction_resolution_unknown)
    ∷ ("08P01", Errc.protocol_violation)
    ∷ ("09000", Errc.triggered_action_exception)
    ∷ ("0A000", Errc.feature_not_supported)
    ∷ ("0B000", Errc.invalid_transaction_initiation)
    ∷ ("0F000", Errc.locator_exception)
    ∷ ("0F001", Errc.invalid_locator_specification)
    ∷ ("0L000", Errc.invalid_grantor)
    ∷ ("0LP01", Errc.invalid_grant_operation)
    ∷ ("0P000", Errc.invalid_role_specification)
    ∷ ("0Z000", Errc.diagnostics_exception)
    ∷ ("0Z002", Errc.stacked_diagnostics_accessed_without_active_handler)
    ∷ ("20000", Errc.case_not_found)
    ∷ ("21000", Errc.cardinality_violation)
    ∷ ("22000", Errc.data_exception)
    ∷ ("2202E", Errc.array_subscript_error)
    ∷ ("22021", Errc.character_not_in_repertoire)
    ∷ ("22008", Errc.datetime_field_overflow)
    ∷ ("22012", Errc.division_by_zero)
    ∷ ("22005", Errc.error_in_assignment)
    ∷ ("2200B", Errc.escape_character_conflict)
    ∷ ("22022", Errc.indicator_overflow)
    ∷ ("22015", Errc.interval_field_overflow)
    ∷ ("2201E", Errc.invalid_argument_for_logarithm)
    ∷ ("22014", Errc.invalid_argument_for_ntile_function)
    ∷ ("22016", Errc.invalid_argument_for_nth_value_function)
    ∷ ("2201F", Errc.invalid_argument_for_power_function)
    ∷ ("2201G", Errc.invalid_argument_for_width_bucket_function)
    ∷ ("22018", Errc.invalid_character_value_for_cast)
    ∷ ("22007", Errc.invalid_datetime_format)
    ∷ ("22019", Errc.invalid_escape_character)
    ∷ ("2200D", Errc.invalid_escape_octet)
    ∷ ("22025", Errc.invalid_escape_sequence)
    ∷ ("22P06", Errc.nonstandard_use_of_escape_character)
    ∷ ("22010", Errc.invalid_indicator_parameter_value)
    ∷ ("22023", Errc.invalid_parameter_value)
    ∷ ("22013", Errc.invalid_preceding_or_following_size)
    ∷ ("2201B", Errc.invalid_regular_expression)
    ∷ ("2201W", Errc.invalid_row_count_in_limit_clause)
    ∷ ("2201X", Errc.invalid_row_count_in_result_offset_clause)
    ∷ ("2202H", Errc.invalid_tablesample_argument)
    ∷ ("2202G", Errc.invalid_tablesample_repeat)
    ∷ ("22009", Errc.invalid_time_zone_displacement_value)
    ∷ ("2200C", Errc.invalid_use_of_escape_character)
    ∷ ("2200G", Errc.most_specific_type_mismatch)
    ∷ ("22004", Errc.null_value_not_allowed)
    ∷ ("22002", Errc.null_value_no_indicator_parameter)
    ∷ ("22003", Errc.numeric_value_out_of_range)
    ∷ ("2200H", Errc.sequence_generator_limit_exceeded)
    ∷ ("22026", Errc.string_data_length_mismatch)
    ∷ ("22001", Errc.string_data_right_truncation_22001)
    ∷ ("22011", Errc.substring_error)
    ∷ ("22027", Errc.trim_error)
    ∷ ("22024", Errc.unterminated_c_string)
    ∷ ("2200F", Errc.zero_length_character_string)
    ∷ ("22P01", Errc.floating_point_exception)
    ∷ ("22P02", Errc.invalid_text_representation)
    ∷ ("22P03", Errc.invalid_binary_representation)
    ∷ ("22P04", Errc.bad_copy_file_format)
    ∷ ("22P05", Errc.untranslatable_character)
    ∷ ("2200L", Errc.not_an_xml_document)
    ∷ ("2200M", Errc.invalid_xml_document)
    ∷ ("2200N", Errc.invalid_xml_content)
    ∷ ("2200S", Errc.invalid_xml_comment)
    ∷ ("2200T", Errc.invalid_xml_processing_instruction)
    ∷ ("22030", Errc.duplicate_json_object_key_value)
    ∷ ("22031", Errc.invalid_argument_for_sql_json_datetime_function)
    ∷ ("22032", Errc.invalid_json_text)
    ∷ ("22033", Errc.invalid_sql_json_subscript)
    ∷ ("22034", Errc.more_than_one_sql_json_item)
    ∷ ("22035", Errc.no_sql_json_item)
    ∷ ("22036", Errc.non_numeric_sql_json_item)
    ∷ ("22037", Errc.non_unique_keys_in_a_json_object)
    ∷ ("22038", Errc.singleton_sql_json_item_required)
    ∷ ("22039", Errc.sql_json_array_not_found)
    ∷ ("2203A", Errc.sql_json_member_not_found)
    ∷ ("2203B", Errc.sql_json_number_not_found)
    ∷ ("2203C", Errc.sql_json_object_not_found)
    ∷ ("2203D", Errc.too_many_json_array_elements)
    ∷ ("2203E", Errc.too_many_json_object_members)
    ∷ ("2203F", Errc.sql_json_scalar_required)
    ∷ ("2203G", Errc.sql_json_item_cannot_be_cast_to_target_type)
    ∷ ("23000", Errc.integrity_constraint_violation)
    ∷ ("23001", Errc.restrict_violation)
    ∷ ("23502", Errc.not_null_violation)
    ∷ ("23503", Errc.foreign_key_violation)
    ∷ ("23505", Errc.unique_violation)
    ∷ ("23514", Errc.check_violation)
    ∷ ("23P01", Errc.exclusion_violation)
    ∷ ("24000", Errc.invalid_cursor_state)
    ∷ ("25000", Errc.invalid_transaction_state)
    ∷ ("25001", Errc.active_sql_transaction)
    ∷ ("25002", Errc.branch_transaction_already_active)
    ∷ ("25008", Errc.held_cursor_requires_same_isolation_level)
    ∷ ("25003", Errc.inappropriate_access_mode_for_branch_transaction)
    ∷ ("25004", Errc.inappropriate_isolation_level_for_branch_transaction)
    ∷ ("25005", Errc.no_active_sql_transaction_for_branch_transaction)
    ∷ ("25006", Errc.read_only_sql_transaction)
    ∷ ("25007", Errc.schema_and_data_statement_mixing_not_supported)
    ∷ ("25P01", Errc.no_active_sql_transaction)
    ∷ ("25P02", Errc.in_failed_sql_transaction)
    ∷ ("25P03", Errc.idle_in_transaction_session_timeout)
    ∷ ("26000", Errc.invalid_sql_statement_name)
    ∷ ("27000", Errc.triggered_data_change_violation)
    ∷ ("28000", Errc.invalid_authorization_specification)
    ∷ ("28P01", Errc.invalid_password)
    ∷ ("2B000", Errc.dependent_privilege_descriptors_still_exist)
    ∷ ("2BP01", Errc.dependent_objects_still_exist)
    ∷ ("2D000", Errc.invalid_transaction_termination)
    ∷ ("2F000", Errc.sql_routine_exception)
    ∷ ("2F005", Errc.function_executed_no_return_statement)
    ∷ ("2F002", Errc.modifying_sql_data_not_permitted)
    ∷ ("2F003", Errc.prohibited_sql_statement_attempted)
    ∷ ("2F004", Errc.reading_sql_data_not_permitted)
    ∷ ("34000", Errc.invalid_cursor_name)
    ∷ ("38000", Errc.external_routine_exception)
    ∷ ("38001", Errc.containing_sql_not_permitted)
    ∷ ("38002", Errc.modifying_sql_data_not_permitted_38002)
    ∷ ("38003", Errc.prohibited_sql_statement_attempted_38003)
    ∷ ("38004", Errc.reading_sql_data_not_permitted_38004)
    ∷ ("39000", Errc.external_routine_invocation_exception)
    ∷ ("39001", Errc.invalid_sqlstate_returned)
    ∷ ("39004", Errc.null_value_not_allowed_39004)
    ∷ ("39P01", Errc.trigger_protocol_violated)
    ∷ ("39P02", Errc.srf_protocol_violated)
    ∷ ("39P03", Errc.event_trigger_protocol_violated)
    ∷ ("3B000", Errc.savepoint_exception)
    ∷ ("3B001", Errc.invalid_savepoint_specification)
    ∷ ("3D000", Errc.invalid_catalog_name)
    ∷ ("3F000", Errc.invalid_schema_name)
    ∷ ("40000", Errc.transaction_rollback)
    ∷ ("40002", Errc.transaction_integrity_constraint_violation)
    ∷ ("40001", Errc.serialization_failure)
    ∷ ("40003", Errc.statement_completion_unknown)
    ∷ ("40P01", Errc.deadlock_detected)
    ∷ ("42000", Errc.syntax_error_or_access_rule_violation)
    ∷ ("42601", Errc.syntax_error)
    ∷ ("42501", Errc.insufficient_privilege)
    ∷ ("42846", Errc.cannot_coerce)
    ∷ ("42803", Errc.grouping_error)
    ∷ ("42P20", Errc.windowing_error)
    ∷ ("42P19", Errc.invalid_recursion)
    ∷ ("42830", Errc.invalid_foreign_key)
    ∷ ("42602", Errc.invalid_name)
    ∷ ("42622", Errc.name_too_long)
    ∷ ("42939", Errc.reserved_name)
    ∷ ("42804", Errc.datatype_mismatch)
    ∷ ("42P18", Errc.indeterminate_datatype)
    ∷ ("42P21", Errc.collation_mismatch)
    ∷ ("42P22", Errc.indeterminate_collation)
    ∷ ("42809", Errc.wrong_object_type)
    ∷ ("428C9", Errc.generated_always)
    ∷ ("42703", Errc.undefined_column)
    ∷ ("42883", Errc.undefined_function)
    ∷ ("42P01", Errc.undefined_table)
    ∷ ("42P02", Errc.undefined_parameter)
    ∷ ("42704", Errc.undefined_object)
    ∷ ("42701", Errc.duplicate_column)
    ∷ ("42P03", Errc.duplicate_cursor)
    ∷ ("42P04", Errc.duplicate_database)
    ∷ ("42723", Errc.duplicate_function)
    ∷ ("42P05", Errc.duplicate_prepared_statement)
    ∷ ("42P06", Errc.duplicate_schema)
    ∷ ("42P07", Errc.duplicate_table)
    ∷ ("42712", Errc.duplicate_alias)
    ∷ ("42710", Errc.duplicate_object)
    ∷ ("42702", Errc.ambiguous_column)
    ∷ ("42725", Errc.ambiguous_function)
    ∷ ("42P08", Errc.ambiguous_parameter)
    ∷ ("42P09", Errc.ambiguous_alias)
    ∷ ("42P10", Errc.invalid_column_reference)
    ∷ ("42611", Errc.invalid_column_definition)
    ∷ ("42P11", Errc.invalid_cursor_definition)
    ∷ ("42P12", Errc.invalid_database_definition)
    ∷ ("42P13", Errc.invalid_function_definition)
    ∷ ("42P14", Errc.invalid_prepared_statement_definition)
    ∷ ("42P15", Errc.invalid_schema_definition)
    ∷ ("42P16", Errc.invalid_table_definition)
    ∷ ("42P17", Errc.invalid_object_definition)
    ∷ ("44000", Errc.with_check_option_violation)
    ∷ ("53000", Errc.insufficient_resources)
    ∷ ("53100", Errc.disk_full)
    ∷ ("53200", Errc.out_of_memory)
    ∷ ("53300", Errc.too_many_connections)
    ∷ ("53400", Errc.configuration_limit_exceeded)
    ∷ ("54000", Errc.program_limit_exceeded)
    ∷ ("54001", Errc.statement_too_complex)
    ∷ ("54011", Errc.too_many_columns)
    ∷ ("54023", Errc.too_many_arguments)
    ∷ ("55000", Errc.object_not_in_prerequisite_state)
    ∷ ("55006", Errc.object_in_use)
    ∷ ("55P02", Errc.cant_change_runtime_param)
    ∷ ("55P03", Errc.lock_not_available)
    ∷ ("55P04", Errc.unsafe_new_enum_value_usage)
    ∷ ("57000", Errc.operator_intervention)
    ∷ ("57014", Errc.query_canceled)
    ∷ ("57P01", Errc.admin_shutdown)
    ∷ ("57P02", Errc.crash_shutdown)
    ∷ ("57P03", Errc.cannot_connect_now)
    ∷ ("57P04", Errc.database_dropped)
    ∷ ("57P05", Errc.idle_session_timeout)
    ∷ ("58000", Errc.system_error)
    ∷ ("58030", Errc.io_error)
    ∷ ("58P01", Errc.undefined_file)
    ∷ ("58P02", Errc.duplicate_file)
    ∷ ("72000", Errc.snapshot_too_old)
    ∷ ("F0000", Errc.config_file_error)
    ∷ ("F0001", Errc.lock_file_exists)
    ∷ ("HV000", Errc.fdw_error)
    ∷ ("HV005", Errc.fdw_column_name_not_found)
    ∷ ("HV002", Errc.fdw_dynamic_parameter_value_needed)
    ∷ ("HV010", Errc.fdw_function_sequence_error)
    ∷ ("HV021", Errc.fdw_inconsistent_descriptor_information)
    ∷ ("HV024", Errc.fdw_invalid_attribute_value)
    ∷ ("HV007", Errc.fdw_invalid_column_name)
    ∷ ("HV008", Errc.fdw_invalid_column_number)
    ∷ ("HV004", Errc.fdw_invalid_data_type)
    ∷ ("HV006", Errc.fdw_invalid_data_type_descriptors)
    ∷ ("HV091", Errc.fdw_invalid_descriptor_field_identifier)
    ∷ ("HV00B", Errc.fdw_invalid_handle)
    ∷ ("HV00C", Errc.fdw_invalid_option_index)
    ∷ ("HV00D", Errc.fdw_invalid_option_name)
    ∷ ("HV090", Errc.fdw_invalid_string_length_or_buffer_length)
    ∷ ("HV00A", Errc.fdw_invalid_string_format)
    ∷ ("HV009", Errc.fdw_invalid_use_of_null_pointer)
    ∷ ("HV014", Errc.fdw_too_many_handles)
    ∷ ("HV001", Errc.fdw_out_of_memory)
    ∷ ("HV00P", Errc.fdw_no_schemas)
    ∷ ("HV00J", Errc.fdw_option_name_not_found)
    ∷ ("HV00K", Errc.fdw_reply_handle)
    ∷ ("HV00Q", Errc.fdw_schema_not_found)
    ∷ ("HV00R", Errc.fdw_table_not_found)
    ∷ ("HV00L", Errc.fdw_unable_to_create_execution)
    ∷ ("HV00M", Errc.fdw_unable_to_create_reply)
    ∷ ("HV00N", Errc.fdw_unable_to_establish_connection)
    ∷ ("P0000", Errc.plpgsql_error)
    ∷ ("P0001", Errc.raise_exception)
    ∷ ("P0002", Errc.no_data_found)
    ∷ ("P0003", Errc.too_many_rows)
    ∷ ("P0004", Errc.assert_failure)
    ∷ ("XX000", Errc.internal_error)
    ∷ ("XX001", Errc.data_corrupted)
    ∷ ("XX002", Errc.index_corrupted)
    ∷ []
