-- ===== src/Postgres/ErrorCode/Values.antt =====
-- include/chx/sql/postgresql/error_code.hpp: `enum class errc` and its values.
use chxsql.Base.{ℕ}

pub data Errc : Type 0 where
  successful_completion warning dynamic_result_sets_returned implicit_zero_bit_padding : Errc
  null_value_eliminated_in_set_function privilege_not_granted privilege_not_revoked : Errc
  string_data_right_truncation deprecated_feature no_data : Errc
  no_additional_dynamic_result_sets_returned sql_statement_not_yet_complete : Errc
  connection_exception connection_does_not_exist connection_failure : Errc
  sqlclient_unable_to_establish_sqlconnection : Errc
  sqlserver_rejected_establishment_of_sqlconnection transaction_resolution_unknown : Errc
  protocol_violation triggered_action_exception feature_not_supported : Errc
  invalid_transaction_initiation locator_exception invalid_locator_specification : Errc
  invalid_grantor invalid_grant_operation invalid_role_specification : Errc
  diagnostics_exception stacked_diagnostics_accessed_without_active_handler : Errc
  case_not_found cardinality_violation data_exception array_subscript_error : Errc
  character_not_in_repertoire datetime_field_overflow division_by_zero : Errc
  error_in_assignment escape_character_conflict indicator_overflow : Errc
  interval_field_overflow invalid_argument_for_logarithm : Errc
  invalid_argument_for_ntile_function invalid_argument_for_nth_value_function : Errc
  invalid_argument_for_power_function invalid_argument_for_width_bucket_function : Errc
  invalid_character_value_for_cast invalid_datetime_format invalid_escape_character : Errc
  invalid_escape_octet invalid_escape_sequence nonstandard_use_of_escape_character : Errc
  invalid_indicator_parameter_value invalid_parameter_value : Errc
  invalid_preceding_or_following_size invalid_regular_expression : Errc
  invalid_row_count_in_limit_clause invalid_row_count_in_result_offset_clause : Errc
  invalid_tablesample_argument invalid_tablesample_repeat : Errc
  invalid_time_zone_displacement_value invalid_use_of_escape_character : Errc
  most_specific_type_mismatch null_value_not_allowed null_value_no_indicator_parameter : Errc
  numeric_value_out_of_range sequence_generator_limit_exceeded : Errc
  string_data_length_mismatch string_data_right_truncation_22001 substring_error : Errc
  trim_error unterminated_c_string zero_length_character_string floating_point_exception : Errc
  invalid_text_representation invalid_binary_representation bad_copy_file_format : Errc
  untranslatable_character not_an_xml_document invalid_xml_document invalid_xml_content : Errc
  invalid_xml_comment invalid_xml_processing_instruction duplicate_json_object_key_value : Errc
  invalid_argument_for_sql_json_datetime_function invalid_json_text : Errc
  invalid_sql_json_subscript more_than_one_sql_json_item no_sql_json_item : Errc
  non_numeric_sql_json_item non_unique_keys_in_a_json_object : Errc
  singleton_sql_json_item_required sql_json_array_not_found sql_json_member_not_found : Errc
  sql_json_number_not_found sql_json_object_not_found too_many_json_array_elements : Errc
  too_many_json_object_members sql_json_scalar_required : Errc
  sql_json_item_cannot_be_cast_to_target_type integrity_constraint_violation : Errc
  restrict_violation not_null_violation foreign_key_violation unique_violation : Errc
  check_violation exclusion_violation invalid_cursor_state invalid_transaction_state : Errc
  active_sql_transaction branch_transaction_already_active : Errc
  held_cursor_requires_same_isolation_level : Errc
  inappropriate_access_mode_for_branch_transaction : Errc
  inappropriate_isolation_level_for_branch_transaction : Errc
  no_active_sql_transaction_for_branch_transaction read_only_sql_transaction : Errc
  schema_and_data_statement_mixing_not_supported no_active_sql_transaction : Errc
  in_failed_sql_transaction idle_in_transaction_session_timeout : Errc
  invalid_sql_statement_name triggered_data_change_violation : Errc
  invalid_authorization_specification invalid_password : Errc
  dependent_privilege_descriptors_still_exist dependent_objects_still_exist : Errc
  invalid_transaction_termination sql_routine_exception : Errc
  function_executed_no_return_statement modifying_sql_data_not_permitted : Errc
  prohibited_sql_statement_attempted reading_sql_data_not_permitted invalid_cursor_name : Errc
  external_routine_exception containing_sql_not_permitted : Errc
  modifying_sql_data_not_permitted_38002 prohibited_sql_statement_attempted_38003 : Errc
  reading_sql_data_not_permitted_38004 external_routine_invocation_exception : Errc
  invalid_sqlstate_returned null_value_not_allowed_39004 trigger_protocol_violated : Errc
  srf_protocol_violated event_trigger_protocol_violated savepoint_exception : Errc
  invalid_savepoint_specification invalid_catalog_name invalid_schema_name : Errc
  transaction_rollback transaction_integrity_constraint_violation serialization_failure : Errc
  statement_completion_unknown deadlock_detected syntax_error_or_access_rule_violation : Errc
  syntax_error insufficient_privilege cannot_coerce grouping_error windowing_error : Errc
  invalid_recursion invalid_foreign_key invalid_name name_too_long reserved_name : Errc
  datatype_mismatch indeterminate_datatype collation_mismatch indeterminate_collation : Errc
  wrong_object_type generated_always undefined_column undefined_function undefined_table : Errc
  undefined_parameter undefined_object duplicate_column duplicate_cursor : Errc
  duplicate_database duplicate_function duplicate_prepared_statement duplicate_schema : Errc
  duplicate_table duplicate_alias duplicate_object ambiguous_column ambiguous_function : Errc
  ambiguous_parameter ambiguous_alias invalid_column_reference invalid_column_definition : Errc
  invalid_cursor_definition invalid_database_definition invalid_function_definition : Errc
  invalid_prepared_statement_definition invalid_schema_definition : Errc
  invalid_table_definition invalid_object_definition with_check_option_violation : Errc
  insufficient_resources disk_full out_of_memory too_many_connections : Errc
  configuration_limit_exceeded program_limit_exceeded statement_too_complex : Errc
  too_many_columns too_many_arguments object_not_in_prerequisite_state object_in_use : Errc
  cant_change_runtime_param lock_not_available unsafe_new_enum_value_usage : Errc
  operator_intervention query_canceled admin_shutdown crash_shutdown cannot_connect_now : Errc
  database_dropped idle_session_timeout system_error io_error undefined_file : Errc
  duplicate_file snapshot_too_old config_file_error lock_file_exists fdw_error : Errc
  fdw_column_name_not_found fdw_dynamic_parameter_value_needed : Errc
  fdw_function_sequence_error fdw_inconsistent_descriptor_information : Errc
  fdw_invalid_attribute_value fdw_invalid_column_name fdw_invalid_column_number : Errc
  fdw_invalid_data_type fdw_invalid_data_type_descriptors : Errc
  fdw_invalid_descriptor_field_identifier fdw_invalid_handle fdw_invalid_option_index : Errc
  fdw_invalid_option_name fdw_invalid_string_length_or_buffer_length : Errc
  fdw_invalid_string_format fdw_invalid_use_of_null_pointer fdw_too_many_handles : Errc
  fdw_out_of_memory fdw_no_schemas fdw_option_name_not_found fdw_reply_handle : Errc
  fdw_schema_not_found fdw_table_not_found fdw_unable_to_create_execution : Errc
  fdw_unable_to_create_reply fdw_unable_to_establish_connection plpgsql_error : Errc
  raise_exception no_data_found too_many_rows assert_failure internal_error : Errc
  data_corrupted index_corrupted malformed_message unknown_sqlstate : Errc

-- `static_cast<int>(code)`.
unfoldable pub errc_value : Errc → ℕ
errc_value successful_completion = 0
errc_value warning = 1
errc_value dynamic_result_sets_returned = 2
errc_value implicit_zero_bit_padding = 3
errc_value null_value_eliminated_in_set_function = 4
errc_value privilege_not_granted = 5
errc_value privilege_not_revoked = 6
errc_value string_data_right_truncation = 7
errc_value deprecated_feature = 8
errc_value no_data = 9
errc_value no_additional_dynamic_result_sets_returned = 10
errc_value sql_statement_not_yet_complete = 11
errc_value connection_exception = 12
errc_value connection_does_not_exist = 13
errc_value connection_failure = 14
errc_value sqlclient_unable_to_establish_sqlconnection = 15
errc_value sqlserver_rejected_establishment_of_sqlconnection = 16
errc_value transaction_resolution_unknown = 17
errc_value protocol_violation = 18
errc_value triggered_action_exception = 19
errc_value feature_not_supported = 20
errc_value invalid_transaction_initiation = 21
errc_value locator_exception = 22
errc_value invalid_locator_specification = 23
errc_value invalid_grantor = 24
errc_value invalid_grant_operation = 25
errc_value invalid_role_specification = 26
errc_value diagnostics_exception = 27
errc_value stacked_diagnostics_accessed_without_active_handler = 28
errc_value case_not_found = 29
errc_value cardinality_violation = 30
errc_value data_exception = 31
errc_value array_subscript_error = 32
errc_value character_not_in_repertoire = 33
errc_value datetime_field_overflow = 34
errc_value division_by_zero = 35
errc_value error_in_assignment = 36
errc_value escape_character_conflict = 37
errc_value indicator_overflow = 38
errc_value interval_field_overflow = 39
errc_value invalid_argument_for_logarithm = 40
errc_value invalid_argument_for_ntile_function = 41
errc_value invalid_argument_for_nth_value_function = 42
errc_value invalid_argument_for_power_function = 43
errc_value invalid_argument_for_width_bucket_function = 44
errc_value invalid_character_value_for_cast = 45
errc_value invalid_datetime_format = 46
errc_value invalid_escape_character = 47
errc_value invalid_escape_octet = 48
errc_value invalid_escape_sequence = 49
errc_value nonstandard_use_of_escape_character = 50
errc_value invalid_indicator_parameter_value = 51
errc_value invalid_parameter_value = 52
errc_value invalid_preceding_or_following_size = 53
errc_value invalid_regular_expression = 54
errc_value invalid_row_count_in_limit_clause = 55
errc_value invalid_row_count_in_result_offset_clause = 56
errc_value invalid_tablesample_argument = 57
errc_value invalid_tablesample_repeat = 58
errc_value invalid_time_zone_displacement_value = 59
errc_value invalid_use_of_escape_character = 60
errc_value most_specific_type_mismatch = 61
errc_value null_value_not_allowed = 62
errc_value null_value_no_indicator_parameter = 63
errc_value numeric_value_out_of_range = 64
errc_value sequence_generator_limit_exceeded = 65
errc_value string_data_length_mismatch = 66
errc_value string_data_right_truncation_22001 = 67
errc_value substring_error = 68
errc_value trim_error = 69
errc_value unterminated_c_string = 70
errc_value zero_length_character_string = 71
errc_value floating_point_exception = 72
errc_value invalid_text_representation = 73
errc_value invalid_binary_representation = 74
errc_value bad_copy_file_format = 75
errc_value untranslatable_character = 76
errc_value not_an_xml_document = 77
errc_value invalid_xml_document = 78
errc_value invalid_xml_content = 79
errc_value invalid_xml_comment = 80
errc_value invalid_xml_processing_instruction = 81
errc_value duplicate_json_object_key_value = 82
errc_value invalid_argument_for_sql_json_datetime_function = 83
errc_value invalid_json_text = 84
errc_value invalid_sql_json_subscript = 85
errc_value more_than_one_sql_json_item = 86
errc_value no_sql_json_item = 87
errc_value non_numeric_sql_json_item = 88
errc_value non_unique_keys_in_a_json_object = 89
errc_value singleton_sql_json_item_required = 90
errc_value sql_json_array_not_found = 91
errc_value sql_json_member_not_found = 92
errc_value sql_json_number_not_found = 93
errc_value sql_json_object_not_found = 94
errc_value too_many_json_array_elements = 95
errc_value too_many_json_object_members = 96
errc_value sql_json_scalar_required = 97
errc_value sql_json_item_cannot_be_cast_to_target_type = 98
errc_value integrity_constraint_violation = 99
errc_value restrict_violation = 100
errc_value not_null_violation = 101
errc_value foreign_key_violation = 102
errc_value unique_violation = 103
errc_value check_violation = 104
errc_value exclusion_violation = 105
errc_value invalid_cursor_state = 106
errc_value invalid_transaction_state = 107
errc_value active_sql_transaction = 108
errc_value branch_transaction_already_active = 109
errc_value held_cursor_requires_same_isolation_level = 110
errc_value inappropriate_access_mode_for_branch_transaction = 111
errc_value inappropriate_isolation_level_for_branch_transaction = 112
errc_value no_active_sql_transaction_for_branch_transaction = 113
errc_value read_only_sql_transaction = 114
errc_value schema_and_data_statement_mixing_not_supported = 115
errc_value no_active_sql_transaction = 116
errc_value in_failed_sql_transaction = 117
errc_value idle_in_transaction_session_timeout = 118
errc_value invalid_sql_statement_name = 119
errc_value triggered_data_change_violation = 120
errc_value invalid_authorization_specification = 121
errc_value invalid_password = 122
errc_value dependent_privilege_descriptors_still_exist = 123
errc_value dependent_objects_still_exist = 124
errc_value invalid_transaction_termination = 125
errc_value sql_routine_exception = 126
errc_value function_executed_no_return_statement = 127
errc_value modifying_sql_data_not_permitted = 128
errc_value prohibited_sql_statement_attempted = 129
errc_value reading_sql_data_not_permitted = 130
errc_value invalid_cursor_name = 131
errc_value external_routine_exception = 132
errc_value containing_sql_not_permitted = 133
errc_value modifying_sql_data_not_permitted_38002 = 134
errc_value prohibited_sql_statement_attempted_38003 = 135
errc_value reading_sql_data_not_permitted_38004 = 136
errc_value external_routine_invocation_exception = 137
errc_value invalid_sqlstate_returned = 138
errc_value null_value_not_allowed_39004 = 139
errc_value trigger_protocol_violated = 140
errc_value srf_protocol_violated = 141
errc_value event_trigger_protocol_violated = 142
errc_value savepoint_exception = 143
errc_value invalid_savepoint_specification = 144
errc_value invalid_catalog_name = 145
errc_value invalid_schema_name = 146
errc_value transaction_rollback = 147
errc_value transaction_integrity_constraint_violation = 148
errc_value serialization_failure = 149
errc_value statement_completion_unknown = 150
errc_value deadlock_detected = 151
errc_value syntax_error_or_access_rule_violation = 152
errc_value syntax_error = 153
errc_value insufficient_privilege = 154
errc_value cannot_coerce = 155
errc_value grouping_error = 156
errc_value windowing_error = 157
errc_value invalid_recursion = 158
errc_value invalid_foreign_key = 159
errc_value invalid_name = 160
errc_value name_too_long = 161
errc_value reserved_name = 162
errc_value datatype_mismatch = 163
errc_value indeterminate_datatype = 164
errc_value collation_mismatch = 165
errc_value indeterminate_collation = 166
errc_value wrong_object_type = 167
errc_value generated_always = 168
errc_value undefined_column = 169
errc_value undefined_function = 170
errc_value undefined_table = 171
errc_value undefined_parameter = 172
errc_value undefined_object = 173
errc_value duplicate_column = 174
errc_value duplicate_cursor = 175
errc_value duplicate_database = 176
errc_value duplicate_function = 177
errc_value duplicate_prepared_statement = 178
errc_value duplicate_schema = 179
errc_value duplicate_table = 180
errc_value duplicate_alias = 181
errc_value duplicate_object = 182
errc_value ambiguous_column = 183
errc_value ambiguous_function = 184
errc_value ambiguous_parameter = 185
errc_value ambiguous_alias = 186
errc_value invalid_column_reference = 187
errc_value invalid_column_definition = 188
errc_value invalid_cursor_definition = 189
errc_value invalid_database_definition = 190
errc_value invalid_function_definition = 191
errc_value invalid_prepared_statement_definition = 192
errc_value invalid_schema_definition = 193
errc_value invalid_table_definition = 194
errc_value invalid_object_definition = 195
errc_value with_check_option_violation = 196
errc_value insufficient_resources = 197
errc_value disk_full = 198
errc_value out_of_memory = 199
errc_value too_many_connections = 200
errc_value configuration_limit_exceeded = 201
errc_value program_limit_exceeded = 202
errc_value statement_too_complex = 203
errc_value too_many_columns = 204
errc_value too_many_arguments = 205
errc_value object_not_in_prerequisite_state = 206
errc_value object_in_use = 207
errc_value cant_change_runtime_param = 208
errc_value lock_not_available = 209
errc_value unsafe_new_enum_value_usage = 210
errc_value operator_intervention = 211
errc_value query_canceled = 212
errc_value admin_shutdown = 213
errc_value crash_shutdown = 214
errc_value cannot_connect_now = 215
errc_value database_dropped = 216
errc_value idle_session_timeout = 217
errc_value system_error = 218
errc_value io_error = 219
errc_value undefined_file = 220
errc_value duplicate_file = 221
errc_value snapshot_too_old = 222
errc_value config_file_error = 223
errc_value lock_file_exists = 224
errc_value fdw_error = 225
errc_value fdw_column_name_not_found = 226
errc_value fdw_dynamic_parameter_value_needed = 227
errc_value fdw_function_sequence_error = 228
errc_value fdw_inconsistent_descriptor_information = 229
errc_value fdw_invalid_attribute_value = 230
errc_value fdw_invalid_column_name = 231
errc_value fdw_invalid_column_number = 232
errc_value fdw_invalid_data_type = 233
errc_value fdw_invalid_data_type_descriptors = 234
errc_value fdw_invalid_descriptor_field_identifier = 235
errc_value fdw_invalid_handle = 236
errc_value fdw_invalid_option_index = 237
errc_value fdw_invalid_option_name = 238
errc_value fdw_invalid_string_length_or_buffer_length = 239
errc_value fdw_invalid_string_format = 240
errc_value fdw_invalid_use_of_null_pointer = 241
errc_value fdw_too_many_handles = 242
errc_value fdw_out_of_memory = 243
errc_value fdw_no_schemas = 244
errc_value fdw_option_name_not_found = 245
errc_value fdw_reply_handle = 246
errc_value fdw_schema_not_found = 247
errc_value fdw_table_not_found = 248
errc_value fdw_unable_to_create_execution = 249
errc_value fdw_unable_to_create_reply = 250
errc_value fdw_unable_to_establish_connection = 251
errc_value plpgsql_error = 252
errc_value raise_exception = 253
errc_value no_data_found = 254
errc_value too_many_rows = 255
errc_value assert_failure = 256
errc_value internal_error = 257
errc_value data_corrupted = 258
errc_value index_corrupted = 259
errc_value malformed_message = 260
errc_value unknown_sqlstate = 261
