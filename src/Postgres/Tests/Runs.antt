-- ===== src/Postgres/Tests/Runs.antt =====
-- The operations on whole replies.
use chxsql.Base.{◌∷◌, ◌++◌, ◌≡◌, refl, [], some}
use chxsql.Postgres.ErrorCode.{no_error}
use chxsql.Postgres.Execute.{new_execution, execute_parse, new_oneshot, oneshot_parse}
use chxsql.Postgres.Operation.{complete}
use chxsql.Postgres.ParseQuery.{new_preparation, prepare_parse}
use chxsql.Postgres.SimpleQuery.{new_query, query_parse}
use chxsql.Postgres.Tests.{bind_bytes, parse_bytes, ready_bytes, select_bytes, rows_of_a}

-- A whole SELECT by each of the three operations.
execute_select :
    execute_parse new_execution (bind_bytes ++ select_bytes)
    ≡ complete (no_error, some rows_of_a ∷ []) []
unfolding execute_parse chxsql.Postgres.Execute.execute_round chxsql.Postgres.Execute.execute_type
    chxsql.Postgres.Execute.parsers_case chxsql.Postgres.Msg.Fixed.empty_body
    chxsql.Postgres.Operation.do_rounds chxsql.Postgres.Frame.basic_parser
    chxsql.Postgres.Frame.staged chxsql.Postgres.Frame.type_case chxsql.Postgres.Frame.length_case
    chxsql.Postgres.Basic.integer chxsql.Postgres.Frame.length_known
    chxsql.Postgres.Basic.integer_value chxsql.Postgres.Frame.body_case
    chxsql.Postgres.Frame.body_reply chxsql.Postgres.Turn.body
    chxsql.Postgres.Msg.Fixed.ready_for_query_body chxsql.Postgres.Outcome.make_success
    chxsql.Postgres.Msg.RowDescription.row_description_body
    chxsql.Postgres.Msg.RowDescription.columns_turn chxsql.Postgres.Msg.RowDescription.count_turn
    chxsql.Postgres.Msg.RowDescription.field_name_turn chxsql.Postgres.Basic.string
    chxsql.Postgres.Basic.strnlen chxsql.Postgres.Basic.big_endian chxsql.Postgres.Basic.byte
    chxsql.Postgres.Msg.DataRow.count_turn chxsql.Postgres.Msg.DataRow.data_row_body
    chxsql.Postgres.Msg.DataRow.len_turn chxsql.Postgres.Msg.DataRow.store_null
    chxsql.Postgres.Msg.DataRow.store_value chxsql.Postgres.Msg.DataRow.value_turn
    chxsql.Postgres.Msg.DataRow.values_turn chxsql.Postgres.Msg.RowDescription.column_attribute_turn
    chxsql.Postgres.Msg.RowDescription.data_type_size_turn
    chxsql.Postgres.Msg.RowDescription.field_data_type_id_turn
    chxsql.Postgres.Msg.RowDescription.format_code_turn
    chxsql.Postgres.Msg.RowDescription.table_id_turn
    chxsql.Postgres.Msg.RowDescription.type_modifier_turn
    chxsql.Postgres.Msg.Status.command_complete_body chxsql.Postgres.Msg.Status.command_turn
    chxsql.Postgres.Rows.modify
execute_select = refl

oneshot_select :
    oneshot_parse new_oneshot (parse_bytes ++ (bind_bytes ++ select_bytes))
    ≡ complete (no_error, some rows_of_a ∷ []) []
unfolding oneshot_parse chxsql.Postgres.Execute.oneshot_round chxsql.Postgres.Execute.oneshot_type
    chxsql.Postgres.Execute.execute_type chxsql.Postgres.Execute.parsers_case
    chxsql.Postgres.Msg.Fixed.empty_body chxsql.Postgres.Operation.do_rounds
    chxsql.Postgres.Frame.basic_parser chxsql.Postgres.Frame.staged chxsql.Postgres.Frame.type_case
    chxsql.Postgres.Frame.length_case chxsql.Postgres.Basic.integer
    chxsql.Postgres.Frame.length_known chxsql.Postgres.Basic.integer_value
    chxsql.Postgres.Frame.body_case chxsql.Postgres.Frame.body_reply chxsql.Postgres.Turn.body
    chxsql.Postgres.Msg.Fixed.ready_for_query_body chxsql.Postgres.Outcome.make_success
    chxsql.Postgres.Msg.RowDescription.row_description_body
    chxsql.Postgres.Msg.RowDescription.columns_turn chxsql.Postgres.Msg.RowDescription.count_turn
    chxsql.Postgres.Msg.RowDescription.field_name_turn chxsql.Postgres.Basic.string
    chxsql.Postgres.Basic.strnlen chxsql.Postgres.Basic.big_endian chxsql.Postgres.Basic.byte
    chxsql.Postgres.Msg.DataRow.count_turn chxsql.Postgres.Msg.DataRow.data_row_body
    chxsql.Postgres.Msg.DataRow.len_turn chxsql.Postgres.Msg.DataRow.store_null
    chxsql.Postgres.Msg.DataRow.store_value chxsql.Postgres.Msg.DataRow.value_turn
    chxsql.Postgres.Msg.DataRow.values_turn chxsql.Postgres.Msg.RowDescription.column_attribute_turn
    chxsql.Postgres.Msg.RowDescription.data_type_size_turn
    chxsql.Postgres.Msg.RowDescription.field_data_type_id_turn
    chxsql.Postgres.Msg.RowDescription.format_code_turn
    chxsql.Postgres.Msg.RowDescription.table_id_turn
    chxsql.Postgres.Msg.RowDescription.type_modifier_turn
    chxsql.Postgres.Msg.Status.command_complete_body chxsql.Postgres.Msg.Status.command_turn
    chxsql.Postgres.Rows.modify
oneshot_select = refl

query_select : query_parse new_query select_bytes ≡ complete (no_error, some rows_of_a ∷ []) []
unfolding query_parse chxsql.Postgres.SimpleQuery.query_round chxsql.Postgres.SimpleQuery.query_case
    chxsql.Postgres.SimpleQuery.query_type chxsql.Postgres.Operation.do_rounds
    chxsql.Postgres.Frame.basic_parser chxsql.Postgres.Frame.staged chxsql.Postgres.Frame.type_case
    chxsql.Postgres.Frame.length_case chxsql.Postgres.Basic.integer
    chxsql.Postgres.Frame.length_known chxsql.Postgres.Basic.integer_value
    chxsql.Postgres.Frame.body_case chxsql.Postgres.Frame.body_reply chxsql.Postgres.Turn.body
    chxsql.Postgres.Msg.Fixed.ready_for_query_body chxsql.Postgres.Outcome.make_success
    chxsql.Postgres.Msg.RowDescription.row_description_body
    chxsql.Postgres.Msg.RowDescription.columns_turn chxsql.Postgres.Msg.RowDescription.count_turn
    chxsql.Postgres.Msg.RowDescription.field_name_turn chxsql.Postgres.Basic.string
    chxsql.Postgres.Basic.strnlen chxsql.Postgres.Basic.big_endian chxsql.Postgres.Basic.byte
    chxsql.Postgres.Msg.DataRow.count_turn chxsql.Postgres.Msg.DataRow.data_row_body
    chxsql.Postgres.Msg.DataRow.len_turn chxsql.Postgres.Msg.DataRow.store_null
    chxsql.Postgres.Msg.DataRow.store_value chxsql.Postgres.Msg.DataRow.value_turn
    chxsql.Postgres.Msg.DataRow.values_turn chxsql.Postgres.Msg.RowDescription.column_attribute_turn
    chxsql.Postgres.Msg.RowDescription.data_type_size_turn
    chxsql.Postgres.Msg.RowDescription.field_data_type_id_turn
    chxsql.Postgres.Msg.RowDescription.format_code_turn
    chxsql.Postgres.Msg.RowDescription.table_id_turn
    chxsql.Postgres.Msg.RowDescription.type_modifier_turn
    chxsql.Postgres.Msg.Status.command_complete_body chxsql.Postgres.Msg.Status.command_turn
    chxsql.Postgres.Rows.modify
query_select = refl

-- Bytes after the end of the operation stay in the buffer.
prepare_twice :
    prepare_parse new_preparation (parse_bytes ++ (ready_bytes ++ ready_bytes))
    ≡ complete no_error ready_bytes
unfolding prepare_parse chxsql.Postgres.ParseQuery.prepare_round
    chxsql.Postgres.Msg.Fixed.empty_body chxsql.Postgres.Operation.do_rounds
    chxsql.Postgres.Frame.basic_parser chxsql.Postgres.Frame.staged chxsql.Postgres.Frame.type_case
    chxsql.Postgres.Frame.length_case chxsql.Postgres.Basic.integer
    chxsql.Postgres.Frame.length_known chxsql.Postgres.Basic.integer_value
    chxsql.Postgres.Frame.body_case chxsql.Postgres.Frame.body_reply chxsql.Postgres.Turn.body
    chxsql.Postgres.Msg.Fixed.ready_for_query_body chxsql.Postgres.Outcome.make_success
prepare_twice = refl
