-- ===== src/Postgres/Msg/Fixed.antt =====
-- include/chx/sql/postgresql/detail/msg/: the messages of a fixed length, bind_complete.hpp,
-- parse_complete.hpp, no_data.hpp, empty_query_response.hpp and ready_for_query.hpp.
pub mod Streaming
use chxsql.Base.{ℕ, Bytes, [], ◌∷◌, Bool, ◌||◌, ◌==◌, if◌then◌else◌}
use chxsql.Postgres.Outcome.{
  ParseResult, parse_success, parse_need_more, parse_malformed, Verdict, verdict, make_success,
}
use chxsql.Postgres.Message.{Message, of_type, of_length, any_length}

-- A message with no body keeps nothing; its `status` is never written.
unfoldable pub empty_body : Unit {0} → Bytes → Verdict (Unit {0})
unfolding make_success
empty_body s xs = verdict (make_success xs) s

abbrev pub bind_complete : Message
bind_complete = record {
  State = Unit {0};
  on_message_type = of_type b'2';
  on_message_length = of_length 4;
  on_body = empty_body;
}

abbrev pub parse_complete : Message
parse_complete = record {
  State = Unit {0};
  on_message_type = of_type b'1';
  on_message_length = of_length 4;
  on_body = empty_body;
}

abbrev pub no_data : Message
no_data = record {
  State = Unit {0};
  on_message_type = of_type b'n';
  on_message_length = of_length 4;
  on_body = empty_body;
}

abbrev pub empty_query_response : Message
empty_query_response = record {
  State = Unit {0};
  on_message_type = of_type b'I';
  on_message_length = of_length 4;
  on_body = empty_body;
}

-- The state is `status`.
unfoldable pub ready_for_query_body : ℕ → Bytes → Verdict ℕ
unfolding make_success
ready_for_query_body status [] = verdict parse_need_more status
ready_for_query_body status (b ∷ rest) =
    if b == b'T' || b == b'E' || b == b'I'
    then verdict (make_success rest) b
    else verdict parse_malformed b

abbrev pub ready_for_query : Message
ready_for_query = record {
  State = ℕ;
  on_message_type = of_type b'Z';
  on_message_length = of_length 5;
  on_body = ready_for_query_body;
}
