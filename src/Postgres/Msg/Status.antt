-- ===== src/Postgres/Msg/Status.antt =====
-- include/chx/sql/postgresql/detail/msg/: backend_key_data.hpp, command_complete.hpp and
-- parameter_status.hpp.
use chxsql.Base.{ℕ, Bytes, [], Bool, true, false, not, if◌then◌else◌}
use chxsql.Postgres.Outcome.{Verdict, make_success}
use chxsql.Postgres.Basic.{Integer, integer, integer_value, string, insert_bytes, insert_nop}
use chxsql.Postgres.Message.{Message, of_type, of_length, any_length}
use chxsql.Postgres.Turn.{Turn, again, stop, then_turn, body}

pub data KeyStage : Type 0 where
  s1 s2 : KeyStage

pub record BackendKeyData : Type 0 where
  pub process_id : ℕ
  pub secret_key : ℕ
  pub stage : KeyStage
  pub parser : Integer

-- The branches of `r == ParseSuccess`.
key_read : KeyStage → BackendKeyData → Integer → Bytes → Turn BackendKeyData
key_read s1 k q rest =
    again (record k { process_id = integer_value 4 q; stage = s2; parser = [] }) rest
key_read s2 k q rest =
    stop (make_success rest) (record k { secret_key = integer_value 4 q; parser = q })

unfoldable pub key_turn : BackendKeyData → Bytes → Turn BackendKeyData
unfolding key_read
key_turn k xs =
    then_turn (integer 4 k.parser xs) (λ q. record k { parser = q }) (key_read k.stage k)

unfoldable pub backend_key_data_body : BackendKeyData → Bytes → Verdict BackendKeyData
backend_key_data_body = body key_turn

abbrev pub new_key_data : BackendKeyData
new_key_data = record { process_id = 0; secret_key = 0; stage = s1; parser = [] }

abbrev pub backend_key_data : Message
backend_key_data = record {
  State = BackendKeyData;
  on_message_type = of_type b'K';
  on_message_length = of_length 12;
  on_body = backend_key_data_body;
}

pub record CommandComplete : Type 0 where
  pub command_tag : Bytes
  pub parser : Bytes

unfoldable pub command_turn : CommandComplete → Bytes → Turn CommandComplete
command_turn c xs =
    then_turn (string insert_bytes c.parser xs) (λ q. record c { parser = q })
      (λ q rest. stop (make_success rest) (record { command_tag = q; parser = [] }))

unfoldable pub command_complete_body : CommandComplete → Bytes → Verdict CommandComplete
command_complete_body = body command_turn

abbrev pub new_command : CommandComplete
new_command = record { command_tag = []; parser = [] }

abbrev pub command_complete : Message
command_complete = record {
  State = CommandComplete;
  on_message_type = of_type b'C';
  on_message_length = any_length;
  on_body = command_complete_body;
}

-- `stage`, and the size that the `nop_container` of `parser` has counted.
pub record ParameterStatus : Type 0 where
  pub stage : Bool
  pub parser : ℕ

unfoldable pub parameter_turn : ParameterStatus → Bytes → Turn ParameterStatus
parameter_turn s xs =
    then_turn (string insert_nop s.parser xs) (λ q. record s { parser = q })
      (λ q rest.
        if not s.stage
        then again (record { stage = true; parser = 0 }) rest
        else stop (make_success rest) (record s { parser = q }))

unfoldable pub parameter_status_body : ParameterStatus → Bytes → Verdict ParameterStatus
parameter_status_body = body parameter_turn

abbrev pub new_parameter : ParameterStatus
new_parameter = record { stage = false; parser = 0 }

abbrev pub parameter_status : Message
parameter_status = record {
  State = ParameterStatus;
  on_message_type = of_type b'S';
  on_message_length = any_length;
  on_body = parameter_status_body;
}
