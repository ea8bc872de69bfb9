-- ===== src/Postgres/Msg/RoundTrip.antt =====
-- The messages of a startup in the layout of the protocol are accepted to their last byte.
use chxsql.Base.{
  NoNul, ℕ, suc, ◌^◌, ◌<◌, Bytes, [], ◌∷◌, ◌++◌, ◌≡◌, sym, ap, ◌∙◌, arith, length, length-append,
  append-nil, true,
}
use chxsql.Postgres.Basic.RoundTrip.{
  string-to_network, integer-to_network, integer_value-to_network32, length-integer_to_network,
}
use chxsql.Postgres.Basic.{string_to_network, insert_nop, integer_to_network}
use chxsql.Postgres.Msg.Status.{
  key_turn, backend_key_data_body, new_key_data, s2, parameter_turn, parameter_status_body,
  new_parameter,
}
use chxsql.Postgres.Outcome.{ParseResult, parse_success, verdict, make_success}
use chxsql.Postgres.Requests.{length-string_to_network}
use chxsql.Postgres.Turn.Loop.{body_loop_again, body_loop_stop}
use chxsql.Postgres.Turn.{Turn, again, stop, body}

-- A body of two turns.
body_two :
    {S : Type 0} (turn : S → Bytes → Turn S) (s s' s'' : S) (xs rest : Bytes) (r : ParseResult)
    → turn s xs ≡ again s' rest
    → turn s' rest ≡ stop r s''
    → 0 < length xs
    → body turn s xs ≡ verdict r s''
unfolding body
body_two turn s s' s'' [] rest r e g h = absurd (omega arith)
body_two turn s s' s'' (x ∷ xs) rest r e g h =
    body_loop_again turn (suc (length xs)) s (x ∷ xs) e ∙ body_loop_stop turn (length xs) s' rest g

-- The name and the value of a parameter.
abbrev pub status_layout : Bytes → Bytes → Bytes
status_layout name value = string_to_network name ++ string_to_network value

name_turned :
    (name rest : Bytes)
    → NoNul name
    → parameter_turn new_parameter (string_to_network name ++ rest)
      ≡ again (record { stage = true; parser = 0 }) rest
unfolding parameter_turn
name_turned name rest h = rw (string-to_network insert_nop 0 name rest h)

value_turned :
    (value : Bytes)
    → NoNul value
    → parameter_turn (record { stage = true; parser = 0 }) (string_to_network value)
      ≡ stop parse_success (record { stage = true; parser = insert_nop 0 value })
unfolding parameter_turn make_success
value_turned value h =
    ap (parameter_turn (record { stage = true; parser = 0 }))
      (sym (append-nil (string_to_network value)))
    ∙ rw (string-to_network insert_nop 0 value [] h)

-- A ParameterStatus is accepted to its last byte.
pub parameter_status_body-layout :
    (name value : Bytes)
    → NoNul name
    → NoNul value
    → parameter_status_body new_parameter (status_layout name value)
      ≡ verdict parse_success (record { stage = true; parser = insert_nop 0 value })
unfolding parameter_status_body
parameter_status_body-layout name value h k =
    body_two parameter_turn new_parameter (record { stage = true; parser = 0 })
      (record { stage = true; parser = insert_nop 0 value }) (status_layout name value)
      (string_to_network value) parse_success (name_turned name (string_to_network value) h)
      (value_turned value k)
      (omega (
        arith,
        length-append (string_to_network name) (string_to_network value),
        length-string_to_network value,
      ))

-- A process and a secret.
abbrev pub key_layout : ℕ → ℕ → Bytes
key_layout process_id secret_key =
    integer_to_network 4 process_id ++ integer_to_network 4 secret_key

process_turn :
    (process_id : ℕ) (rest : Bytes)
    → process_id < 2 ^ 32
    → key_turn new_key_data (integer_to_network 4 process_id ++ rest)
      ≡ again (record { process_id = process_id; secret_key = 0; stage = s2; parser = [] }) rest
unfolding key_turn
process_turn p rest h =
    rw (integer-to_network 4 p rest, key_turn)
      (ap
        (λ (v : ℕ). again (record { process_id = v; secret_key = 0; stage = s2; parser = [] }) rest)
        (integer_value-to_network32 p h))

secret_turn :
    (process_id secret_key : ℕ)
    → secret_key < 2 ^ 32
    → key_turn
        (record { process_id = process_id; secret_key = 0; stage = s2; parser = [] })
        (integer_to_network 4 secret_key)
      ≡ stop parse_success (record {
        process_id = process_id;
        secret_key = secret_key;
        stage = s2;
        parser = integer_to_network 4 secret_key;
      })
unfolding key_turn make_success
secret_turn p s h =
    ap (key_turn (record { process_id = p; secret_key = 0; stage = s2; parser = [] }))
      (sym (append-nil (integer_to_network 4 s)))
    ∙ rw (integer-to_network 4 s [], key_turn)
        (ap
          (λ (v : ℕ). stop parse_success (record {
            process_id = p;
            secret_key = v;
            stage = s2;
            parser = integer_to_network 4 s;
          }))
          (integer_value-to_network32 s h))

-- A BackendKeyData is accepted to its last byte, and keeps the numbers that it carries.
pub backend_key_data_body-layout :
    (process_id secret_key : ℕ)
    → process_id < 2 ^ 32
    → secret_key < 2 ^ 32
    → backend_key_data_body new_key_data (key_layout process_id secret_key)
      ≡ verdict parse_success (record {
        process_id = process_id;
        secret_key = secret_key;
        stage = s2;
        parser = integer_to_network 4 secret_key;
      })
unfolding backend_key_data_body
backend_key_data_body-layout p s h k =
    body_two key_turn new_key_data
      (record { process_id = p; secret_key = 0; stage = s2; parser = [] })
      (record { process_id = p; secret_key = s; stage = s2; parser = integer_to_network 4 s })
      (key_layout p s) (integer_to_network 4 s) parse_success
      (process_turn p (integer_to_network 4 s) h) (secret_turn p s k)
      (omega (
        arith,
        length-append (integer_to_network 4 p) (integer_to_network 4 s),
        length-integer_to_network 4 p,
      ))
