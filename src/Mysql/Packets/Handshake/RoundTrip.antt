-- ===== src/Mysql/Packets/Handshake/RoundTrip.antt =====
-- The layout of the greeting of a server, and its parser.
use chxsql.Base.{NoNul, ℕ, ◌^◌, ◌<◌, Bytes, [], ◌∷◌, ◌++◌, ◌≡◌, length, if◌then◌else◌, replicate}
use chxsql.Mysql.Basic.{keeping, VariableString}
use chxsql.Mysql.Encode.{fixed_length_integer_to_network}
use chxsql.Mysql.Packets.Handshake.{
  HandshakePacket, HandshakeParser, handshake_at, plugin_name, data_part_2, part_2_length,
}
use chxsql.Mysql.Packets.Ok.{has_flag}
use chxsql.Mysql.Result.{Parsed, parsed, payload_success}

-- The greeting from the flags on, the name of the plugin included, in front of other bytes.
abbrev encode_flags : HandshakePacket → Bytes → Bytes
encode_flags r after =
    fixed_length_integer_to_network 2 r.capability_flags_1
    ++ (r.character_set
        ∷ (fixed_length_integer_to_network 2 r.status_flags
            ++ (fixed_length_integer_to_network 2 r.capability_flags_2
                ++ (r.auth_plugin_data_len
                    ∷ (replicate 10 0
                        ++ (r.auth_plugin_data_part_2 ++ (r.auth_plugin_name ++ 0 ∷ after)))))))

-- A greeting of protocol 10.
abbrev pub encode_greeting : HandshakePacket → Bytes → Bytes
encode_greeting r after =
    10
    ∷ (r.server_version
        ++ 0
          ∷ (fixed_length_integer_to_network 4 r.thread_id
              ++ (r.auth_plugin_data_part_1 ++ 0 ∷ encode_flags r after)))

abbrev ValidFlags : HandshakePacket → Type 0
ValidFlags r =
    (r.capability_flags_1 < 2 ^ 16)
    × (r.character_set < 256)
    × (r.status_flags < 2 ^ 16)
    × (r.capability_flags_2 < 2 ^ 16)
    × (9 < r.auth_plugin_data_len)
    × (r.auth_plugin_data_len < 256)
    × (length r.auth_plugin_data_part_2 ≡ part_2_length r.auth_plugin_data_len)
    × NoNul r.auth_plugin_name

-- Numbers fit their fields, texts have no nul, and the nonces have their lengths.
abbrev pub ValidGreeting : HandshakePacket → Type 0
ValidGreeting r =
    NoNul r.server_version
    × (r.thread_id < 2 ^ 32)
    × (length r.auth_plugin_data_part_1 ≡ 8)
    × ValidFlags r

abbrev pub held_string : ℕ → Bytes → VariableString keeping
held_string n s = record { target_length = n; held = s }

-- What is left of the greeting after the second nonce.
abbrev named_or_not : HandshakePacket → Bytes → Bytes → Bytes → Parsed HandshakeParser
named_or_not r part name after =
    let r' = record r { auth_plugin_data_part_2 = part } in
    if has_flag 3 r.capability_flags_1
    then parsed payload_success
        (handshake_at (plugin_name []) (record r' { auth_plugin_name = name })) after
    else parsed payload_success (handshake_at (data_part_2 (held_string (length part) part)) r')
        (name ++ 0 ∷ after)
