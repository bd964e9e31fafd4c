-- ===== src/Etw/Network/Tests.antt =====
-- The theorems about the decoding at concrete inputs.
use cyber_guard_enterprise.Prelude.{◌≡◌, refl, [], ◌∷◌, some, arith}
use cyber_guard_enterprise.Net.{v4, socket_addr}
use cyber_guard_enterprise.Etw.Types.{inbound}
use cyber_guard_enterprise.Etw.Network.{
  DecodedConnection, connection_direction, decode_pid, port, address, decode_connection,
}
use cyber_guard_enterprise.Etw.Network.Decoding.{
  IsConnection, decode-encode, decode_connection-IsConnection,
}

abbrev accepted : DecodedConnection
accepted = record {
  pid = 4242;
  direction = inbound;
  src = socket_addr (v4 (10 ∷ 0 ∷ 0 ∷ 9 ∷ [])) 50000;
  dst = socket_addr (v4 (10 ∷ 0 ∷ 0 ∷ 1 ∷ [])) 443;
}

accepted-IsConnection : IsConnection accepted
accepted-IsConnection = omega arith

decode-encode_example :
    decode_connection 15
      (146 ∷ 16 ∷ 0 ∷ 0 ∷ [])
      (10 ∷ 0 ∷ 0 ∷ 1 ∷ [])
      (10 ∷ 0 ∷ 0 ∷ 9 ∷ [])
      (1 ∷ 187 ∷ [])
      (195 ∷ 80 ∷ [])
    ≡ some accepted
unfolding connection_direction
decode-encode_example = decode-encode 15 accepted accepted-IsConnection refl

decode_connection-IsConnection_example : IsConnection accepted
unfolding decode_connection connection_direction decode_pid address port
decode_connection-IsConnection_example =
    decode_connection-IsConnection 15 (146 ∷ 16 ∷ 0 ∷ 0 ∷ []) (10 ∷ 0 ∷ 0 ∷ 1 ∷ [])
      (10 ∷ 0 ∷ 0 ∷ 9 ∷ []) (1 ∷ 187 ∷ []) (195 ∷ 80 ∷ []) (omega arith) (omega arith) (omega arith)
      (omega arith) (omega arith) refl
