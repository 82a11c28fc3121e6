-- ===== src/Script/Tests.antt =====
-- A script of three commands and one with two pushes, and the results on them.
use graffiti_protocol.Base.{◌≡◌, List, [], ◌∷◌, some, inl, inr, arith}
use graffiti_protocol.Script.Commands.{
  Bytes, Command, opcode, push, op_return, serialize, deserialize,
}
use graffiti_protocol.Script.Reader.{last_pushdata, read_opreturn_payload}
use graffiti_protocol.Script.RoundTrip.{AreReadable, deserialize-serialize}
use graffiti_protocol.Script.Payload.{payload_readers_differ}

abbrev hello : Bytes
hello = 104 ∷ 105 ∷ []

abbrev bye : Bytes
bye = 98 ∷ 121 ∷ 101 ∷ []

-- OP_0, a push and OP_EQUAL
abbrev commands : List Command
commands = opcode 0 ∷ push hello ∷ opcode 0x87 ∷ []

commands-AreReadable : AreReadable commands
commands-AreReadable = (
  (inl (omega arith), omega arith),
  ((omega arith, omega arith), ((inr (omega arith), omega arith), tt)),
)

deserialize-serialize_example : deserialize (serialize commands) ≡ some commands
deserialize-serialize_example = deserialize-serialize commands commands-AreReadable

payload_readers_differ_example :
    (read_opreturn_payload (serialize (opcode op_return ∷ push hello ∷ push bye ∷ [])) ≡ some hello)
    × (last_pushdata (serialize (opcode op_return ∷ push hello ∷ push bye ∷ [])) ≡ some bye)
payload_readers_differ_example =
    payload_readers_differ hello bye (omega arith) (omega arith) (omega arith) (omega arith)
