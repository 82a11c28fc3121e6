-- ===== src/Script/Commands.antt =====
-- Commands and their encoding: `serialize`, `deserialize` and `build_opreturn_script` of class Script.
use graffiti_protocol.Base.{
  ℕ, zero, suc, ◌+◌, ◌*◌, ◌/◌, ◌%◌, ◌^◌, List, [], ◌∷◌, ◌++◌, Option, none, some, length, take,
  drop, leb, ltb, eqb, ◌&&◌, if◌then◌else◌,
}

abbrev pub Bytes : Type 0
Bytes = List ℕ

-- `cmds` holds numbers and byte strings.
pub data Command : Type 0 where
  opcode : ℕ → Command
  push : Bytes → Command

abbrev pub op_return : ℕ
op_return = 0x6A

abbrev pub op_pushdata1 : ℕ
op_pushdata1 = 0x4C

abbrev pub op_pushdata2 : ℕ
op_pushdata2 = 0x4D

abbrev pub op_pushdata4 : ℕ
op_pushdata4 = 0x4E

-- `n.to_bytes(2, 'little')`, and `n.to_bytes(4, 'little')`
abbrev pub le2 : ℕ → Bytes
le2 n = n % 256 ∷ n / 256 ∷ []

abbrev pub le4 : ℕ → Bytes
le4 n = n % 256 ∷ n / 2 ^ 8 % 256 ∷ n / 2 ^ 16 % 256 ∷ n / 2 ^ 24 ∷ []

unfoldable pub encode_pushdata : Bytes → Bytes
encode_pushdata b =
    let n = length b in
    if leb n 75
    then n ∷ b
    else (if leb n 255
        then op_pushdata1 ∷ n ∷ b
        else (if leb n 65535 then op_pushdata2 ∷ le2 n ++ b else op_pushdata4 ∷ le4 n ++ b))

unfoldable pub serialize : List Command → Bytes
unfolding encode_pushdata
serialize [] = []
serialize (opcode c ∷ cmds) = c % 256 ∷ serialize cmds
serialize (push b ∷ cmds) = encode_pushdata b ++ serialize cmds

-- The `n` bytes of a push, and what is left; `none` is a short read.
unfoldable pub take_push : ℕ → Bytes → Option (Command × Bytes)
take_push n rest = if ltb (length rest) n then none else some (push (take n rest), drop n rest)

-- The branches of PUSHDATA1, 2 and 4, each with its header.
unfoldable pub read_push1 : Bytes → Option (Command × Bytes)
unfolding take_push
read_push1 [] = none
read_push1 (n ∷ rest) = take_push n rest

unfoldable pub read_push2 : Bytes → Option (Command × Bytes)
unfolding take_push
read_push2 (a ∷ b ∷ rest) = take_push (a + 256 * b) rest
read_push2 _ = none

unfoldable pub read_push4 : Bytes → Option (Command × Bytes)
unfolding take_push
read_push4 (a ∷ b ∷ c ∷ d ∷ rest) = take_push (a + 2 ^ 8 * b + 2 ^ 16 * c + 2 ^ 24 * d) rest
read_push4 _ = none

unfoldable pub read_push_or_opcode : ℕ → Bytes → Option (Command × Bytes)
unfolding take_push read_push1 read_push2 read_push4
read_push_or_opcode first rest =
    if leb 1 first && leb first 75
    then take_push first rest
    else (if eqb first 0
        then some (opcode 0, rest)
        else (if eqb first op_pushdata1
            then read_push1 rest
            else (if eqb first op_pushdata2
                then read_push2 rest
                else (if eqb first op_pushdata4
                    then read_push4 rest
                    else some (opcode first, rest)))))

-- The loop of `deserialize`; each round takes a byte at least, so the length is fuel enough.
unfoldable pub deserialize_from : ℕ → Bytes → Option (List Command)
unfolding read_push_or_opcode
deserialize_from fuel [] = some []
deserialize_from zero (first ∷ rest) = none
deserialize_from (suc fuel) (first ∷ rest) = elim (read_push_or_opcode first rest) [
  | none ↦ none
  | some (cmd, rest') ↦ elim (deserialize_from fuel rest') [
    | none ↦ none
    | some cmds ↦ some (cmd ∷ cmds)
  ]
]

unfoldable pub deserialize : Bytes → Option (List Command)
unfolding deserialize_from
deserialize raw = deserialize_from (length raw) raw

unfoldable build_opreturn_script : Bytes → ℕ → Option Bytes
build_opreturn_script raw max_bytes =
    let n = length raw in
    if ltb max_bytes n
    then none
    else (if leb n 75
        then some (op_return ∷ n ∷ raw)
        else (if leb n 255
            then some (op_return ∷ op_pushdata1 ∷ n ∷ raw)
            else (if leb n 520 then some (op_return ∷ op_pushdata2 ∷ le2 n ++ raw) else none)))
