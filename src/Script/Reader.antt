-- ===== src/Script/Reader.antt =====
-- Readers of scripts that do not go through class Script.
use graffiti_protocol.Base.{
  ℕ, zero, suc, ◌+◌, ◌*◌, ◌^◌, Bool, false, List, [], ◌∷◌, Option, none, some, length, take, drop,
  leb, ltb, eqb, ◌&&◌, ◌||◌, if◌then◌else◌,
}
use graffiti_protocol.Script.Commands.{Bytes, op_return, op_pushdata1, op_pushdata2, op_pushdata4}

-- An item of `parse_ops`: an opcode, or the data of a push.
pub data Item : Type 0 where
  op : ℕ → Item
  pushed : Bytes → Item

-- The data, which may be shorter than announced at the end of a script, and what is left.
abbrev pub sliced : ℕ → Bytes → Option (Item × Bytes)
sliced ln rest = some (pushed (take ln rest), drop ln rest)

unfoldable pub read_push1_loose : Bytes → Option (Item × Bytes)
read_push1_loose [] = none
read_push1_loose (n ∷ rest) = sliced n rest

unfoldable pub read_push2_loose : Bytes → Option (Item × Bytes)
read_push2_loose (a ∷ b ∷ rest) = sliced (a + 256 * b) rest
read_push2_loose _ = none

unfoldable pub read_push4_loose : Bytes → Option (Item × Bytes)
read_push4_loose (a ∷ b ∷ c ∷ d ∷ rest) = sliced (a + 2 ^ 8 * b + 2 ^ 16 * c + 2 ^ 24 * d) rest
read_push4_loose _ = none

-- `read_push` on a script that begins with a push, as `parse_ops` calls it.
unfoldable pub read_push : ℕ → Bytes → Option (Item × Bytes)
unfolding read_push1_loose read_push2_loose read_push4_loose
read_push first rest =
    if leb first 0x4B
    then sliced first rest
    else (if eqb first op_pushdata1
        then read_push1_loose rest
        else (if eqb first op_pushdata2
            then read_push2_loose rest
            else (if eqb first op_pushdata4 then read_push4_loose rest else some (op first, rest))))

unfoldable pub is_push : ℕ → Bool
is_push b = leb b 0x4B || eqb b op_pushdata1 || eqb b op_pushdata2 || eqb b op_pushdata4

-- The loop of `parse_ops`, on the length as fuel: each round takes a byte at least.
unfoldable pub parse_ops_from : ℕ → Bytes → List Item
unfolding read_push is_push
parse_ops_from zero script = []
parse_ops_from (suc fuel) [] = []
parse_ops_from (suc fuel) (b ∷ rest) =
    let skipped = parse_ops_from fuel rest in
    if is_push b
    then (elim (read_push b rest) [
      | none ↦ []
      | some (item, rest') ↦ item ∷ parse_ops_from fuel rest'
    ])
    else op b ∷ skipped

unfoldable pub parse_ops : Bytes → List Item
unfolding parse_ops_from
parse_ops script = parse_ops_from (length script) script

-- The last item that is a push.
unfoldable pub last_pushed : List Item → Option Bytes
last_pushed [] = none
last_pushed (op _ ∷ items) = last_pushed items
last_pushed (pushed raw ∷ items) = elim (last_pushed items) [
  | none ↦ some raw
  | some later ↦ some later
]

unfoldable pub last_pushdata : Bytes → Option Bytes
unfolding parse_ops last_pushed
last_pushdata script = last_pushed (parse_ops script)

-- `script[i:i + n]`, unless the script ends before.
abbrev pub whole : ℕ → Bytes → Option Bytes
whole n rest = if ltb (length rest) n then none else some (take n rest)

unfoldable pub payload1 : Bytes → Option Bytes
payload1 [] = none
payload1 (n ∷ rest) = whole n rest

unfoldable pub payload2 : Bytes → Option Bytes
payload2 (a ∷ b ∷ rest) = whole (a + 256 * b) rest
payload2 _ = none

-- What follows OP_RETURN.
unfoldable pub first_push : Bytes → Option Bytes
unfolding payload1 payload2
first_push [] = none
first_push (first ∷ rest) =
    if leb 1 first && leb first 75
    then whole first rest
    else (if eqb first op_pushdata1
        then payload1 rest
        else (if eqb first op_pushdata2 then payload2 rest else none))

-- `_read_opreturn_payload`; the first half of `parse_from_script` reads the same bytes.
unfoldable pub read_opreturn_payload : Bytes → Option Bytes
unfolding first_push
read_opreturn_payload [] = none
read_opreturn_payload (b ∷ rest) = if eqb b op_return then first_push rest else none

unfoldable pub is_p2wpkh : Bytes → Bool
is_p2wpkh (a ∷ b ∷ rest) = eqb (length rest) 20 && eqb a 0 && eqb b 0x14
is_p2wpkh _ = false

unfoldable pub is_p2wsh : Bytes → Bool
is_p2wsh (a ∷ b ∷ rest) = eqb (length rest) 32 && eqb a 0 && eqb b 0x20
is_p2wsh _ = false
