-- ===== src/Script/Payload.antt =====
-- How the readers of pushes read what `serialize` of class Script writes.
use graffiti_protocol.Base.{
  ℕ, zero, suc, ◌+◌, ◌*◌, ◌/◌, ◌%◌, ◌^◌, ◌≤◌, ◌<◌, ◌≡◌, refl, ap, arith, inl, inr, true, List, [],
  ◌∷◌, ◌++◌, ◌∙◌, some, map, length, length-append, leb, eqb, if◌then◌else◌, Bool-cases, leb→le,
}
use graffiti_protocol.Script.Commands.{
  Bytes, Command, opcode, push, op_return, op_pushdata1, op_pushdata2, op_pushdata4, le2, le4,
  encode_pushdata, serialize,
}
use graffiti_protocol.Script.Reader.{
  Item, op, pushed, read_push1_loose, read_push2_loose, read_push4_loose, read_push, is_push,
  parse_ops_from, parse_ops, last_pushed, last_pushdata, payload1, payload2, first_push,
  read_opreturn_payload,
}
use graffiti_protocol.Script.RoundTrip.{IsReadable, AreReadable, take-append, drop-append}

-- OP_0 is a push of nothing.
abbrev item_of : Command → Item
item_of (opcode c) = if eqb c 0 then pushed [] else op c
item_of (push b) = pushed b

-- A first byte of a push, and those that follow, for `read_push`.
abbrev Reads : Bytes → Bytes → Bytes → Type 0
Reads b code rest =
    (first : ℕ) × (more : Bytes) × (code ≡ first ∷ more)
    × (is_push first ≡ true)
    × (read_push first (more ++ rest) ≡ some (pushed b, rest))

read_small : (b rest : Bytes) → length b ≤ 75 → Reads b (encode_pushdata b) rest
unfolding encode_pushdata is_push read_push
read_small b rest q = (
  length b,
  b,
  ground arith,
  ground arith,
  ground (arith, take-append b rest, drop-append b rest),
)

read_one : (b rest : Bytes) → 75 < length b → length b ≤ 255 → Reads b (encode_pushdata b) rest
unfolding encode_pushdata is_push read_push read_push1_loose
read_one b rest p q = (
  op_pushdata1,
  length b ∷ b,
  ground arith,
  refl,
  ground (arith, take-append b rest, drop-append b rest),
)

read_two : (b rest : Bytes) → 255 < length b → length b ≤ 65535 → Reads b (encode_pushdata b) rest
unfolding encode_pushdata is_push read_push read_push2_loose
read_two b rest p q =
    let n = length b in
    let e : n % 256 + 256 * (n / 256) ≡ n = omega arith in
    (
      op_pushdata2,
      le2 n ++ b,
      ground arith,
      refl,
      rw e (ground (arith, take-append b rest, drop-append b rest)),
    )

read_four :
    (b rest : Bytes) → 65535 < length b → length b < 2 ^ 32 → Reads b (encode_pushdata b) rest
unfolding encode_pushdata is_push read_push read_push4_loose
read_four b rest p q =
    let n = length b in
    let e : n % 256
          + 2 ^ 8 * (n / 2 ^ 8 % 256)
          + 2 ^ 16 * (n / 2 ^ 16 % 256)
          + 2 ^ 24 * (n / 2 ^ 24)
        ≡ n =
      omega arith in
    (
      op_pushdata4,
      le4 n ++ b,
      ground arith,
      refl,
      rw e (ground (arith, take-append b rest, drop-append b rest)),
    )

push-Reads : (b rest : Bytes) → length b < 2 ^ 32 → Reads b (encode_pushdata b) rest
push-Reads b rest q = elim (Bool-cases (leb (length b) 75)) [
  | inl small ↦ read_small b rest (leb→le (length b) 75 small)
  | inr big ↦ elim (Bool-cases (leb (length b) 255)) [
    | inl one ↦ read_one b rest (ground arith) (leb→le (length b) 255 one)
    | inr bigger ↦ elim (Bool-cases (leb (length b) 65535)) [
      | inl two ↦ read_two b rest (ground arith) (leb→le (length b) 65535 two)
      | inr four ↦ read_four b rest (ground arith) q
    ]
  ]
]

-- One round of the loop at a push, and at another opcode.
push_round :
    (fuel first : ℕ) (more rest b : Bytes)
    → is_push first ≡ true
    → read_push first (more ++ rest) ≡ some (pushed b, rest)
    → parse_ops_from (suc fuel) (first ∷ more ++ rest) ≡ pushed b ∷ parse_ops_from fuel rest
unfolding parse_ops_from
push_round fuel first more rest b p e = ground arith

opcode_round :
    (fuel c : ℕ) (rest : Bytes)
    → IsReadable (opcode c)
    → parse_ops_from (suc fuel) (c % 256 ∷ rest) ≡ item_of (opcode c) ∷ parse_ops_from fuel rest
unfolding parse_ops_from is_push read_push
opcode_round fuel c rest (inl e, q) = rw e refl
opcode_round fuel c rest (inr p, q) =
    let small : c % 256 ≡ c = omega arith in rw small (ground arith)

parse_ops_from-serialize :
    (cmds : List Command) (fuel : ℕ)
    → AreReadable cmds
    → length (serialize cmds) ≤ fuel
    → parse_ops_from fuel (serialize cmds) ≡ map item_of cmds
unfolding serialize
parse_ops_from-serialize [] zero r le = unfold parse_ops_from in refl
parse_ops_from-serialize [] (suc fuel) r le = unfold parse_ops_from in refl
parse_ops_from-serialize (opcode c ∷ cmds) zero (a, r) le = absurd (ground arith)
parse_ops_from-serialize (opcode c ∷ cmds) (suc fuel) (a, r) le =
    opcode_round fuel c (serialize cmds) a
    ∙ ap (λ (items : List Item). item_of (opcode c) ∷ items)
        (parse_ops_from-serialize cmds fuel r (ground arith))
parse_ops_from-serialize (push b ∷ cmds) zero (a, r) le =
    let (first, more, e, p, reads) = push-Reads b (serialize cmds) a.1 in
    absurd (ground (arith, ap (λ (c : Bytes). length (c ++ serialize cmds)) e))
parse_ops_from-serialize (push b ∷ cmds) (suc fuel) (a, r) le =
    let (first, more, e, p, reads) = push-Reads b (serialize cmds) a.1 in
    rw e (
      push_round fuel first more (serialize cmds) b p reads
      ∙ ap (λ (items : List Item). pushed b ∷ items)
          (parse_ops_from-serialize cmds fuel r (
            ground (
              arith,
              ap (λ (c : Bytes). length (c ++ serialize cmds)) e,
              length-append more (serialize cmds),
            ))))

-- The tolerant reader `parse_ops` finds in what `serialize` writes exactly the commands that were
-- written, in their order, where OP_0 counts as a push of nothing; the conditions on the commands
-- are those of the strict reader.
parse_ops-serialize :
    (cmds : List Command) → AreReadable cmds → parse_ops (serialize cmds) ≡ map item_of cmds
unfolding parse_ops
parse_ops-serialize cmds r = parse_ops_from-serialize cmds (length (serialize cmds)) r (omega arith)

-- What follows OP_RETURN, when it is a push.
first_push-encode :
    (b rest : Bytes)
    → 1 ≤ length b
    → length b ≤ 65535
    → first_push (encode_pushdata b ++ rest) ≡ some b
unfolding first_push encode_pushdata payload1 payload2
first_push-encode b rest p q = elim (Bool-cases (leb (length b) 75)) [
  | inl small ↦ ground (arith, take-append b rest, length-append b rest)
  | inr big ↦ elim (Bool-cases (leb (length b) 255)) [
    | inl one ↦ ground (arith, take-append b rest, length-append b rest)
    | inr bigger ↦
        let n = length b in
        let e : n % 256 + 256 * (n / 256) ≡ n = omega arith in
        ground (arith, take-append b rest, length-append b rest, e)
  ]
]

-- Whatever is written after it, the first push of an OP_RETURN script is what the registry's reader
-- takes for the payload, if it has from 1 to 65,535 bytes.
read_opreturn_payload-serialize :
    (b : Bytes) (cmds : List Command)
    → 1 ≤ length b
    → length b ≤ 65535
    → read_opreturn_payload (serialize (opcode op_return ∷ push b ∷ cmds)) ≡ some b
unfolding read_opreturn_payload serialize
read_opreturn_payload-serialize b cmds p q = first_push-encode b (serialize cmds) p q

-- In an OP_RETURN script with two pushes the registry reads the first, and the test of an output in
-- a block, which takes the last push, reads the second, if both have from 1 to 65,535 bytes.
pub payload_readers_differ :
    (a b : Bytes)
    → 1 ≤ length a
    → length a ≤ 65535
    → 1 ≤ length b
    → length b ≤ 65535
    → (read_opreturn_payload (serialize (opcode op_return ∷ push a ∷ push b ∷ [])) ≡ some a)
      × (last_pushdata (serialize (opcode op_return ∷ push a ∷ push b ∷ [])) ≡ some b)
unfolding last_pushdata
payload_readers_differ a b p q p' q' = (
  read_opreturn_payload-serialize a (push b ∷ []) p q,
  rw
      (parse_ops-serialize (opcode op_return ∷ push a ∷ push b ∷ [])
        ((inr (omega arith), omega arith), ((p, omega arith), ((p', omega arith), tt))))
      (unfold last_pushed in refl),
)
