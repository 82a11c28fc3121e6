-- ===== src/Script/RoundTrip.antt =====
-- What `serialize` of class Script writes is read back by `deserialize`.
use graffiti_protocol.Base.{
  ℕ, zero, suc, ◌+◌, ◌*◌, ◌/◌, ◌%◌, ◌^◌, ◌≤◌, ◌<◌, ◌≡◌, refl, ap, arith, ◌⊎◌, inl, inr, List, [],
  ◌∷◌, ◌++◌, some, length, length-append, take, drop, leb, Bool-cases, leb→le,
}
use graffiti_protocol.Script.Commands.{
  Bytes, Command, opcode, push, op_pushdata1, op_pushdata2, op_pushdata4, le2, le4, encode_pushdata,
  serialize, take_push, read_push1, read_push2, read_push4, read_push_or_opcode, deserialize_from,
  deserialize,
}

-- What the reader can tell apart: an opcode that is a byte and no push, and a push that is not empty
-- and whose length four bytes hold.
abbrev pub IsReadable : Command → Type 0
IsReadable (opcode c) = ((c ≡ 0) ⊎ (79 ≤ c)) × (c < 256)
IsReadable (push b) = (1 ≤ length b) × (length b < 2 ^ 32)

abbrev pub AreReadable : List Command → Type 0
AreReadable [] = Unit {0}
AreReadable (c ∷ cmds) = IsReadable c × AreReadable cmds

pub take-append : (b rest : Bytes) → take (length b) (b ++ rest) ≡ b
take-append [] rest = refl
take-append (x ∷ b) rest = ground (arith, take-append b rest)

pub drop-append : (b rest : Bytes) → drop (length b) (b ++ rest) ≡ rest
drop-append [] rest = refl
drop-append (x ∷ b) rest = ground (arith, drop-append b rest)

take_push-append :
    (n : ℕ) (b rest : Bytes) → n ≡ length b → take_push n (b ++ rest) ≡ some (push b, rest)
unfolding take_push
take_push-append n b rest e =
    rw e (ground (arith, take-append b rest, drop-append b rest, length-append b rest))

-- The first byte of an encoded push, and those that follow.
abbrev ReadsBack : Command → Bytes → Bytes → Type 0
ReadsBack cmd code rest =
    (first : ℕ) × (more : Bytes) × (code ≡ first ∷ more)
    × (read_push_or_opcode first (more ++ rest) ≡ some (cmd, rest))

read_small :
    (b rest : Bytes) → 1 ≤ length b → length b ≤ 75 → ReadsBack (push b) (encode_pushdata b) rest
unfolding encode_pushdata read_push_or_opcode
read_small b rest p q =
    (length b, b, ground arith, ground (arith, take_push-append (length b) b rest refl))

read_one :
    (b rest : Bytes) → 75 < length b → length b ≤ 255 → ReadsBack (push b) (encode_pushdata b) rest
unfolding encode_pushdata read_push_or_opcode read_push1
read_one b rest p q = (
  op_pushdata1,
  length b ∷ b,
  ground arith,
  ground (arith, take_push-append (length b) b rest refl),
)

read_two :
    (b rest : Bytes)
    → 255 < length b
    → length b ≤ 65535
    → ReadsBack (push b) (encode_pushdata b) rest
unfolding encode_pushdata read_push_or_opcode read_push2
read_two b rest p q =
    let n = length b in
    (
      op_pushdata2,
      le2 n ++ b,
      ground arith,
      take_push-append (n % 256 + 256 * (n / 256)) b rest (omega arith),
    )

read_four :
    (b rest : Bytes)
    → 65535 < length b
    → length b < 2 ^ 32
    → ReadsBack (push b) (encode_pushdata b) rest
unfolding encode_pushdata read_push_or_opcode read_push4
read_four b rest p q =
    let n = length b in
    (
      op_pushdata4,
      le4 n ++ b,
      ground arith,
      take_push-append
          (n % 256
            + 2 ^ 8 * (n / 2 ^ 8 % 256)
            + 2 ^ 16 * (n / 2 ^ 16 % 256)
            + 2 ^ 24 * (n / 2 ^ 24))
          b rest (omega arith),
    )

push-ReadsBack :
    (b rest : Bytes) → IsReadable (push b) → ReadsBack (push b) (encode_pushdata b) rest
push-ReadsBack b rest (p, q) = elim (Bool-cases (leb (length b) 75)) [
  | inl small ↦ read_small b rest p (leb→le (length b) 75 small)
  | inr big ↦ elim (Bool-cases (leb (length b) 255)) [
    | inl one ↦ read_one b rest (ground arith) (leb→le (length b) 255 one)
    | inr bigger ↦ elim (Bool-cases (leb (length b) 65535)) [
      | inl two ↦ read_two b rest (ground arith) (leb→le (length b) 65535 two)
      | inr four ↦ read_four b rest (ground arith) q
    ]
  ]
]

read_opcode :
    (c : ℕ) (rest : Bytes)
    → IsReadable (opcode c)
    → read_push_or_opcode (c % 256) rest ≡ some (opcode c, rest)
unfolding read_push_or_opcode
read_opcode c rest (inl e, q) = rw e refl
read_opcode c rest (inr p, q) = let small : c % 256 ≡ c = omega arith in rw small (ground arith)

-- One round of the loop.
round_lem :
    (fuel first : ℕ) (more rest : Bytes) (cmd : Command) (cmds : List Command)
    → read_push_or_opcode first (more ++ rest) ≡ some (cmd, rest)
    → deserialize_from fuel rest ≡ some cmds
    → deserialize_from (suc fuel) (first ∷ more ++ rest) ≡ some (cmd ∷ cmds)
unfolding deserialize_from
round_lem fuel first more rest cmd cmds e ih = ground arith

deserialize_from-serialize :
    (cmds : List Command) (fuel : ℕ)
    → AreReadable cmds
    → length (serialize cmds) ≤ fuel
    → deserialize_from fuel (serialize cmds) ≡ some cmds
unfolding serialize
deserialize_from-serialize [] zero r le = unfold deserialize_from in refl
deserialize_from-serialize [] (suc fuel) r le = unfold deserialize_from in refl
deserialize_from-serialize (opcode c ∷ cmds) zero (a, r) le = absurd (ground arith)
deserialize_from-serialize (opcode c ∷ cmds) (suc fuel) (a, r) le =
    round_lem fuel (c % 256) [] (serialize cmds) (opcode c) cmds (read_opcode c (serialize cmds) a)
      (deserialize_from-serialize cmds fuel r (ground arith))
deserialize_from-serialize (push b ∷ cmds) zero (a, r) le =
    let (first, more, e, reads) = push-ReadsBack b (serialize cmds) a in
    absurd (ground (arith, ap (λ (c : Bytes). length (c ++ serialize cmds)) e))
deserialize_from-serialize (push b ∷ cmds) (suc fuel) (a, r) le =
    let (first, more, e, reads) = push-ReadsBack b (serialize cmds) a in
    rw e (
      round_lem fuel first more (serialize cmds) (push b) cmds reads (
        deserialize_from-serialize cmds fuel r (
          ground (
            arith,
            ap (λ (c : Bytes). length (c ++ serialize cmds)) e,
            length-append more (serialize cmds),
          ))))

-- `deserialize` gives back every list of commands that `serialize` writes, if each opcode is 0 or
-- from 79 to 255 and each byte string has at least one byte and less than 2 ^ 32.
pub deserialize-serialize :
    (cmds : List Command) → AreReadable cmds → deserialize (serialize cmds) ≡ some cmds
unfolding deserialize
deserialize-serialize cmds r =
    deserialize_from-serialize cmds (length (serialize cmds)) r (omega arith)
