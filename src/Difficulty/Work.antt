-- ===== src/Difficulty/Work.antt =====
-- The work of a chain: `_work_from_bits` and `_compute_chainwork_for_chain`, which also writes the
-- running sum to each block.
use graffiti_protocol.Base.{ℕ, ◌+◌, ◌/◌, ◌^◌, List, [], ◌∷◌, some, eqb, if◌then◌else◌}
use graffiti_protocol.Ledger.{Block}
use graffiti_protocol.Compact.{bits_to_target}

unfoldable pub work_from_bits : ℕ → ℕ
work_from_bits bits =
    let target = bits_to_target bits in if eqb target 0 then 0 else 2 ^ 256 / (target + 1)

unfoldable pub chainwork_from : ℕ → List Block → ℕ × List Block
chainwork_from cw [] = (cw, [])
chainwork_from cw (b ∷ bs) =
    let cw' = cw + work_from_bits b.bits in
    let rest = chainwork_from cw' bs in (rest.0, record b { chainwork = some cw' } ∷ rest.1)

unfoldable pub compute_chainwork_for_chain : List Block → ℕ × List Block
compute_chainwork_for_chain = chainwork_from 0
