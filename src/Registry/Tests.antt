-- ===== src/Registry/Tests.antt =====
-- A thread of one comment, written.
use graffiti_protocol.Base.{refl, arith, [], ◌∷◌}
use graffiti_protocol.Registry.Data.{Comment, Threads, Registry, flush}
use graffiti_protocol.Registry.Written.{IsCounted, IsWritten, flush-IsWritten}

abbrev nothing : {A : Type 0} → Threads A
nothing = record { lists = []; counts = []; disk = [] }

abbrev empty : Registry
empty = record {
  posts = [];
  stored_posts = [];
  disk_posts = [];
  comments = nothing;
  payouts = nothing;
  proofs = nothing;
}

abbrev comment : Comment
comment = record {
  txid = 5;
  block_height = 3;
  comment = 7;
  commenter = 8;
  amount = 90;
  tip = 10;
  creator_paid = 60;
  storage_paid = 30;
  ts = 11;
}

-- The disk still holds two comments of an art id whose list is shorter now.
abbrev shrunk : Registry
shrunk = record empty {
  comments = record {
    lists = (1, comment ∷ []) ∷ [];
    counts = (1, 2) ∷ [];
    disk = ((1, 0), comment) ∷ ((1, 1), comment) ∷ [];
  };
}

shrunk-IsCounted : IsCounted shrunk.comments
shrunk-IsCounted a i past = ground arith

nothing-IsCounted : {A : Type 0} → IsCounted (nothing {A = A})
nothing-IsCounted a i past = refl

flush-IsWritten_example :
    (IsWritten (flush shrunk).comments shrunk.comments.lists × IsCounted (flush shrunk).comments)
    × (IsWritten (flush shrunk).payouts [] × IsCounted (flush shrunk).payouts)
    × (IsWritten (flush shrunk).proofs [] × IsCounted (flush shrunk).proofs)
flush-IsWritten_example =
    flush-IsWritten shrunk shrunk-IsCounted nothing-IsCounted nothing-IsCounted
