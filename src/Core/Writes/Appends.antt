-- ===== src/Core/Writes/Appends.antt =====
-- The answers of `append` stand by their claims.
use switchstand.Core.Writes.AppendClaims.{AppendClaim, appends}
use switchstand.Core.Writes.Append.{AppendResult, WorkAppendRequest}
use switchstand.Base.{string_eq, err, ok, ℕ}
use switchstand.Core.{Outcome, World}

-- the claim of an answer that is returned
abbrev ReturnAppendClaim : World → WorkAppendRequest → ℕ → Outcome AppendResult → Type 0
ReturnAppendClaim w r sent (after, ok x) =
    AppendClaim w r sent (appends after) x.status x.task_gid x.story_gid
ReturnAppendClaim w r sent (after, err e) = Unit
