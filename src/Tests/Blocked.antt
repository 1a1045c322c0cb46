-- ===== src/Tests/Blocked.antt =====
-- src/qpack/state/blocked.rs on two records.
use net_wire_rs.Common.{ℕ, ◌≤◌, true, [], ◌∷◌, ◌≡◌, refl, arith}
use net_wire_rs.Common.Result.{ok}
use net_wire_rs.Qpack.Blocked.{
  QpackBlockedStreams, empty_stream, new, register, register_new, update_first, holds, remove,
}
use net_wire_rs.Qpack.Blocked.Scan.{count}
use net_wire_rs.Qpack.Blocked.Sound.{IsWf, RegisterOutcome, register-RegisterOutcome}
use net_wire_rs.Qpack.Blocked.Removal.{new-blocked_IsWf, RemoveOutcome, remove-RemoveOutcome}

abbrev unused : QpackBlockedStreams
unused = record { records = empty_stream ∷ empty_stream ∷ []; maximum_blocked_streams = 1; len = 0 }

new-unused : new (empty_stream ∷ empty_stream ∷ []) 1 ≡ ok unused
unfolding new
new-unused = refl

unused-IsWf : IsWf unused
unused-IsWf = (new-blocked_IsWf (empty_stream ∷ empty_stream ∷ []) 1 5 unused new-unused).0

abbrev one_stream : QpackBlockedStreams
one_stream = record {
  records =
      record { occupied = true; stream_id = 5; required_insert_count = 9 } ∷ empty_stream ∷ [];
  maximum_blocked_streams = 1;
  len = 1;
}

registered : register unused 5 9 ≡ (one_stream, ok tt)
unfolding register register_new update_first
registered = refl

register-RegisterOutcome_example : RegisterOutcome unused 5 9 (register unused 5 9)
register-RegisterOutcome_example = register-RegisterOutcome unused 5 9 unused-IsWf

once : (j : ℕ) → count (holds j) one_stream.records ≤ 1
unfolding count
once j = ground arith

one_stream-IsWf : IsWf one_stream
one_stream-IsWf = record {
  counted = unfold count in refl;
  capped = omega arith;
  stored = omega arith;
  once = once;
}

remove-RemoveOutcome_example : RemoveOutcome one_stream 5 (remove one_stream 5)
remove-RemoveOutcome_example = remove-RemoveOutcome one_stream 5 one_stream-IsWf
