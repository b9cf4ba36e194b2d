-- ===== src/Tests/Others.antt =====
-- The ring buffer, the committee and the stakes at concrete inputs.
use slura_chain.Base.{ℕ, ◌+◌, ◌*◌, ◌≡◌, refl, some, List, [], ◌∷◌, arith, string_eq}
use slura_chain.Governance.{
  SlurachainGovernance, call_gov, stake_vez, unstake_vez, get_locked_amount,
}
use slura_chain.Governance.Stakes.{unstake_vez-stake_vez}
use slura_chain.Tests.Fixtures.{toy}
use slura_chain.Ipc.Ring.{SharedRingBuffer, index, write_bytes, length_bytes, push}
use slura_chain.Ipc.Frames.{read_bytes, unread, push_frame, push_keeps_unread}
use slura_chain.Committee.{Committee}

-- Close to the wrap-around of the counters, with two unread bytes.
abbrev ring : SharedRingBuffer
ring = record { head = 18446744073709551615; tail = 18446744073709551613; buffer = λ _. 0 }

abbrev message : List ℕ
message = 7 ∷ 8 ∷ 9 ∷ []

push_frame_example :
    (r' : SharedRingBuffer) × (push message ring ≡ some r')
    × (r'.buffer (index ring.head 0) + 256 * r'.buffer (index ring.head 1) ≡ 3)
    × (read_bytes ring.head 2 3 r'.buffer ≡ message)
    × (unread r' ≡ unread ring + (3 + 2))
push_frame_example = push_frame message ring (omega arith) (omega arith) (omega arith)

abbrev pushed : SharedRingBuffer
pushed = record {
  head = 4;
  tail = 18446744073709551613;
  buffer = write_bytes ring.head 2 message (write_bytes ring.head 0 (length_bytes 3) (λ _. 0));
}

push_keeps_unread_example : pushed.buffer (index ring.tail 1) ≡ ring.buffer (index ring.tail 1)
unfolding push
push_keeps_unread_example =
    push_keeps_unread message ring pushed 1 (omega arith) (omega arith) (omega arith) refl
      (omega arith)

abbrev members : Committee
members = record { epoch_id = 4; members = ("alice", 10) ∷ ("bob", 5) ∷ [] }

abbrev stakes : SlurachainGovernance
stakes = record {
  vez_stacking_locked = 5;
  vez_stacking_unlocked = 40;
  vez_stacking_totalvalue = 0;
  vez_stacking_allocated = 0;
  account_address = "alice";
}

unstake_vez-stake_vez_example :
    let g' = (unstake_vez toy 30 (stake_vez toy 30 stakes 0).1 1).1 in
    (get_locked_amount g' ≡ get_locked_amount stakes) × (g'.vez_stacking_unlocked ≡ 40)
unfolding stake_vez unstake_vez call_gov
unstake_vez-stake_vez_example =
    unstake_vez-stake_vez toy 30 stakes 0 1 refl refl (omega arith) (omega arith)
