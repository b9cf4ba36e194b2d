-- ===== src/Committee.antt =====
-- crates/vuc-types/src/committee.rs: the committee of an epoch.
pub mod Weights
use slura_chain.Base.{ℕ, String, Bool, Option, [], length, string_eq, ◌==◌, nat_eq}
use slura_chain.Base.Map.{Map, lookup, insert, values}
use slura_chain.Base.Word.{saturating_add, wrapping_sum}

pub record Committee : Type 0 where
  pub epoch_id : ℕ
  pub members : Map String ℕ

unfoldable pub new_committee : ℕ → Committee
new_committee epoch_id = record { epoch_id = epoch_id; members = [] }

unfoldable pub add_member : String → ℕ → Committee → Committee
add_member member_id weight c = record c { members = insert member_id weight c.members }

unfoldable pub get_member_weight : String → Committee → Option ℕ
get_member_weight member_id c = lookup member_id c.members

-- `sum` of a `u64` iterator, with the wrap-around of a release build.
unfoldable pub total_weight : Committee → ℕ
total_weight c = wrapping_sum (λ n. n) (values c.members)

unfoldable pub is_empty : Committee → Bool
is_empty c = length c.members == 0

unfoldable pub len : Committee → ℕ
len c = length c.members

unfoldable pub next_epoch : Committee → Committee
next_epoch c = record c { epoch_id = saturating_add c.epoch_id 1 }
