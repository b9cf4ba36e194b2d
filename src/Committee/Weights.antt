-- ===== src/Committee/Weights.antt =====
-- The weights of a committee through its operations.
use slura_chain.Base.{
  ℕ, ◌+◌, ◌<◌, ◌≡◌, refl, String, Option, none, some, ◌==◌, string_eq, sum_by, if◌then◌else◌, arith,
}
use slura_chain.Base.Map.{insert, values, sum_by-values, total-insert, lookup-insert}
use slura_chain.Base.Word.{modulus, wrapping_sum-fits}
use slura_chain.Committee.{Committee, add_member, get_member_weight, total_weight, next_epoch}

-- The exact sum of the weights.
abbrev pub exact_weight : Committee → ℕ
exact_weight c = sum_by (λ n. n) (values c.members)

-- The weight of a member that is not there counts as 0.
abbrev pub weight_or_zero : Option ℕ → ℕ
weight_or_zero none = 0
weight_or_zero (some weight) = weight

-- While the exact sums before and after fit 64 bits, adding a member or changing its weight
-- replaces its old weight in the total by the new one, and the next epoch has the same total.
pub total_weight-add_member :
    (member_id : String) (weight : ℕ) (c : Committee)
    → exact_weight c < modulus
    → exact_weight (add_member member_id weight c) < modulus
    → (total_weight (add_member member_id weight c) + weight_or_zero (get_member_weight member_id c)
        ≡ total_weight c + weight)
      × (total_weight (next_epoch (add_member member_id weight c))
          ≡ total_weight (add_member member_id weight c))
unfolding total_weight add_member get_member_weight next_epoch
total_weight-add_member member_id weight c fits fits' = (
  ground (
    arith,
    wrapping_sum-fits (λ n. n) (values c.members) fits,
    wrapping_sum-fits (λ n. n) (values (insert member_id weight c.members)) fits',
    sum_by-values (λ n. n) c.members,
    sum_by-values (λ n. n) (insert member_id weight c.members),
    total-insert (λ n. n) member_id weight c.members,
  ),
  refl,
)

-- After members are added in two calls, the later call decides the weight of its member, and
-- every other member's weight is as the first call left it.
pub get_member_weight-add_member :
    (first second asked : String) (w v : ℕ) (c : Committee)
    → get_member_weight asked (add_member second v (add_member first w c)) ≡ (
        if second == asked
        then some v
        else (if first == asked then some w else get_member_weight asked c))
unfolding add_member get_member_weight
get_member_weight-add_member first second asked w v c = ground (
  arith,
  lookup-insert second asked v (insert first w c.members),
  lookup-insert first asked w c.members,
)
