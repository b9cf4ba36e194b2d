-- ===== src/Consensus/Ledger/Transfer.antt =====
-- Native transfers: what moves, and that nothing is created or lost.
use slura_chain.Base.{
  ℕ, ◌+◌, ◌-◌, ◌<◌, ◌≤◌, ◌≡◌, ◌≢◌, String, ◌==◌, string_eq, if◌then◌else◌, arith, beq_self,
}
use slura_chain.Base.Map.{Map, lookup, lookup_or, insert, total, lookup-insert, total-insert}
use slura_chain.Base.Word.{modulus, wrapping_add}
use slura_chain.Base.Outcome.{ok}
use slura_chain.Consensus.Ledger.{execute_native_transfer}

-- The sum of all balances.
abbrev pub supply : Map String ℕ → ℕ
supply balances = total (λ b. b) balances

lookup_or-insert :
    (k j : String) (v : ℕ) (m : Map String ℕ)
    → lookup_or j 0 (insert k v m) ≡ (if k == j then v else lookup_or j 0 m)
lookup_or-insert k j v m = ground (arith, lookup-insert k j v m)

supply-insert :
    (k : String) (v : ℕ) (m : Map String ℕ) → supply (insert k v m) + lookup_or k 0 m ≡ supply m + v
supply-insert k v m = ground (arith, total-insert (λ b. b) k v m)

-- The balances once the source has been debited.
abbrev debited : String → ℕ → Map String ℕ → Map String ℕ
debited from amount balances = insert from (lookup_or from 0 balances - amount) balances

module _ (from to : String) (amount : ℕ) (balances after : Map String ℕ)
    (done : execute_native_transfer from to amount balances ≡ ok after)
    (room : lookup_or to 0 balances + amount < modulus) where
  covered : amount ≤ lookup_or from 0 balances
  unfolding execute_native_transfer
  covered = ground (arith, done)

  after-eq :
      after
      ≡ insert to
          (wrapping_add (lookup_or to 0 (debited from amount balances)) amount)
          (debited from amount balances)
  unfolding execute_native_transfer
  after-eq = ground (arith, done)

  lookup_or-debited :
      (j : String)
      → lookup_or j 0 (debited from amount balances)
        ≡ (if from == j then lookup_or from 0 balances - amount else lookup_or j 0 balances)
  lookup_or-debited j = lookup_or-insert from j _ balances

  credit :
      wrapping_add (lookup_or to 0 (debited from amount balances)) amount
      ≡ lookup_or to 0 (debited from amount balances) + amount
  credit =
      let r : lookup_or to 0 balances + amount < modulus = room in
      ground (arith, lookup_or-debited to, string_eq.beq_iff from to, covered, r)

  -- A transfer that goes through, into an account with room for the amount, conserves the sum of all
  -- balances, also from an account to
  -- itself and to an account that had no entry.
  pub execute_native_transfer-supply : supply after ≡ supply balances
  execute_native_transfer-supply =
      let first : supply (debited from amount balances) + lookup_or from 0 balances
          ≡ supply balances + (lookup_or from 0 balances - amount) =
        supply-insert from _ balances in
      let second : supply (
              insert to (lookup_or to 0 (debited from amount balances) + amount)
                (debited from amount balances))
            + lookup_or to 0 (debited from amount balances)
          ≡ supply (debited from amount balances)
            + (lookup_or to 0 (debited from amount balances) + amount) =
        supply-insert to _ (debited from amount balances) in
      rw (after-eq, credit) (omega (arith, first, second, covered))

  -- A transfer between two accounts that goes through, into an account with room for the amount,
  -- finds the amount in the source, moves exactly the amount, and touches no third account.
  pub execute_native_transfer_moves :
      (third : String)
      → from ≢ to
      → third ≢ from
      → third ≢ to
      → (amount ≤ lookup_or from 0 balances)
        × (lookup_or from 0 after ≡ lookup_or from 0 balances - amount)
        × (lookup_or to 0 after ≡ lookup_or to 0 balances + amount)
        × (lookup third after ≡ lookup third balances)
  execute_native_transfer_moves third apart f t = (
    covered,
    rw (after-eq, credit)
        (ground (
          arith,
          lookup_or-insert to from (lookup_or to 0 (debited from amount balances) + amount)
              (debited from amount balances),
          lookup_or-debited from,
          string_eq.beq_iff to from,
          beq_self from,
          apart,
        )),
    rw (after-eq, credit)
        (ground (
          arith,
          lookup_or-insert to to (lookup_or to 0 (debited from amount balances) + amount)
              (debited from amount balances),
          lookup_or-debited to,
          string_eq.beq_iff from to,
          beq_self to,
          apart,
        )),
    rw (after-eq, lookup-insert, lookup-insert)
        (ground (arith, string_eq.beq_iff to third, string_eq.beq_iff from third, f, t)),
  )
