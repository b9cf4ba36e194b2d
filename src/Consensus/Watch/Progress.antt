-- ===== src/Consensus/Watch/Progress.antt =====
-- When a round makes its blocks, and when it passes over Bitcoin heights without one.
use Prim.Native.Nat.{min}
use slura_chain.Base.{
  ℕ, zero, suc, ◌+◌, ◌-◌, ◌*◌, ◌<◌, ◌≡◌, refl, ap, ◌∙◌, String, some, List, [], ◌∷◌, ◌++◌, length,
  length-append, arith, ltb, leb, Bool, true, false, Bool-cases, inl, inr, ◌⊎◌, ◌≤◌, lt→ltb, ◌==◌,
  string_eq,
}
use slura_chain.Base.Word.{modulus, wrapping_add}
use slura_chain.Base.Text.{join}
use slura_chain.Base.Outcome.{Result, ok, err}
use slura_chain.Bridge.{Rpc}
use slura_chain.Consensus.Types.{
  TimestampRelease, BlockData, Document, Error, waiting, block_channel_size,
  lurosonie_system_validator, Env, Manager,
}
use slura_chain.Consensus.Power.{calculate_relay_powers}
use slura_chain.Consensus.Power.Gate.{power_sum, calculate_relay_powers_idem}
use slura_chain.Consensus.Chain.{chain_document_of, digest, get_block_height}
use slura_chain.Consensus.Produce.Outcome.{
  powered, gate_power, produce_closed, produce_open, produce_full,
}
use slura_chain.Consensus.Watch.{
  goes_on, check_and_save, remembered, process_height, process_heights, consensus_round,
  get_blockcount_from_bridge,
}
use slura_chain.Consensus.Watch.Round.{
  Core, core, producer_of, produced, next_block, core-process_height,
}
use slura_chain.Consensus.Produce.Block.{produce-powers}

module _ (E : Env) where
  -- Two managers with the same core have the same power at the gate.
  core_power : Core E → ℕ
  core_power c = power_sum (calculate_relay_powers c.2 c.3).0

  gate_power-powered : (m : Manager E) → gate_power E (powered E m) ≡ gate_power E m
  gate_power-powered m =
      ap (λ v. power_sum v) (calculate_relay_powers_idem m.delegations m.relay_validators)

  abbrev goes_on_reply : Result Unit Error → Bool
  goes_on_reply (ok done) = true
  goes_on_reply (err e) = goes_on E e

  process_height_closed :
      (rpc : Rpc) (now height : ℕ) (m : Manager E)
      → gate_power E m ≡ 0
      → (core E (process_height E rpc now height m).1 ≡ core E (powered E m))
        × ((process_height E rpc now height m).0 ≡ true)
  unfolding process_height
  process_height_closed rpc now height m closed =
      let (total, threshold, failed) = produce_closed E rpc now _ _ _ height m closed in
      (
        core-process_height E rpc now height m ∙ ap (λ r. core E r.1) failed,
        ap (λ r. (check_and_save E (wrapping_add (get_block_height E m) 1) height r).0) failed,
      )

  -- With no power at the gate, no height of a round makes a block.
  pub process_heights_closed :
      (node : ℕ → Rpc) (clock : ℕ → ℕ) (count height : ℕ) (m : Manager E)
      → gate_power E m ≡ 0
      → let (goes, m') = process_heights E node clock count height m in
        (goes ≡ true) × (m'.slurachain_data ≡ m.slurachain_data)
  unfolding process_heights core_power
  process_heights_closed node clock zero height m closed = (refl, refl)
  process_heights_closed node clock (suc count) height m closed =
      let m1 = (process_height E (node (height + 1)) (clock (height + 1)) (height + 1) m).1 in
      let (same, on) =
        process_height_closed (node (height + 1)) (clock (height + 1)) (height + 1) m closed in
      let (goes, chain) =
        process_heights_closed node clock count (height + 1) m1
          (ap core_power same ∙ gate_power-powered m ∙ closed) in
      rw on (goes, chain ∙ ap (λ (c : Core E). c.0) same)

  -- A round in which the node reports a height above the remembered one, while the gate has no
  -- power, moves the remembered height there and makes no block.
  pub consensus_round_closed :
      (rpc : Rpc) (node : ℕ → Rpc) (clock : ℕ → ℕ) (last_processed current : ℕ) (m : Manager E)
      → get_blockcount_from_bridge E rpc m ≡ ok current
      → last_processed < current
      → gate_power E m ≡ 0
      → let (remembered, m') = consensus_round E rpc node clock last_processed m in
        (remembered ≡ some current) × (m'.slurachain_data ≡ m.slurachain_data)
  unfolding consensus_round
  consensus_round_closed rpc node clock last_processed current m reply newer closed =
      let (goes, chain) =
        process_heights_closed node clock (current - last_processed) last_processed m closed in
      rw (reply, lt→ltb last_processed current newer) (rw (goes, remembered) refl, chain)

  answered :
      (n height : ℕ) (r : Result Unit Error × Manager E)
      → r.0 ≡ ok tt
      → (check_and_save E n height r).0 ≡ true
  answered n height (ok done, m) e = refl
  answered n height (err x, m) e = cc e

  waited :
      (n height : ℕ) (r : Result Unit Error × Manager E)
      → r.0 ≡ err waiting
      → (check_and_save E n height r).0 ≡ false
  waited n height (ok done, m) e = cc e
  waited n height (err x, m) e = ap goes_on_reply e

  module _ (to_string_total : (doc : Document) → (text : String) × (E.to_string doc ≡ some text))
      (encode_block_total : (b : BlockData)
        → (text : String) × (E.encode_block b ≡ some text)) where
    digest_total : (doc : Document) → (hash : String) × (digest E doc ≡ some hash)
    digest_total doc =
        let (text, e) = to_string_total doc in (join "0x" (E.sha3_hex text), rw (e, digest) refl)

    -- The blocks that were sent, and whether the loop goes on, after a block at the gate.
    process_height_open :
        (rpc : Rpc) (now height : ℕ) (m : Manager E)
        → 0 < gate_power E m
        → 2 * gate_power E m < modulus
        → length m.block_sender ≤ block_channel_size
        → let (on, m') = process_height E rpc now height m in
          (length m'.slurachain_data ≡ length m.slurachain_data + 1)
          × (gate_power E m' ≡ gate_power E m)
          × (((on ≡ true)
                × (length m'.block_sender ≡ length m.block_sender + 1)
                × (length m.block_sender < block_channel_size))
              ⊎ ((on ≡ false) × (length m.block_sender ≡ block_channel_size)))
    unfolding core_power process_height
    process_height_open rpc now height m opened fits bound =
        let b = next_block E rpc now height m in
        let number = wrapping_add (get_block_height E m) 1 in
        let (hash, hashed) = digest_total (chain_document_of b) in
        let (encoded, coded) = encode_block_total b in
        let (delegations, validators) =
          produce-powers E rpc now number (producer_of E m)
            (producer_of E m == lurosonie_system_validator) height m in
        let same : core E (process_height E rpc now height m).1
            ≡ core E (produced E rpc now height m).1 =
          core-process_height E rpc now height m in
        let power : gate_power E (process_height E rpc now height m).1 ≡ gate_power E m =
          ap core_power same ∙ rw (delegations, validators) refl ∙ gate_power-powered m in
        let longer : (produced E rpc now height m).1.slurachain_data ≡ m.slurachain_data ++ b ∷ []
            → length (process_height E rpc now height m).1.slurachain_data
              ≡ length m.slurachain_data + 1 =
          λ chain.
            ap (λ (c : Core E). length c.0) same
            ∙ ap (λ (bs : List BlockData). length bs) chain
            ∙ omega (arith, length-append {0} m.slurachain_data (b ∷ [])) in
        elim (Bool-cases (ltb (length m.block_sender) block_channel_size)) [
          | inl room ↦
              let (answer, chain, taken, last, sent, left) =
                produce_open E rpc now number (producer_of E m)
                  (producer_of E m == lurosonie_system_validator) height m hash encoded opened fits
                  hashed coded (ground (arith, room)) in
              (
                longer chain,
                power,
                inl (
                  answered number height (produced E rpc now height m) answer,
                  ap (λ (c : Core E). length c.5) same
                      ∙ ap (λ (bs : List TimestampRelease). length bs) sent
                      ∙ omega (arith, length-append {0} m.block_sender (b.block ∷ [])),
                  ground (arith, room),
                ),
              )
          | inr full ↦
              let (answer, chain, last, sent, left) =
                produce_full E rpc now number (producer_of E m)
                  (producer_of E m == lurosonie_system_validator) height m hash encoded opened fits
                  hashed coded (ground (arith, full)) in
              (
                longer chain,
                power,
                inr (
                  waited number height (produced E rpc now height m) answer,
                  ground (arith, full),
                ),
              )
        ]

    -- With power at the gate that is twice below 2^64, where every document and every block can be
    -- written, and with at most 100 blocks sent before, a round makes one block for each of its
    -- Bitcoin heights, up to and with the 101st block of the process; it comes to its end exactly
    -- when all its blocks are among the first 100, and waits for ever otherwise.
    pub process_heights_open :
        (node : ℕ → Rpc) (clock : ℕ → ℕ) (count height : ℕ) (m : Manager E)
        → 0 < gate_power E m
        → 2 * gate_power E m < modulus
        → length m.block_sender ≤ block_channel_size
        → let (ends, m') = process_heights E node clock count height m in
          (length m'.slurachain_data
            ≡ length m.slurachain_data + min count (block_channel_size - length m.block_sender + 1))
          × (ends ≡ leb (length m.block_sender + count) block_channel_size)
    unfolding process_heights
    process_heights_open node clock zero height m opened fits bound = (omega arith, ground arith)
    process_heights_open node clock (suc count) height m opened fits bound =
        let m1 = (process_height E (node (height + 1)) (clock (height + 1)) (height + 1) m).1 in
        let (longer, same, end) =
          process_height_open (node (height + 1)) (clock (height + 1)) (height + 1) m opened fits
            bound in
        elim end [
          | inl (on, sent, room) ↦
              let (rest, ends) =
                process_heights_open node clock count (height + 1) m1 (omega (arith, same))
                  (omega (arith, same)) (omega (arith, sent, room)) in
              rw on (omega (arith, rest, longer, sent, room), ends ∙ ground (arith, sent))
          | inr (stopped, full) ↦ rw stopped (omega (arith, longer, full), ground (arith, full))
        ]
