-- ===== src/Consensus/Proposer/Steps.antt =====
-- The ways in which a proposer (consensus/proposer.go) ends with a vote: the guards refuse it, or it
-- goes to the collector.
use topia.Base.{ℕ, ◌≡◌, Bool, true, false, ◌=?◌, =?_iff, arith, inl, inr, ◌⊎◌, Bool-cases}
use topia.Base.Words.{add_u64}
use topia.Consensus.Votes.{VoteMessage, DkgBls, VoteCollector}
use topia.Consensus.Proposer.{
  Cache, VotedKey, voted_key, ProposerState, Services, VoteEnd, not_selected, committed_already,
  same_vote, invalid_version, invalid_signature, below_threshold, not_aggregated, no_commit_message,
  committed_meanwhile, not_delivered, delivered, agg_sign_dispose, handle_vote,
}

-- The ends at the guards of the loop.
abbrev pub is_refusal : VoteEnd → Bool
is_refusal not_selected = true
is_refusal committed_already = true
is_refusal same_vote = true
is_refusal invalid_version = true
is_refusal invalid_signature = true
is_refusal below_threshold = false
is_refusal not_aggregated = false
is_refusal no_commit_message = false
is_refusal committed_meanwhile = false
is_refusal not_delivered = false
is_refusal (delivered message) = false

-- The vote is for the next height, with a signature that verifies.
abbrev pub IsValid : VoteCollector → DkgBls → VoteMessage → Type 0
IsValid vc dkg vote =
    (vote.state_version ≡ add_u64 vc.latest_height 1)
    × (dkg.verify vote.block_head vote.signature ≡ true)

module _ {V M : Type 0} where
  abbrev pub recorded : Cache VotedKey V → ProposerState V M → VoteMessage → ProposerState V M
  recorded voted s vote = record s { voted_record = voted.add_key s.voted_record (voted_key vote) }

  -- The state's collector and keys are the same.
  abbrev pub Unmoved : ProposerState V M → ProposerState V M → Type 0
  Unmoved s s' = (s'.collector ≡ s.collector) × (s'.dkg_bls ≡ s.dkg_bls)

module _ {V M : Type 0} (voted : Cache VotedKey V) (committed : Cache ℕ M) (services : Services)
    (s : ProposerState V M) (vote : VoteMessage) where
  pub handle_vote-passes :
      services.self_selected ≡ true
      → committed.contains_key s.commit_msg vote.state_version ≡ false
      → voted.contains_key s.voted_record (voted_key vote) ≡ false
      → (vote.state_version =? add_u64 s.collector.latest_height 1) ≡ true
      → s.dkg_bls.verify vote.block_head vote.signature ≡ true
      → handle_vote voted committed services s vote
        ≡ agg_sign_dispose committed services (recorded voted s vote) vote
  unfolding handle_vote
  handle_vote-passes selected new first right valid = simp (selected, new, first, right, valid)

  pub handled :
      (Unmoved s (handle_vote voted committed services s vote).0
        × (is_refusal (handle_vote voted committed services s vote).1 ≡ true))
      ⊎ (IsValid s.collector s.dkg_bls vote
          × (handle_vote voted committed services s vote
              ≡ agg_sign_dispose committed services (recorded voted s vote) vote))
  unfolding handle_vote
  handled = elim (Bool-cases services.self_selected) [
    | inr out ↦ inl (ground arith)
    | inl selected ↦ elim (Bool-cases (committed.contains_key s.commit_msg vote.state_version)) [
      | inl there ↦ inl (ground arith)
      | inr new ↦ elim (Bool-cases (voted.contains_key s.voted_record (voted_key vote))) [
        | inl again ↦ inl (ground arith)
        | inr first ↦
            elim (Bool-cases (vote.state_version =? add_u64 s.collector.latest_height 1)) [
              | inr wrong ↦ inl (ground arith)
              | inl right ↦ elim (Bool-cases (s.dkg_bls.verify vote.block_head vote.signature)) [
                | inr refused ↦ inl (ground arith)
                | inl valid ↦ inr (
                  ((=?_iff vote.state_version _).0 right, valid),
                  handle_vote-passes selected new first right valid,
                )
              ]
            ]
      ]
    ]
  ]
