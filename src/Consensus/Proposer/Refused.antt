-- ===== src/Consensus/Proposer/Refused.antt =====
-- Votes that a proposer (consensus/proposer.go) no longer takes.
use topia.Base.{
  ℕ, ◌≡◌, ◌≢◌, refl, sym, ap, ◌∙◌, true, false, Option, none, some, ◌=?◌, arith, inl, inr,
  Bool-cases,
}
use topia.Base.Words.{add_u64}
use topia.Base.Bytes.{Bytes}
use topia.Consensus.Votes.{
  VoteMessage, Aggregated, not_yet, recovered, failed, try_aggregate_sign_and_add_vote,
}
use topia.Consensus.Proposer.{
  Cache, VotedKey, voted_key, ProposerState, Services, VoteEnd, committed_already, same_vote,
  invalid_signature, not_delivered, CommitMessage, commit_message, with_collector,
  produce_commit_msg, commit, dispose, agg_sign_dispose, handle_vote,
}
use topia.Consensus.Proposer.Steps.{recorded, handle_vote-passes, handled}

-- A key that was added is there.
abbrev pub Keeps : {K S : Type 0} → Cache K S → Type 0
Keeps cache = (s : _) (k : _) → cache.contains_key (cache.add_key s k) k ≡ true

module _ {V M : Type 0} where
  -- A vote that passed the tests does not end as one that was refused for its signature.
  abbrev NotRefused : ProposerState V M × VoteEnd → Type 0
  NotRefused r = r.1 ≢ invalid_signature

  commit-NotRefused :
      (committed : Cache ℕ M) (services : Services) (s : ProposerState V M)
      (message : Option CommitMessage)
      → NotRefused (commit committed services s message)
  commit-NotRefused committed services s none = ground arith
  commit-NotRefused committed services s (some message) =
      elim (Bool-cases (committed.contains_key s.commit_msg message.state_version)) [
        | inl there ↦ ground arith
        | inr new ↦ elim (Bool-cases (services.deliver message)) [
          | inl sent ↦ ground arith
          | inr lost ↦ ground arith
        ]
      ]

  dispose-NotRefused :
      (committed : Cache ℕ M) (services : Services) (s : ProposerState V M) (vote : VoteMessage)
      (agg : Aggregated)
      → NotRefused (dispose committed services s vote agg)
  dispose-NotRefused committed services s vote not_yet = ground arith
  dispose-NotRefused committed services s vote failed = ground arith
  dispose-NotRefused committed services s vote (recovered agg_sign) =
      commit-NotRefused committed services s (produce_commit_msg services vote agg_sign)

  agg_sign_dispose-NotRefused :
      (committed : Cache ℕ M) (services : Services) (s : ProposerState V M) (vote : VoteMessage)
      → NotRefused (agg_sign_dispose committed services s vote)
  unfolding agg_sign_dispose
  agg_sign_dispose-NotRefused committed services s vote =
      dispose-NotRefused committed services _ vote
        (try_aggregate_sign_and_add_vote s.collector vote).1

module _ {V M : Type 0} (voted : Cache VotedKey V) (committed : Cache ℕ M) where
  invalid_signature_lem :
      (services : Services) (s s' : ProposerState V M) (vote : VoteMessage)
      → handle_vote voted committed services s vote ≡ (s', invalid_signature)
      → (committed.contains_key s.commit_msg vote.state_version ≡ false)
        × (s' ≡ recorded voted s vote)
  unfolding handle_vote
  invalid_signature_lem services s s' vote e = elim (Bool-cases services.self_selected) [
    | inr out ↦ ground arith
    | inl selected ↦ elim (Bool-cases (committed.contains_key s.commit_msg vote.state_version)) [
      | inl there ↦ ground arith
      | inr new ↦ elim (Bool-cases (voted.contains_key s.voted_record (voted_key vote))) [
        | inl again ↦ ground arith
        | inr first ↦
            elim (Bool-cases (vote.state_version =? add_u64 s.collector.latest_height 1)) [
              | inr wrong ↦ ground arith
              | inl right ↦ elim (Bool-cases (s.dkg_bls.verify vote.block_head vote.signature)) [
                | inr refused ↦ (new, ground arith)
                | inl valid ↦
                    let passes =
                      handle_vote-passes voted committed services s vote selected new first right
                        valid in
                    absurd (
                      agg_sign_dispose-NotRefused committed services (recorded voted s vote) vote
                        (ap (λ (r : ProposerState V M × VoteEnd). r.1) (sym passes ∙ e)))
              ]
            ]
      ]
    ]
  ]

module _ {V M : Type 0} (voted : Cache VotedKey V) (committed : Cache ℕ M) where
  -- A vote that was refused for its signature stands in the record all the same: if the cache keeps a
  -- key that was added and the node is selected, the next vote with its version and its voter, whoever
  -- sent it and whatever its signature, is refused as the same.
  pub handle_vote-shadowed :
      (services later : Services) (s s' : ProposerState V M) (forged genuine : VoteMessage)
      → Keeps voted
      → later.self_selected ≡ true
      → handle_vote voted committed services s forged ≡ (s', invalid_signature)
      → genuine.state_version ≡ forged.state_version
      → genuine.voter ≡ forged.voter
      → handle_vote voted committed later s' genuine ≡ (s', same_vote)
  unfolding handle_vote
  handle_vote-shadowed services later s s' forged genuine keeps selected e same_version same_voter =
      let (new, after) =
        invalid_signature_lem {V = V} {M = M} voted committed services s s' forged e in
      let new' : committed.contains_key s'.commit_msg genuine.state_version ≡ false =
        (λ k. committed.contains_key (after k).commit_msg (same_version k)) ∙ new in
      let there : voted.contains_key s'.voted_record (voted_key genuine) ≡ true =
        (λ k. voted.contains_key (after k).voted_record (same_version k, same_voter k))
        ∙ keeps s.voted_record (voted_key forged) in
      rw (selected, new', there) refl

module _ {V M : Type 0} (committed : Cache ℕ M) where
  -- A commit message that was not delivered is in the record.
  abbrev Noted : ℕ → ProposerState V M × VoteEnd → Type 0
  Noted version r = r.1 ≡ not_delivered → committed.contains_key (r.0).commit_msg version ≡ true

  commit-Noted :
      (services : Services) (s : ProposerState V M) (vote : VoteMessage) (head : Option Bytes)
      → Keeps committed
      → Noted vote.state_version (commit committed services s (commit_message vote head))
  commit-Noted services s vote none keeps = ground arith
  commit-Noted services s vote (some head) keeps =
      elim (Bool-cases (committed.contains_key s.commit_msg vote.state_version)) [
        | inl there ↦ ground arith
        | inr new ↦ ground (arith, keeps s.commit_msg vote.state_version)
      ]

  agg_sign_dispose-Noted :
      (services : Services) (s : ProposerState V M) (vote : VoteMessage)
      → Keeps committed
      → Noted vote.state_version (agg_sign_dispose committed services s vote)
  unfolding agg_sign_dispose
  agg_sign_dispose-Noted services s vote keeps =
      dispose-Noted (try_aggregate_sign_and_add_vote s.collector vote).1
    where
      dispose-Noted :
          (agg : Aggregated)
          → Noted vote.state_version (
              dispose committed services
                (with_collector s (try_aggregate_sign_and_add_vote s.collector vote).0)
                vote
                agg)
      dispose-Noted not_yet = ground arith
      dispose-Noted failed = ground arith
      dispose-Noted (recovered agg_sign) =
          commit-Noted services _ vote (services.with_agg_sign vote.block_head agg_sign) keeps

module _ {V M : Type 0} (voted : Cache VotedKey V) (committed : Cache ℕ M) where
  not_delivered_lem :
      (services : Services) (s : ProposerState V M) (vote : VoteMessage)
      → Keeps committed
      → Noted committed vote.state_version (handle_vote voted committed services s vote)
  not_delivered_lem services s vote keeps end = elim (handled voted committed services s vote) [
    | inl (same, refusal) ↦ ground arith
    | inr (valid, passes) ↦
        (λ k. committed.contains_key (passes k).0.commit_msg vote.state_version)
        ∙ agg_sign_dispose-Noted committed services (recorded voted s vote) vote keeps
            (ap (λ (r : ProposerState V M × VoteEnd). r.1) (sym passes) ∙ end)
  ]

  -- A commit message that could not be delivered is not sent again: if the cache keeps a version that
  -- was added and the node is selected, the next vote for it is refused as committed and the state
  -- stays as it is, so that the same holds of the vote after it.
  pub handle_vote-lost :
      (services later : Services) (s s' : ProposerState V M) (vote next : VoteMessage)
      → Keeps committed
      → later.self_selected ≡ true
      → handle_vote voted committed services s vote ≡ (s', not_delivered)
      → next.state_version ≡ vote.state_version
      → handle_vote voted committed later s' next ≡ (s', committed_already)
  unfolding handle_vote
  handle_vote-lost services later s s' vote next keeps selected e same_version =
      let noted =
        not_delivered_lem services s vote keeps (ap (λ (r : ProposerState V M × VoteEnd). r.1) e) in
      let there : committed.contains_key s'.commit_msg next.state_version ≡ true =
        (λ k. committed.contains_key (sym e k).0.commit_msg (same_version k)) ∙ noted in
      rw (selected, there) refl
