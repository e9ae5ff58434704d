-- ===== src/Consensus/Proposer.antt =====
-- What a proposer does with a vote (consensus/proposer.go, the loop of receiveVoteMessageStart and
-- aggSignDisposeWhenRecvVoteMsg). The two LRU caches, from a library, are what they offer. The
-- validator's work on the commit message, and the cancelling of the running proposal, are outside.
pub mod Steps
pub mod Sound
pub mod Refused
pub mod Commits
pub mod Invariant
mod Tests
use topia.Base.{
  ℕ, zero, suc, ◌+◌, ◌*◌, Bool, true, false, Option, none, some, List, [], ◌∷◌, if◌then◌else◌, not,
  ◌=?◌,
}
use topia.Base.Words.{add_u64}
use topia.Base.Bytes.{Bytes}
use topia.Consensus.Votes.{
  VoteMessage, DkgBls, VoteCollector, new_consensus_vote_collector, reset, Aggregated, not_yet,
  recovered, failed, try_aggregate_sign_and_add_vote,
}

-- The fields that produceCommitMsg sets.
pub record CommitMessage : Type 0 where
  pub chain_id : Bytes
  pub version : ℕ
  pub epoch : ℕ
  pub round : ℕ
  pub state_version : ℕ
  pub block_head : Bytes

pub record Cache (K S : Type 0) : Type 0 where
  pub contains_key : S → K → Bool
  pub add_key : S → K → S

-- StateVersion@Voter: the digits of the version hold no @, so the pair stands for the text.
abbrev pub VotedKey : Type 0
VotedKey = ℕ × Bytes

abbrev pub voted_key : VoteMessage → VotedKey
voted_key vote = (vote.state_version, vote.voter)

pub record ProposerState (V M : Type 0) : Type 0 where
  pub collector : VoteCollector
  pub dkg_bls : DkgBls
  pub voted_record : V
  pub commit_msg : M

-- What a vote meets: whether the node is selected, the head with the signature put into it (which
-- decodes and encodes the head), and whether a commit message is delivered.
pub record Services : Type 0 where
  pub self_selected : Bool
  pub with_agg_sign : Bytes → Bytes → Option Bytes
  pub deliver : CommitMessage → Bool

pub data VoteEnd : Type 0 where
  not_selected : VoteEnd
  committed_already : VoteEnd
  same_vote : VoteEnd
  invalid_version : VoteEnd
  invalid_signature : VoteEnd
  below_threshold : VoteEnd
  not_aggregated : VoteEnd
  no_commit_message : VoteEnd
  committed_meanwhile : VoteEnd
  not_delivered : VoteEnd
  delivered : CommitMessage → VoteEnd

abbrev pub commit_message : VoteMessage → Option Bytes → Option CommitMessage
commit_message vote none = none
commit_message vote (some head) = some record {
  chain_id = vote.chain_id;
  version = vote.version;
  epoch = vote.epoch;
  round = vote.round;
  state_version = vote.state_version;
  block_head = head;
}

abbrev pub produce_commit_msg : Services → VoteMessage → Bytes → Option CommitMessage
produce_commit_msg services vote agg_sign =
    commit_message vote (services.with_agg_sign vote.block_head agg_sign)

module _ {V M : Type 0} where
  abbrev pub with_collector : ProposerState V M → VoteCollector → ProposerState V M
  with_collector s collector = record s { collector = collector }

  -- A node that proposes on a block starts a collector for it.
  abbrev pub start_collector : ProposerState V M → ℕ → ProposerState V M
  start_collector s height = with_collector s (new_consensus_vote_collector height s.dkg_bls)

  -- The votes are taken back where no error was returned.
  abbrev pub commit :
      Cache ℕ M → Services → ProposerState V M → Option CommitMessage → ProposerState V M × VoteEnd
  commit committed services s none = (s, no_commit_message)
  commit committed services s (some message) =
      if committed.contains_key s.commit_msg message.state_version
      then (with_collector s (reset s.collector), committed_meanwhile)
      else let s' = record s {
        commit_msg = committed.add_key s.commit_msg message.state_version;
      } in
        if services.deliver message
        then (with_collector s' (reset s.collector), delivered message)
        else (s', not_delivered)

  abbrev pub dispose :
      Cache ℕ M
      → Services
      → ProposerState V M
      → VoteMessage
      → Aggregated
      → ProposerState V M × VoteEnd
  dispose committed services s vote not_yet = (s, below_threshold)
  dispose committed services s vote failed = (s, not_aggregated)
  dispose committed services s vote (recovered agg_sign) =
      commit committed services s (produce_commit_msg services vote agg_sign)

  unfoldable pub agg_sign_dispose :
      Cache ℕ M → Services → ProposerState V M → VoteMessage → ProposerState V M × VoteEnd
  agg_sign_dispose committed services s vote =
      let (collector, agg) = try_aggregate_sign_and_add_vote s.collector vote in
      dispose committed services (with_collector s collector) vote agg

  unfoldable pub handle_vote :
      Cache VotedKey V
      → Cache ℕ M
      → Services
      → ProposerState V M
      → VoteMessage
      → ProposerState V M × VoteEnd
  handle_vote voted committed services s vote =
      if not services.self_selected
      then (s, not_selected)
      else if committed.contains_key s.commit_msg vote.state_version
      then (s, committed_already)
      else if voted.contains_key s.voted_record (voted_key vote)
      then (s, same_vote)
      else let s' = record s { voted_record = voted.add_key s.voted_record (voted_key vote) } in
        if not (vote.state_version =? add_u64 s.collector.latest_height 1)
        then (s', invalid_version)
        else if not (s.dkg_bls.verify vote.block_head vote.signature)
        then (s', invalid_signature)
        else agg_sign_dispose committed services s' vote
