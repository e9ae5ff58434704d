-- ===== src/Consensus/Proposer/Tests.antt =====
-- Runs of a proposer and its votes (consensus/proposer.go, vote_collector.go): a key of threshold two,
-- for which a signature of two bytes verifies, and caches that keep all.
use topia.Base.{
  ℕ, ◌≡◌, refl, ap, ◌∙◌, Bool, true, false, Option, none, some, List, [], ◌∷◌, ◌=?◌, length, arith,
  ◌++◌, ◌&&◌, ◌||◌,
}
use topia.Base.Eq.{◌==◌, ==_refl, nat_eq}
use topia.Base.Bytes.{Bytes, bytes_eq}
use topia.Consensus.Votes.{
  VoteMessage, DkgBls, new_consensus_vote_collector, try_aggregate_sign_and_add_vote,
}
use topia.Consensus.Votes.Collected.{collected, agreeing, answer, collected-answer}
use topia.Consensus.Proposer.{
  Cache, VotedKey, voted_key, CommitMessage, ProposerState, Services, VoteEnd, same_vote,
  committed_already, invalid_signature, not_delivered, delivered, start_collector, handle_vote,
}
use topia.Consensus.Proposer.Sound.{IsSoundCollector}
use topia.Consensus.Proposer.Commits.{Backed, handle_vote-Backed}
use topia.Consensus.Proposer.Invariant.{handle_votes, handle_votes-IsSound}
use topia.Consensus.Proposer.Refused.{Keeps, handle_vote-shadowed, handle_vote-lost}

abbrev dkg : DkgBls
dkg = record {
  threshold = 2;
  verify = λ head sig. length sig =? 2;
  recover_sig = λ head sigs. some (9 ∷ []);
}

abbrev vote_of : ℕ → Bytes → Bytes → VoteMessage
vote_of voter head sig = record {
  chain_id = [];
  version = 1;
  epoch = 0;
  round = 0;
  signature = sig;
  voter = voter ∷ [];
  pub_key = [];
  state_version = 8;
  block_head = head;
}

abbrev first : VoteMessage
first = vote_of 1 (5 ∷ []) (1 ∷ 1 ∷ [])

abbrev second : VoteMessage
second = vote_of 2 (5 ∷ []) (2 ∷ 2 ∷ [])

abbrev elsewhere : VoteMessage
elsewhere = vote_of 3 (6 ∷ []) (3 ∷ 3 ∷ [])

abbrev forged : VoteMessage
forged = vote_of 1 (5 ∷ []) []

collected-answer_example :
    ((collected (new_consensus_vote_collector 7 dkg) (first ∷ elsewhere ∷ [])).votes
      ≡ agreeing (first ∷ elsewhere ∷ []))
    × ((try_aggregate_sign_and_add_vote
          (collected (new_consensus_vote_collector 7 dkg) (first ∷ elsewhere ∷ []))
          second).1
        ≡ answer dkg (first ∷ elsewhere ∷ []) second)
collected-answer_example = collected-answer 7 dkg (first ∷ elsewhere ∷ []) second

-- A cache as a test on keys.
abbrev voted : Cache VotedKey (VotedKey → Bool)
voted = record {
  contains_key = λ s key. s key;
  add_key = λ s new key. ((key.0 == new.0) && (key.1 == new.1)) || s key;
}

abbrev committed : Cache ℕ (ℕ → Bool)
committed = record { contains_key = λ s key. s key; add_key = λ s new key. (key == new) || s key }

voted-Keeps : Keeps voted
voted-Keeps s key = ground (arith, ==_refl key.0, ==_refl key.1)

committed-Keeps : Keeps committed
committed-Keeps s key = ground (arith, ==_refl key)

abbrev State : Type 0
State = ProposerState (VotedKey → Bool) (ℕ → Bool)

abbrev fresh : State
fresh = record {
  collector = new_consensus_vote_collector 0 dkg;
  dkg_bls = dkg;
  voted_record = λ key. false;
  commit_msg = λ key. false;
}

abbrev up : Services
up = record {
  self_selected = true;
  with_agg_sign = λ head sig. some (head ++ sig);
  deliver = λ message. true;
}

abbrev down : Services
down = record up { deliver = λ message. false }

-- One vote is there.
abbrev one_vote : State
one_vote = record fresh {
  collector = record (new_consensus_vote_collector 7 dkg) { votes = first ∷ [] };
  voted_record = voted.add_key fresh.voted_record (voted_key first);
}

abbrev message : CommitMessage
message = record {
  chain_id = [];
  version = 1;
  epoch = 0;
  round = 0;
  state_version = 8;
  block_head = 5 ∷ 9 ∷ [];
}

one_vote_lem : handle_votes voted committed (start_collector fresh 7) ((up, first) ∷ []) ≡ one_vote
unfolding handle_votes handle_vote topia.Consensus.Proposer.agg_sign_dispose
    try_aggregate_sign_and_add_vote topia.Base.Bytes.equal_bytes
one_vote_lem = refl

one_vote-IsSound : IsSoundCollector dkg one_vote.collector
one_vote-IsSound =
    (handle_votes-IsSound voted committed fresh 7 ((up, first) ∷ []) one_vote one_vote_lem).1

commits :
    handle_vote voted committed up one_vote second
    ≡ ((handle_vote voted committed up one_vote second).0, delivered message)
unfolding handle_vote topia.Consensus.Proposer.agg_sign_dispose try_aggregate_sign_and_add_vote
    topia.Base.Bytes.equal_bytes
commits = refl

handle_vote-Backed_example : Backed voted committed up one_vote second message
handle_vote-Backed_example =
    handle_vote-Backed voted committed up one_vote
      (handle_vote voted committed up one_vote second).0 second message one_vote-IsSound commits

abbrev final : State
final = handle_votes voted committed (start_collector fresh 7) ((up, first) ∷ (up, elsewhere) ∷ [])

handle_votes-IsSound_example :
    (final.collector.latest_height ≡ 7) × IsSoundCollector dkg final.collector
handle_votes-IsSound_example =
    handle_votes-IsSound voted committed fresh 7 ((up, first) ∷ (up, elsewhere) ∷ []) final refl

abbrev after_forged : State
after_forged = (handle_vote voted committed up (start_collector fresh 7) forged).0

refuses :
    handle_vote voted committed up (start_collector fresh 7) forged
    ≡ (after_forged, invalid_signature)
unfolding handle_vote
refuses = refl

handle_vote-shadowed_example :
    handle_vote voted committed up after_forged first ≡ (after_forged, same_vote)
handle_vote-shadowed_example =
    handle_vote-shadowed voted committed up up (start_collector fresh 7) after_forged forged first
      voted-Keeps refl refuses refl refl

abbrev after_lost : State
after_lost = (handle_vote voted committed down one_vote second).0

loses : handle_vote voted committed down one_vote second ≡ (after_lost, not_delivered)
unfolding handle_vote topia.Consensus.Proposer.agg_sign_dispose try_aggregate_sign_and_add_vote
    topia.Base.Bytes.equal_bytes
loses = refl

handle_vote-lost_example :
    handle_vote voted committed up after_lost elsewhere ≡ (after_lost, committed_already)
handle_vote-lost_example =
    handle_vote-lost voted committed down up one_vote after_lost second elsewhere committed-Keeps
      refl loses refl
