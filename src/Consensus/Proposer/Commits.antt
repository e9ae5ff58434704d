-- ===== src/Consensus/Proposer/Commits.antt =====
-- What a proposer (consensus/proposer.go) commits on.
use topia.Base.{
  ℕ, ◌≤◌, ◌≡◌, refl, sym, ap, ◌∙◌, Option, none, some, List, [], ◌∷◌, ◌++◌, length, All, arith, inl,
  inr, Bool-cases,
}
use topia.Base.Bytes.{Bytes, bytes_eq}
use topia.Consensus.Votes.{
  VoteMessage, Aggregated, not_yet, recovered, failed, signatures, try_aggregate_sign_and_add_vote,
}
use topia.Consensus.Proposer.{
  Cache, VotedKey, CommitMessage, ProposerState, Services, VoteEnd, delivered, produce_commit_msg,
  commit, dispose, agg_sign_dispose, handle_vote,
}
use topia.Consensus.Proposer.Steps.{IsValid, handled}
use topia.Consensus.Proposer.Sound.{
  OnHead, IsSoundCollector, All-snoc, OnHead-snoc, aggregate_recovered, try_recovered,
}

module _ {V M : Type 0} (voted : Cache VotedKey V) (committed : Cache ℕ M) where
  -- What a commit message on the vote rests on.
  pub record Backed (services : Services) (s : ProposerState V M) (vote : VoteMessage)
      (message : CommitMessage) : Type 0 where
    pub votes : List VoteMessage
    pub agg_sign : Bytes
    pub all_valid : All (IsValid s.collector s.dkg_bls) votes
    pub on_head : OnHead vote.block_head votes
    pub enough : s.collector.dkg_bls.threshold ≤ length votes
    pub aggregated :
        s.collector.dkg_bls.recover_sig vote.block_head (signatures votes) ≡ some agg_sign
    pub produced : produce_commit_msg services vote agg_sign ≡ some message

  commit_delivered :
      (services : Services) (s : ProposerState V M) (produced : Option CommitMessage)
      (message : CommitMessage)
      → (commit committed services s produced).1 ≡ delivered message
      → produced ≡ some message
  commit_delivered services s none message e = ground arith
  commit_delivered services s (some other) message e =
      elim (Bool-cases (committed.contains_key s.commit_msg other.state_version)) [
        | inl there ↦ ground arith
        | inr new ↦ elim (Bool-cases (services.deliver other)) [
          | inl sent ↦ ground arith
          | inr lost ↦ ground arith
        ]
      ]

  dispose_delivered :
      (services : Services) (s : ProposerState V M) (vote : VoteMessage) (agg : Aggregated)
      (message : CommitMessage)
      → (dispose committed services s vote agg).1 ≡ delivered message
      → (sig : Bytes) × (agg ≡ recovered sig)
        × (produce_commit_msg services vote sig ≡ some message)
  dispose_delivered services s vote not_yet message e = ground arith
  dispose_delivered services s vote failed message e = ground arith
  dispose_delivered services s vote (recovered sig) message e =
      (sig, refl, commit_delivered services s (produce_commit_msg services vote sig) message e)

  -- A commit message is delivered only on votes that reach the threshold, all for the next height, on
  -- the head that it commits and with signatures that verify, and with the signature recovered of
  -- them; the votes collected before are taken to be such.
  pub handle_vote-Backed :
      (services : Services) (s s' : ProposerState V M) (vote : VoteMessage)
      (message : CommitMessage)
      → IsSoundCollector s.dkg_bls s.collector
      → handle_vote voted committed services s vote ≡ (s', delivered message)
      → Backed services s vote message
  unfolding agg_sign_dispose
  handle_vote-Backed services s s' vote message (valid, agreed) e =
      let end = ap (λ (r : ProposerState V M × VoteEnd). r.1) e in
      elim (handled voted committed services s vote) [
        | inl (same, refusal) ↦ absurd (ground arith)
        | inr (this, passes) ↦
            let (sig, agg, produced) =
              dispose_delivered services _ vote (try_aggregate_sign_and_add_vote s.collector vote).1
                message (ap (λ (r : ProposerState V M × VoteEnd). r.1) (sym passes) ∙ end) in
            let (same, all) = try_recovered s.collector vote sig agg in
            let on = OnHead-snoc s.collector.votes vote agreed same in
            let (enough, found) =
              aggregate_recovered s.collector.dkg_bls s.collector.votes vote sig on all in
            record {
              votes = s.collector.votes ++ vote ∷ [];
              agg_sign = sig;
              all_valid =
                  All-snoc (IsValid s.collector s.dkg_bls) s.collector.votes vote valid this;
              on_head = on;
              enough = enough;
              aggregated = found;
              produced = produced;
            }
      ]
