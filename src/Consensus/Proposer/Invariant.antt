-- ===== src/Consensus/Proposer/Invariant.antt =====
-- The votes that a proposer (consensus/proposer.go) holds, whatever votes it was given.
use topia.Base.{
  ℕ, ◌≡◌, refl, sym, ap, subst, ◌∙◌, Bool, true, false, Option, none, some, List, [], ◌∷◌,
  if◌then◌else◌, arith, inl, inr, Bool-cases,
}
use topia.Base.Bytes.{bytes_eq}
use topia.Consensus.Votes.{
  VoteMessage, DkgBls, VoteCollector, reset, Aggregated, not_yet, recovered, failed, disagrees,
  try_aggregate_sign_and_add_vote,
}
use topia.Consensus.Proposer.{
  Cache, VotedKey, CommitMessage, ProposerState, Services, VoteEnd, committed_meanwhile,
  not_delivered, delivered, with_collector, start_collector, produce_commit_msg, commit, dispose,
  agg_sign_dispose, handle_vote,
}
use topia.Consensus.Proposer.Steps.{recorded, handled}
use topia.Consensus.Proposer.Sound.{IsSoundCollector, try_aggregate-IsSound}

try_aggregate-height :
    (vc : VoteCollector) (vote : VoteMessage)
    → (try_aggregate_sign_and_add_vote vc vote).0.latest_height ≡ vc.latest_height
unfolding try_aggregate_sign_and_add_vote
try_aggregate-height vc vote = elim (Bool-cases (disagrees vc.votes vote)) [
  | inl other ↦ ground arith
  | inr same ↦ ground arith
]

module _ {V M : Type 0} where
  -- The votes of the proposer's collector are sound, under the keys that the proposer has.
  abbrev pub SoundAfter : DkgBls → ℕ → ProposerState V M × VoteEnd → Type 0
  SoundAfter dkg height r =
      ((r.0).dkg_bls ≡ dkg)
      × ((r.0).collector.latest_height ≡ height)
      × IsSoundCollector dkg (r.0).collector

  commit-SoundAfter :
      (committed : Cache ℕ M) (services : Services) (s : ProposerState V M)
      (produced : Option CommitMessage)
      → IsSoundCollector s.dkg_bls s.collector
      → SoundAfter s.dkg_bls s.collector.latest_height (commit committed services s produced)
  commit-SoundAfter committed services s none sound = (refl, refl, sound)
  commit-SoundAfter committed services s (some message) sound =
      by_tests (committed.contains_key s.commit_msg message.state_version)
        (services.deliver message)
    where
      noted : ProposerState V M
      noted = record s { commit_msg = committed.add_key s.commit_msg message.state_version }

      by_tests :
          (there sent : Bool)
          → SoundAfter s.dkg_bls s.collector.latest_height (
              if there
              then (with_collector s (reset s.collector), committed_meanwhile)
              else if sent
              then (with_collector noted (reset s.collector), delivered message)
              else (noted, not_delivered))
      by_tests true sent = (refl, refl, (tt, tt))
      by_tests false true = (refl, refl, (tt, tt))
      by_tests false false = (refl, refl, sound)

  dispose-SoundAfter :
      (committed : Cache ℕ M) (services : Services) (s : ProposerState V M) (vote : VoteMessage)
      (agg : Aggregated)
      → IsSoundCollector s.dkg_bls s.collector
      → SoundAfter s.dkg_bls s.collector.latest_height (dispose committed services s vote agg)
  dispose-SoundAfter committed services s vote not_yet sound = (refl, refl, sound)
  dispose-SoundAfter committed services s vote failed sound = (refl, refl, sound)
  dispose-SoundAfter committed services s vote (recovered sig) sound =
      commit-SoundAfter committed services s (produce_commit_msg services vote sig) sound

module _ {V M : Type 0} (voted : Cache VotedKey V) (committed : Cache ℕ M) where
  handle_vote-SoundAfter :
      (services : Services) (s : ProposerState V M) (vote : VoteMessage)
      → IsSoundCollector s.dkg_bls s.collector
      → SoundAfter s.dkg_bls s.collector.latest_height (handle_vote voted committed services s vote)
  unfolding agg_sign_dispose
  handle_vote-SoundAfter services s vote sound = elim (handled voted committed services s vote) [
    | inl ((same, dkg), refusal) ↦ (
      dkg,
      ap (λ (vc : VoteCollector). vc.latest_height) same,
      subst (IsSoundCollector s.dkg_bls) (sym same) sound,
    )
    | inr (this, passes) ↦
        let after = try_aggregate-IsSound s.dkg_bls s.collector vote sound this in
        let (vc, agg) = try_aggregate_sign_and_add_vote s.collector vote in
        subst (SoundAfter s.dkg_bls s.collector.latest_height) (sym passes) (
          subst
            (λ h.
              SoundAfter s.dkg_bls h
                (agg_sign_dispose committed services (recorded voted s vote) vote))
            (try_aggregate-height s.collector vote)
            (dispose-SoundAfter committed services (with_collector (recorded voted s vote) vc) vote
              agg after))
  ]

  -- The proposer after a list of votes, each with what it meets.
  unfoldable pub handle_votes :
      ProposerState V M → List (Services × VoteMessage) → ProposerState V M
  handle_votes s [] = s
  handle_votes s ((services, vote) ∷ votes) =
      handle_votes (handle_vote voted committed services s vote).0 votes

  handle_votes-SoundAfter :
      (votes : List (Services × VoteMessage)) (s : ProposerState V M)
      → IsSoundCollector s.dkg_bls s.collector
      → (s' : ProposerState V M) → handle_votes s votes ≡ s'
      → (s'.dkg_bls ≡ s.dkg_bls)
        × (s'.collector.latest_height ≡ s.collector.latest_height)
        × IsSoundCollector s.dkg_bls s'.collector
  unfolding handle_votes
  handle_votes-SoundAfter [] s sound s' e =
      subst
        (λ (t : ProposerState V M).
          (t.dkg_bls ≡ s.dkg_bls)
          × (t.collector.latest_height ≡ s.collector.latest_height)
          × IsSoundCollector s.dkg_bls t.collector)
        e (refl, refl, sound)
  handle_votes-SoundAfter ((services, vote) ∷ votes) s sound s' e =
      let (dkg, height, after) = handle_vote-SoundAfter services s vote sound in
      let s₁ = (handle_vote voted committed services s vote).0 in
      let (dkg', height', after') =
        handle_votes-SoundAfter votes s₁
          (subst (λ d. IsSoundCollector d s₁.collector) (sym dkg) after) s' e in
      (dkg' ∙ dkg, height' ∙ height, subst (λ d. IsSoundCollector d s'.collector) dkg after')

  -- Whatever votes a proposer is given once it has proposed, in whatever circumstances: those that
  -- its collector holds are for the height after the one it proposed on, have signatures that verify
  -- under its key, and are on one head.
  pub handle_votes-IsSound :
      (s : ProposerState V M) (height : ℕ) (votes : List (Services × VoteMessage))
      (s' : ProposerState V M)
      → handle_votes (start_collector s height) votes ≡ s'
      → (s'.collector.latest_height ≡ height) × IsSoundCollector s.dkg_bls s'.collector
  handle_votes-IsSound s height votes s' e =
      let (dkg, same, sound) =
        handle_votes-SoundAfter votes (start_collector s height) (tt, tt) s' e in
      (same, sound)
