-- ===== src/Consensus/Votes/Collected.antt =====
-- What the collector of votes (consensus/vote_collector.go) holds and answers, from the votes alone.
use topia.Base.{
  ℕ, ◌≡◌, refl, sym, ap, ◌∙◌, true, false, List, [], ◌∷◌, ◌++◌, if◌then◌else◌, leb, length, arith,
  inl, inr, Bool-cases,
}
use mathlib.Core.List.{append_assoc, append-nil}
use topia.Base.Eq.{◌==◌}
use topia.Base.Bytes.{Bytes, bytes_eq}
use topia.Consensus.Votes.{
  VoteMessage, DkgBls, VoteCollector, new_consensus_vote_collector, Aggregated, not_yet,
  as_aggregated, signatures, aggregate, with_vote, try_aggregate_sign_and_add_vote,
}

-- The collector after a list of votes.
unfoldable pub collected : VoteCollector → List VoteMessage → VoteCollector
collected vc [] = vc
collected vc (vote ∷ votes) = collected (try_aggregate_sign_and_add_vote vc vote).0 votes

unfoldable pub on_head : Bytes → List VoteMessage → List VoteMessage
on_head head [] = []
on_head head (vote ∷ votes) =
    let rest = on_head head votes in if head == vote.block_head then vote ∷ rest else rest

-- The votes on the head of the first vote.
abbrev pub agreeing : List VoteMessage → List VoteMessage
agreeing [] = []
agreeing (first ∷ votes) = first ∷ on_head first.block_head votes

-- Votes that reach the threshold are answered with what is recovered of them over the head.
abbrev pub reached : DkgBls → Bytes → List VoteMessage → Aggregated
reached dkg head votes =
    if leb dkg.threshold (length votes)
    then as_aggregated (dkg.recover_sig head (signatures votes))
    else not_yet

-- The last of the votes is answered from the votes on the first one's head, if it is one of them.
abbrev pub answer : DkgBls → List VoteMessage → VoteMessage → Aggregated
answer dkg [] vote = reached dkg vote.block_head (vote ∷ [])
answer dkg (first ∷ votes) vote =
    if first.block_head == vote.block_head
    then reached dkg first.block_head (agreeing (first ∷ votes) ++ vote ∷ [])
    else not_yet

try_agrees :
    (vc : VoteCollector) (vote first : VoteMessage) (kept : List VoteMessage)
    → vc.votes ≡ first ∷ kept
    → (first.block_head == vote.block_head) ≡ true
    → try_aggregate_sign_and_add_vote vc vote
      ≡ (with_vote vc vote, aggregate vc.dkg_bls (first ∷ kept ++ vote ∷ []))
unfolding try_aggregate_sign_and_add_vote
try_agrees vc vote first kept holds agrees = rw (holds, agrees) refl

try_disagrees :
    (vc : VoteCollector) (vote first : VoteMessage) (kept : List VoteMessage)
    → vc.votes ≡ first ∷ kept
    → (first.block_head == vote.block_head) ≡ false
    → try_aggregate_sign_and_add_vote vc vote ≡ (vc, not_yet)
unfolding try_aggregate_sign_and_add_vote
try_disagrees vc vote first kept holds agrees = rw (holds, agrees) refl

collected_from :
    (votes : List VoteMessage) (vc : VoteCollector) (first : VoteMessage) (kept : List VoteMessage)
    → vc.votes ≡ first ∷ kept
    → ((collected vc votes).votes ≡ first ∷ (kept ++ on_head first.block_head votes))
      × ((collected vc votes).dkg_bls ≡ vc.dkg_bls)
unfolding collected on_head
collected_from [] vc first kept holds = (holds ∙ ap (◌∷◌ first) (sym (append-nil kept)), refl)
collected_from (vote ∷ votes) vc first kept holds =
    elim (Bool-cases (first.block_head == vote.block_head)) [
      | inl agrees ↦
          let step = try_agrees vc vote first kept holds agrees in
          let (ih, same) =
            collected_from votes (with_vote vc vote) first (kept ++ vote ∷ [])
              (ap (λ l. l ++ vote ∷ []) holds) in
          let more : on_head first.block_head (vote ∷ votes)
              ≡ vote ∷ on_head first.block_head votes =
            ground (arith, agrees) in
          (
            ap (λ (r : VoteCollector × Aggregated). (collected r.0 votes).votes) step
                ∙ ih
                ∙ ap (◌∷◌ first) (
                    append_assoc kept (vote ∷ []) (on_head first.block_head votes)
                    ∙ ap (λ l. kept ++ l) (sym more)),
            ap (λ (r : VoteCollector × Aggregated). (collected r.0 votes).dkg_bls) step ∙ same,
          )
      | inr other ↦
          let step = try_disagrees vc vote first kept holds other in
          let (ih, same) = collected_from votes vc first kept holds in
          let less : on_head first.block_head (vote ∷ votes) ≡ on_head first.block_head votes =
            ground (arith, other) in
          (
            ap (λ (r : VoteCollector × Aggregated). (collected r.0 votes).votes) step
                ∙ ih
                ∙ ap (λ l. first ∷ (kept ++ l)) (sym less),
            ap (λ (r : VoteCollector × Aggregated). (collected r.0 votes).dkg_bls) step ∙ same,
          )
    ]

answer_from :
    (vc : VoteCollector) (vote first : VoteMessage) (kept : List VoteMessage)
    → vc.votes ≡ first ∷ kept
    → (try_aggregate_sign_and_add_vote vc vote).1 ≡ (
        if first.block_head == vote.block_head
        then aggregate vc.dkg_bls (first ∷ kept ++ vote ∷ [])
        else not_yet)
unfolding try_aggregate_sign_and_add_vote
answer_from vc vote first kept holds = elim (Bool-cases (first.block_head == vote.block_head)) [
  | inl agrees ↦
      ap (λ (r : VoteCollector × Aggregated). r.1) (try_agrees vc vote first kept holds agrees)
      ∙ rw (agrees) refl
  | inr other ↦
      ap (λ (r : VoteCollector × Aggregated). r.1) (try_disagrees vc vote first kept holds other)
      ∙ rw (other) refl
]

-- A new collector that was given votes, in this order, holds those on the head of the first one and
-- no other. The next vote is answered with the signature recovered of the held votes and it, if it is
-- on that head and they reach the threshold, and with the error if the recovery fails; a vote on
-- another head is never an error.
pub collected-answer :
    (latest_height : ℕ) (dkg : DkgBls) (votes : List VoteMessage) (vote : VoteMessage)
    → ((collected (new_consensus_vote_collector latest_height dkg) votes).votes ≡ agreeing votes)
      × ((try_aggregate_sign_and_add_vote
            (collected (new_consensus_vote_collector latest_height dkg) votes)
            vote).1
          ≡ answer dkg votes vote)
unfolding collected try_aggregate_sign_and_add_vote
collected-answer latest_height dkg [] vote = (refl, refl)
collected-answer latest_height dkg (first ∷ votes) vote =
    let vc = with_vote (new_consensus_vote_collector latest_height dkg) first in
    let (holds, same) = collected_from votes vc first [] refl in
    (
      holds,
      answer_from (collected vc votes) vote first (on_head first.block_head votes) holds
          ∙ ap
              (λ (d : DkgBls).
                if first.block_head == vote.block_head
                then aggregate d (agreeing (first ∷ votes) ++ vote ∷ [])
                else not_yet)
              same,
    )
