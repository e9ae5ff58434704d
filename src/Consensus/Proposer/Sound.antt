-- ===== src/Consensus/Proposer/Sound.antt =====
-- The votes that the collector (consensus/vote_collector.go) of a proposer holds: valid ones, on one head.
use topia.Base.{
  ◌≤◌, ◌≡◌, refl, sym, ap, subst, ◌∙◌, Bool, true, false, Option, none, some, List, [], ◌∷◌, ◌++◌,
  length, All, if◌then◌else◌, arith, inl, inr, Bool-cases,
}
use topia.Base.Eq.{==_iff}
use topia.Base.Bytes.{Bytes, bytes_eq}
use topia.Consensus.Votes.{
  VoteMessage, DkgBls, VoteCollector, Aggregated, not_yet, recovered, as_aggregated, signatures,
  aggregate, disagrees, with_vote, try_aggregate_sign_and_add_vote,
}
use topia.Consensus.Proposer.Steps.{IsValid}

-- All the votes are on the head.
abbrev pub OnHead : Bytes → List VoteMessage → Type 0
OnHead head = All (λ (vote : VoteMessage). vote.block_head ≡ head)

abbrev pub Agreed : List VoteMessage → Type 0
Agreed [] = Unit
Agreed (first ∷ votes) = OnHead first.block_head votes

-- The votes are valid, and on one head.
abbrev pub IsSoundCollector : DkgBls → VoteCollector → Type 0
IsSoundCollector dkg vc = All (IsValid vc dkg) vc.votes × Agreed vc.votes

pub All-snoc :
    {A : Type 0} (P : A → Type 0) (xs : List A) (x : A) → All P xs → P x → All P (xs ++ x ∷ [])
All-snoc P [] x all p = (p, tt)
All-snoc P (y ∷ xs) x (q, all) p = (q, All-snoc P xs x all p)

Agreed-snoc :
    (votes : List VoteMessage) (vote : VoteMessage)
    → Agreed votes
    → disagrees votes vote ≡ false
    → Agreed (votes ++ vote ∷ [])
Agreed-snoc [] vote agreed e = tt
Agreed-snoc (first ∷ votes) vote agreed e =
    All-snoc (λ (v : VoteMessage). v.block_head ≡ first.block_head) votes vote agreed
      (sym ((==_iff first.block_head vote.block_head).0 (ground (arith, e))))

-- Votes that agree, with one more on their head, are on that head.
pub OnHead-snoc :
    (votes : List VoteMessage) (vote : VoteMessage)
    → Agreed votes
    → disagrees votes vote ≡ false
    → OnHead vote.block_head (votes ++ vote ∷ [])
OnHead-snoc [] vote agreed e = (refl, tt)
OnHead-snoc (first ∷ votes) vote agreed e =
    let same = (==_iff first.block_head vote.block_head).0 (ground (arith, e)) in
    (
      same,
      subst (λ head. OnHead head (votes ++ vote ∷ [])) same
          (Agreed-snoc (first ∷ votes) vote agreed e),
    )

-- The answer of the collector, by whether the vote disagrees.
abbrev tried : VoteCollector → VoteMessage → Bool → VoteCollector × Aggregated
tried vc vote other =
    if other
    then (vc, not_yet)
    else (with_vote vc vote, aggregate vc.dkg_bls (vc.votes ++ vote ∷ []))

pub try_aggregate-IsSound :
    (dkg : DkgBls) (vc : VoteCollector) (vote : VoteMessage)
    → IsSoundCollector dkg vc
    → IsValid vc dkg vote
    → IsSoundCollector dkg (try_aggregate_sign_and_add_vote vc vote).0
unfolding try_aggregate_sign_and_add_vote
try_aggregate-IsSound dkg vc vote (valid, agreed) this =
    elim (Bool-cases (disagrees vc.votes vote)) [
      | inl other ↦
          subst (λ b. IsSoundCollector dkg (tried vc vote b).0) (sym other) (valid, agreed)
      | inr same ↦
          subst (λ b. IsSoundCollector dkg (tried vc vote b).0) (sym same)
            (
              All-snoc (IsValid vc dkg) vc.votes vote valid this,
              Agreed-snoc vc.votes vote agreed same,
            )
    ]

threshold_reached :
    (enough : Bool) (o : Option Bytes) (sig : Bytes)
    → (if enough then as_aggregated o else not_yet) ≡ recovered sig
    → (enough ≡ true) × (o ≡ some sig)
threshold_reached true none sig e = ground arith
threshold_reached true (some found) sig e = ground arith
threshold_reached false o sig e = ground arith

pub aggregate_recovered :
    (dkg : DkgBls) (votes : List VoteMessage) (vote : VoteMessage) (sig : Bytes)
    → OnHead vote.block_head (votes ++ vote ∷ [])
    → aggregate dkg (votes ++ vote ∷ []) ≡ recovered sig
    → (dkg.threshold ≤ length (votes ++ vote ∷ []))
      × (dkg.recover_sig vote.block_head (signatures (votes ++ vote ∷ [])) ≡ some sig)
aggregate_recovered dkg [] vote sig on e =
    let (enough, found) = threshold_reached _ _ sig e in (ground (arith, enough), found)
aggregate_recovered dkg (first ∷ votes) vote sig (same, on) e =
    let (enough, found) = threshold_reached _ _ sig e in
    (
      ground (arith, enough),
      ap (λ head. dkg.recover_sig head (signatures (first ∷ votes ++ vote ∷ []))) (sym same)
          ∙ found,
    )

pub try_recovered :
    (vc : VoteCollector) (vote : VoteMessage) (sig : Bytes)
    → (try_aggregate_sign_and_add_vote vc vote).1 ≡ recovered sig
    → (disagrees vc.votes vote ≡ false)
      × (aggregate vc.dkg_bls (vc.votes ++ vote ∷ []) ≡ recovered sig)
unfolding try_aggregate_sign_and_add_vote
try_recovered vc vote sig e = by_test (disagrees vc.votes vote) e
  where
    by_test :
        (other : Bool)
        → (tried vc vote other).1 ≡ recovered sig
        → (other ≡ false) × (aggregate vc.dkg_bls (vc.votes ++ vote ∷ []) ≡ recovered sig)
    by_test true e = ground arith
    by_test false e = (refl, e)
