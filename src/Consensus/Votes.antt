-- ===== src/Consensus/Votes.antt =====
-- The collector of votes (consensus/vote_collector.go). The group signature (DKGBls), on a pairing
-- library, is a record of what it offers; a recovery that fails is `none`.
pub mod Collected
use topia.Base.{
  ℕ, Bool, true, false, Option, none, some, List, [], ◌∷◌, ◌++◌, if◌then◌else◌, leb, length, map,
  not,
}
use topia.Base.Eq.{◌==◌}
use topia.Base.Bytes.{Bytes, bytes_eq}

pub record VoteMessage : Type 0 where
  pub chain_id : Bytes
  pub version : ℕ
  pub epoch : ℕ
  pub round : ℕ
  pub signature : Bytes
  pub voter : Bytes
  pub pub_key : Bytes
  pub state_version : ℕ
  pub block_head : Bytes

pub record DkgBls : Type 0 where
  pub threshold : ℕ
  pub verify : Bytes → Bytes → Bool
  pub recover_sig : Bytes → List Bytes → Option Bytes

pub record VoteCollector : Type 0 where
  pub latest_height : ℕ
  pub threshold : ℕ
  pub votes : List VoteMessage
  pub dkg_bls : DkgBls

abbrev pub new_consensus_vote_collector : ℕ → DkgBls → VoteCollector
new_consensus_vote_collector latest_height dkg_bls = record {
  latest_height = latest_height;
  threshold = 0;
  votes = [];
  dkg_bls = dkg_bls;
}

abbrev pub set_threshold : VoteCollector → ℕ → VoteCollector
set_threshold vc threshold = record vc { threshold = threshold }

abbrev pub update_dkg_bls : VoteCollector → DkgBls → VoteCollector
update_dkg_bls vc dkg_bls = record vc { dkg_bls = dkg_bls }

abbrev pub reset : VoteCollector → VoteCollector
reset vc = record vc { votes = [] }

-- No signature and no error, a signature, or an error.
pub data Aggregated : Type 0 where
  not_yet : Aggregated
  recovered : Bytes → Aggregated
  failed : Aggregated

abbrev pub as_aggregated : Option Bytes → Aggregated
as_aggregated none = failed
as_aggregated (some signature) = recovered signature

abbrev pub signatures : List VoteMessage → List Bytes
signatures = map (λ (vote : VoteMessage). vote.signature)

-- Enough votes are aggregated over the head of the first.
abbrev pub aggregate : DkgBls → List VoteMessage → Aggregated
aggregate dkg [] = if leb dkg.threshold 0 then as_aggregated (dkg.recover_sig [] []) else not_yet
aggregate dkg (first ∷ votes) =
    if leb dkg.threshold (length (first ∷ votes))
    then as_aggregated (dkg.recover_sig first.block_head (signatures (first ∷ votes)))
    else not_yet

-- A vote on another head than the first vote's is not added.
abbrev pub disagrees : List VoteMessage → VoteMessage → Bool
disagrees [] vote = false
disagrees (first ∷ votes) vote = not (first.block_head == vote.block_head)

abbrev pub with_vote : VoteCollector → VoteMessage → VoteCollector
with_vote vc vote = record vc { votes = vc.votes ++ vote ∷ [] }

unfoldable pub try_aggregate_sign_and_add_vote :
    VoteCollector → VoteMessage → VoteCollector × Aggregated
try_aggregate_sign_and_add_vote vc vote =
    if disagrees vc.votes vote
    then (vc, not_yet)
    else (with_vote vc vote, aggregate vc.dkg_bls (vc.votes ++ vote ∷ []))
