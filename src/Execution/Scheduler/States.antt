-- ===== src/Execution/Scheduler/States.antt =====
-- The state at a version (execution/scheduler.go, CompositionStateAtVersion).
use topia.Base.{
  ℕ, zero, suc, ◌<◌, ◌≡◌, refl, ◌∙◌, true, Option, none, some, List, [], ◌∷◌, if◌then◌else◌, not,
  ◌=?◌, length, arith, inl, inr, Bool-cases,
}
use topia.Execution.Scheduler.{Executed, composition_state_at_version, composition_state_of}

module _ {R : Type 0} where
  -- No end for a committed item, and the answer otherwise.
  abbrev pub answer : Option (Executed R) → Option (Option (Executed R))
  answer none = some none
  answer (some item) = if not item.committed then some (some item) else none

  committed-stuck :
      (rounds version : ℕ) (item : Executed R) (items : List (Executed R))
      → (item.state_version =? version) ≡ true
      → item.committed ≡ true
      → composition_state_at_version rounds version (item ∷ items) ≡ none
  unfolding composition_state_at_version
  committed-stuck zero version item items same is = refl
  committed-stuck (suc rounds) version item items same is =
      let stays : composition_state_at_version (suc rounds) version (item ∷ items)
          ≡ composition_state_at_version rounds version (item ∷ items) =
        simp (same, is) in
      stays ∙ committed-stuck rounds version item items same is

  -- The loop for the state at a version, with more rounds than there are items, finds the first item
  -- of the version if it is not committed, and none if there is no such item; on a committed item it
  -- does not end, with however many rounds.
  pub composition_state_at_version-answer :
      (rounds version : ℕ) (items : List (Executed R))
      → length items < rounds
      → composition_state_at_version rounds version items
        ≡ answer (composition_state_of version items)
  unfolding composition_state_at_version composition_state_of
  composition_state_at_version-answer zero version items enough = ground arith
  composition_state_at_version-answer (suc rounds) version [] enough = refl
  composition_state_at_version-answer (suc rounds) version (item ∷ items) enough =
      elim (Bool-cases (item.state_version =? version)) [
        | inr other ↦
            rw (other) (composition_state_at_version-answer rounds version items (ground arith))
        | inl same ↦ elim (Bool-cases item.committed) [
          | inr open_item ↦ rw (same, open_item) refl
          | inl closed ↦
              committed-stuck (suc rounds) version item items same closed ∙ simp (same, closed)
        ]
      ]
