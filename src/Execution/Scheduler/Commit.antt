-- ===== src/Execution/Scheduler/Commit.antt =====
-- Committing an executed item (execution/scheduler.go, CommitPackedTx with CommitBlock). What it meets
-- of the ledger, the block's construction and the codec is a record of how each went.
use topia.Base.{
  ℕ, suc, ◌+◌, ◌%◌, ◌-◌, ◌≡◌, refl, sym, ap, subst, ◌∙◌, Bool, true, false, Option, none, some,
  List, [], ◌∷◌, if◌then◌else◌, not, leb, ◌=?◌, length, arith, inl, inr, Bool-cases,
}
use topia.Execution.Scheduler.{u32_mod, Executed, Scheduler, composition_state_of}
use topia.Execution.Scheduler.Sound.{Consecutive, IsSound}

pub record CommitRun : Type 0 where
  -- An error of reading it is not looked at, and the nil block is.
  pub latest_height : Option ℕ
  pub constructs : Bool
  pub commits : Bool
  pub marshals : Bool

pub data CommitEnd : Type 0 where
  none_executed : CommitEnd
  unknown_version : CommitEnd
  delayed : CommitEnd
  not_constructed : CommitEnd
  not_committed : CommitEnd
  not_published : CommitEnd
  published : CommitEnd
  nil_block : CommitEnd

module _ {R : Type 0} where
  -- The state of the first item of the version becomes a committed one.
  unfoldable pub mark_committed : ℕ → List (Executed R) → List (Executed R)
  mark_committed version [] = []
  mark_committed version (item ∷ items) =
      let rest = mark_committed version items in
      if not (item.state_version =? version)
      then item ∷ rest
      else record item { committed = true } ∷ items

  abbrev pub marked : Scheduler R → ℕ → Scheduler R
  marked s version = record s { exe_packed_txs_list = mark_committed version s.exe_packed_txs_list }

  abbrev pub counted : Scheduler R → Scheduler R
  counted s = record s { exe_packed_count = (s.exe_packed_count + (u32_mod - 1)) % u32_mod }

  -- A commit that comes after its block is no error, and leaves the count.
  abbrev pub commit_at : Scheduler R → ℕ → ℕ → CommitRun → Option ℕ → Scheduler R × CommitEnd
  commit_at s version height run none = (s, nil_block)
  commit_at s version height run (some latest_height) =
      if leb height latest_height
      then (s, delayed)
      else if not run.constructs
      then (s, not_constructed)
      else if not run.commits
      then (s, not_committed)
      else if not run.marshals
      then (marked s version, not_published)
      else (counted (marked s version), published)

  abbrev pub commit_found :
      Scheduler R → ℕ → ℕ → CommitRun → Option (Executed R) → Scheduler R × CommitEnd
  commit_found s version height run none = (s, unknown_version)
  commit_found s version height run (some item) = commit_at s version height run run.latest_height

  unfoldable pub commit_packed_tx : Scheduler R → ℕ → ℕ → CommitRun → Scheduler R × CommitEnd
  commit_packed_tx s version height run =
      if length s.exe_packed_txs_list =? 0
      then (s, none_executed)
      else commit_found s version height run (composition_state_of version s.exe_packed_txs_list)

  mark_committed-Consecutive :
      (version start : ℕ) (items : List (Executed R))
      → Consecutive start items
      → Consecutive start (mark_committed version items)
        × (length (mark_committed version items) ≡ length items)
  unfolding mark_committed
  mark_committed-Consecutive version start [] ordered = (tt, refl)
  mark_committed-Consecutive version start (item ∷ items) (here, ordered) =
      let (ordered', same) = mark_committed-Consecutive version (suc start) items ordered in
      let by_item : Bool → List (Executed R) = λ b.
        if b
        then item ∷ mark_committed version items
        else record item { committed = true } ∷ items in
      elim (Bool-cases (item.state_version =? version)) [
        | inl hit ↦
            subst (λ b. Consecutive start (by_item b) × (length (by_item b) ≡ suc (length items)))
              (ap not (sym hit)) ((here, ordered), refl)
        | inr miss ↦
            subst (λ b. Consecutive start (by_item b) × (length (by_item b) ≡ suc (length items)))
              (ap not (sym miss)) ((here, ordered'), ap suc same)
      ]

  marked-IsSound : (s : Scheduler R) (version : ℕ) → IsSound s → IsSound (marked s version)
  marked-IsSound s version sound =
      let (ordered, same) =
        mark_committed-Consecutive version sound.start s.exe_packed_txs_list sound.consecutive in
      record {
        start = sound.start;
        consecutive = ordered;
        ends = elim sound.ends [
          | inl empty ↦ inl (same ∙ empty)
          | inr ends ↦ inr (ground (arith, same, ends))
        ];
        bounded = sound.bounded;
      }

  counted-IsSound : (s : Scheduler R) → IsSound s → IsSound (counted s)
  counted-IsSound s sound = record {
    start = sound.start;
    consecutive = sound.consecutive;
    ends = sound.ends;
    bounded = sound.bounded;
  }

  abbrev SoundAfter : Scheduler R × CommitEnd → Type 0
  SoundAfter r = IsSound r.0

  commit_at-IsSound :
      (s : Scheduler R) (version height : ℕ) (run : CommitRun) (latest : Option ℕ)
      → IsSound s
      → IsSound (commit_at s version height run latest).0
  commit_at-IsSound s version height run none sound = sound
  commit_at-IsSound s version height run (some latest_height) sound =
      by_tests (leb height latest_height) (not run.constructs) (not run.commits) (not run.marshals)
    where
      by_tests :
          (late constructs commits marshals : Bool)
          → SoundAfter (
              if late
              then (s, delayed)
              else if constructs
              then (s, not_constructed)
              else if commits
              then (s, not_committed)
              else if marshals
              then (marked s version, not_published)
              else (counted (marked s version), published))
      by_tests true constructs commits marshals = sound
      by_tests false true commits marshals = sound
      by_tests false false true marshals = sound
      by_tests false false false true = marked-IsSound s version sound
      by_tests false false false false =
          counted-IsSound (marked s version) (marked-IsSound s version sound)

  pub commit_packed_tx-IsSound :
      (s : Scheduler R) (version height : ℕ) (run : CommitRun)
      → IsSound s
      → IsSound (commit_packed_tx s version height run).0
  unfolding commit_packed_tx
  commit_packed_tx-IsSound s version height run sound =
      by_length (length s.exe_packed_txs_list =? 0)
        (composition_state_of version s.exe_packed_txs_list)
    where
      by_length :
          (empty : Bool) (item : Option (Executed R))
          → SoundAfter
              (if empty then (s, none_executed) else commit_found s version height run item)
      by_length true item = sound
      by_length false none = sound
      by_length false (some item) = commit_at-IsSound s version height run run.latest_height sound
