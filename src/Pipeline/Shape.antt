-- ===== src/Pipeline/Shape.antt =====
-- The forms of a trace, by the error that a run ends with.
use querylynx.Base.{ℕ, zero, suc, Option, none, some, List, [], ◌∷◌, ◌++◌, ◌≡◌, ◌⊎◌}
use querylynx.Strings.{Text, codes}
use querylynx.Explain.{
  StageName, intent, routing, generation, validation, execution, Status, ok_status, error_status,
  Stage,
}
use querylynx.Pipeline.{Round, answered, stopped, again, max_attempts}

abbrev pub IsStage : StageName → Status → Stage → Type 0
IsStage name status s = (s.name ≡ name) × (s.status ≡ status)

-- A stage that failed with this error.
abbrev pub FailedWith : StageName → Text → Stage → Type 0
FailedWith name e s = IsStage name error_status s × (s.error ≡ e)

-- What the rounds of the loop record: so many are left, this is the error that the last round ended
-- with, and this is the error at the end. Every round generates a query. Its last stage fails unless
-- the run ends there with an answer.
pub data Tries : ℕ → Text → Option Text → List Stage → Type 0 where
  none_left :
      {last : Text}
      → Tries zero last (some (codes "agent: no valid query after 3 attempts: " ++ last)) []
  no_query :
      {rounds : ℕ} {last e : Text} {g : Stage}
      → FailedWith generation e g
      → Tries (suc rounds) last (some e) (g ∷ [])
  retried :
      {rounds : ℕ} {last e : Text} {o : Option Text} {g b : Stage} {more : List Stage}
      → IsStage generation ok_status g
      → FailedWith validation e b ⊎ FailedWith execution e b
      → Tries rounds e o more
      → Tries (suc rounds) last o (g ∷ b ∷ more)
  succeeded :
      {rounds : ℕ} {last : Text} {g b : Stage}
      → IsStage generation ok_status g
      → IsStage execution ok_status b
      → Tries (suc rounds) last none (g ∷ b ∷ [])

-- The trace of a whole run.
pub data IsTrace : Option Text → List Stage → Type 0 where
  not_classified : {e : Text} {s : Stage} → FailedWith intent e s → IsTrace (some e) (s ∷ [])
  out_of_scope :
      {s : Stage}
      → IsStage intent ok_status s
      → IsTrace (some (codes "agent: question is out of scope")) (s ∷ [])
  stopped_at_routing :
      {e : Text} {s r : Stage}
      → IsStage intent ok_status s
      → FailedWith routing e r
      → IsTrace (some e) (s ∷ r ∷ [])
  tried :
      {o : Option Text} {s r : Stage} {more : List Stage}
      → IsStage intent ok_status s
      → IsStage routing ok_status r
      → Tries max_attempts [] o more
      → IsTrace o (s ∷ r ∷ more)

-- What one round adds to the trace.
abbrev pub RoundAdds : Round → List Stage → Type 0
RoundAdds answered new =
    (g b : Stage) × (new ≡ g ∷ b ∷ [])
    × IsStage generation ok_status g
    × IsStage execution ok_status b
RoundAdds (stopped e) new = (g : Stage) × (new ≡ g ∷ []) × FailedWith generation e g
RoundAdds (again e) new =
    (g b : Stage) × (new ≡ g ∷ b ∷ [])
    × IsStage generation ok_status g
    × (FailedWith validation e b ⊎ FailedWith execution e b)

-- What follows a generated query adds one stage.
abbrev pub QueryAdds : Round → Stage → Type 0
QueryAdds answered b = IsStage execution ok_status b
QueryAdds (stopped e) b = ⊥
QueryAdds (again e) b = FailedWith validation e b ⊎ FailedWith execution e b
