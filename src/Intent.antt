-- ===== src/Intent.antt =====
-- internal/agent/intent/intent.go: the gate of the pipeline.
use querylynx.Base.{Bool, true, Option, none}
use querylynx.Strings.{Text}
use querylynx.Context.{Context}

pub data Modality : Type 0 where
  unset table chart scalar : Modality

-- `unset` is the zero value of a Modality.
pub record Classification : Type 0 where
  pub modality : Modality
  pub in_scope : Bool

-- Go returns both the classification and the error.
pub record Classifier (W : Type 0) : Type 0 where
  pub classify : Context → W → Text → (Classification × Option Text) × W

-- The classifier of the current phase.
abbrev pub stub : {W : Type 0} → Classifier W
stub = record {
  classify = λ ctx w question. ((record { modality = table; in_scope = true }, none), w);
}
