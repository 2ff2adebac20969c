-- ===== src/Explain.antt =====
-- internal/agent/pipeline.go: an answer with its trace, and how a stage is recorded.
use querylynx.Base.{
  ℕ, ◌+◌, ◌-◌, ◌/◌, ◌%◌, Bool, Option, none, some, List, [], ◌∷◌, ◌++◌, ltb, if◌then◌else◌,
}
use querylynx.Strings.{Text}
use querylynx.Connector.{Rows}
use querylynx.Intent.{Modality}

-- What a stage puts out.
pub data Output : Type 0 where
  intent_output : Modality → Bool → Output
  routing_output : List Text → Output
  generation_output : ℕ → Text → Output
  validation_output : ℕ → Bool → Output
  execution_output : ℕ → Option ℕ → Output

pub data StageName : Type 0 where
  intent routing generation validation execution : StageName

pub data Status : Type 0 where
  ok_status error_status : Status

pub record Stage : Type 0 where
  pub name : StageName
  pub status : Status
  pub output : Output
  pub latency_ms : ℕ
  pub error : Text

pub record Answer : Type 0 where
  pub sql : Text
  pub result : Rows
  pub attempts : ℕ
  pub trace_id : Text
  pub stages : List Stage

-- Which status and error text `record` writes.
unfoldable pub stage_status : Option Text → Status
stage_status none = ok_status
stage_status (some e) = error_status

unfoldable pub stage_error : Option Text → Text
stage_error none = []
stage_error (some e) = e

unfoldable pub record_stage : Answer → StageName → Output → ℕ → Option Text → Answer
unfolding stage_status stage_error
record_stage ans name output latency e = record ans {
  stages =
      ans.stages
      ++ record {
        name = name;
        status = stage_status e;
        output = output;
        latency_ms = latency;
        error = stage_error e;
      }
        ∷ [];
}

-- time.Since(start).Milliseconds(); the clock is monotonic, so the difference is not negative.
abbrev pub millis_since : ℕ → ℕ → ℕ
millis_since start now = (now - start) / 1_000_000

hex_char : ℕ → ℕ
hex_char d = if ltb d 10 then b'0' + d else b'a' + (d - 10)

-- hex.EncodeToString
unfoldable pub hex : List ℕ → Text
unfolding hex_char
hex [] = []
hex (b ∷ bytes) = hex_char (b / 16) ∷ hex_char (b % 16) ∷ hex bytes
