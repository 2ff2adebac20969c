-- ===== src/Cli/Ask/Questions.antt =====
-- The ask loop asks the pipeline what was typed, and nothing else reaches the world.
use querylynx.Base.{
  ℕ, zero, suc, ◌<◌, Bool, false, not, List, [], ◌∷◌, length, ◌≡◌, ◌≢◌, ◌⊎◌, inl, inr, Bool-cases,
  is_nil, refl, arith,
}
use querylynx.Strings.{Text, codes, text_eq, trim_space}
use querylynx.Strings.Equal.{text_eq-eq, text_eq-ne}
use querylynx.Strings.Trim.{is_nil-eq}
use querylynx.Context.{background}
use querylynx.Pipeline.{Runtime, Pipeline, run}
use querylynx.Session.{Session}
use querylynx.Cli.Console.{Console, Run, exited, finished, unfinished, Io, scan, print}
use querylynx.Cli.Ask.{
  Input, blank, leave, trace, tables, question, read_input, ask_pipeline, handle, handle_line,
  ask_rounds, ask_loop,
}

-- Which questions some lines ask. A line without content and one that is /trace or /tables, but for the
-- white space around it, ask nothing; behind one that is /exit or /quit nothing is asked; and any other
-- asks itself, trimmed.
pub data Asks : List Text → List Text → Type 0 where
  no_line : Asks [] []
  skipped :
      {line : Text} {lines qs : List Text}
      → (trim_space line ≡ [])
        ⊎ (trim_space line ≡ codes "/trace")
        ⊎ (trim_space line ≡ codes "/tables")
      → Asks lines qs
      → Asks (line ∷ lines) qs
  leaves :
      {line : Text} {lines : List Text}
      → (trim_space line ≡ codes "/exit") ⊎ (trim_space line ≡ codes "/quit")
      → Asks (line ∷ lines) []
  asks :
      {line : Text} {lines qs : List Text}
      → trim_space line ≢ []
      → trim_space line ≢ codes "/exit"
      → trim_space line ≢ codes "/quit"
      → trim_space line ≢ codes "/trace"
      → trim_space line ≢ codes "/tables"
      → Asks lines qs
      → Asks (line ∷ lines) (trim_space line ∷ qs)

-- The questions among the lines, as the loop takes them.
ask_on : Input → List Text → List Text
ask_on blank later = later
ask_on leave later = []
ask_on trace later = later
ask_on tables later = later
ask_on (question q) later = q ∷ later

unfoldable pub questions : List Text → List Text
unfolding ask_on
questions [] = []
questions (line ∷ lines) = ask_on (read_input line) (questions lines)

nil-ne : (s : Text) → is_nil s ≡ false → s ≢ []
nil-ne [] h e = absurd (ground arith)
nil-ne (c ∷ s) h e = ground arith

ask_on-Asks :
    (line : Text) (lines qs : List Text)
    → Asks lines qs
    → Asks (line ∷ lines) (ask_on (read_input line) qs)
unfolding ask_on read_input
ask_on-Asks line lines qs later =
    let q = trim_space line in
    elim (Bool-cases (is_nil q)) [
      | inl e ↦ rw e (skipped (inl (is_nil-eq q e)) later)
      | inr full ↦ elim (Bool-cases (text_eq q (codes "/exit"))) [
        | inl e ↦ rw (full, e) (leaves (inl (text_eq-eq q _ e)))
        | inr stay ↦ elim (Bool-cases (text_eq q (codes "/quit"))) [
          | inl e ↦ rw (full, stay, e) (leaves (inr (text_eq-eq q _ e)))
          | inr on ↦ elim (Bool-cases (text_eq q (codes "/trace"))) [
            | inl e ↦ rw (full, stay, on, e) (skipped (inr (inl (text_eq-eq q _ e))) later)
            | inr plain ↦ elim (Bool-cases (text_eq q (codes "/tables"))) [
              | inl e ↦ rw (full, stay, on, plain, e) (skipped (inr (inr (text_eq-eq q _ e))) later)
              | inr other ↦
                  rw (full, stay, on, plain, other)
                    (asks (nil-ne q full) (text_eq-ne q _ stay) (text_eq-ne q _ on)
                      (text_eq-ne q _ plain) (text_eq-ne q _ other) later)
            ]
          ]
        ]
      ]
    ]

questions-Asks : (lines : List Text) → Asks lines (questions lines)
unfolding questions
questions-Asks [] = no_line
questions-Asks (line ∷ lines) = ask_on-Asks line lines (questions lines) (questions-Asks lines)

module _ {W : Type 0} (rt : Runtime W) (p : Pipeline W) where
  -- The world after one question after another.
  abbrev pub asked : List Text → W → W
  asked [] w = w
  asked (q ∷ qs) w = asked qs (run rt p background w q).1.world

-- The run ends, not by os.Exit, in the world `w`.
abbrev pub EndsIn : {W : Type 0} → W → Run W Unit → Type 0
EndsIn w (exited code c) = ⊥
EndsIn w (finished u c) = c.world ≡ w
EndsIn w unfinished = ⊥

module _ {W : Type 0} (rt : Runtime W) (sess : Session W) where
  handle-EndsIn :
      (again : Bool → Io W Unit) (show_trace : Bool) (i : Input) (lines : List Text) (c : Console W)
      → c.input ≡ lines
      → ((show : Bool) (c' : Console W)
          → c'.input ≡ lines
          → EndsIn (asked rt sess.pipeline (questions lines) c'.world) (again show c'))
      → EndsIn
          (asked rt sess.pipeline (ask_on i (questions lines)) c.world)
          (handle rt sess again show_trace i c)
  unfolding handle ask_on print ask_pipeline
  handle-EndsIn again show_trace blank lines c e go = go show_trace c e
  handle-EndsIn again show_trace leave lines c e go = refl
  handle-EndsIn again show_trace trace lines c e go = go (not show_trace) _ e
  handle-EndsIn again show_trace tables lines c e go = go show_trace _ e
  handle-EndsIn again show_trace (question q) lines c e go = go show_trace _ e

  ask_rounds-EndsIn :
      (rounds : ℕ) (show_trace : Bool) (lines : List Text) (c : Console W)
      → c.input ≡ lines
      → length lines < rounds
      → EndsIn
          (asked rt sess.pipeline (questions lines) c.world)
          (ask_rounds rt sess rounds show_trace c)
  unfolding ask_rounds questions print scan handle_line
  ask_rounds-EndsIn zero show_trace lines c e h = absurd (omega arith)
  ask_rounds-EndsIn (suc rounds) show_trace [] c e h = rw e refl
  ask_rounds-EndsIn (suc rounds) show_trace (line ∷ lines) c e h = rw e (
      handle-EndsIn (ask_rounds rt sess rounds) show_trace (read_input line) lines _ refl
        (λ show c' e'. ask_rounds-EndsIn rounds show lines c' e' (omega arith)))

  -- With a round for each line of input, and one more, the ask loop ends, by itself and in the world that
  -- the pipeline's runs on the asked questions leave one after another: the lines trimmed, up to one that
  -- is /exit or /quit, without the empty ones, /trace and /tables. Nothing else that the loop does reaches
  -- the world.
  pub ask_loop-EndsIn :
      (rounds : ℕ) (c : Console W)
      → length c.input < rounds
      → (qs : List Text) × Asks c.input qs
        × EndsIn (asked rt sess.pipeline qs c.world) (ask_loop rt sess rounds c)
  unfolding ask_loop print
  ask_loop-EndsIn rounds c h =
      (questions c.input, questions-Asks c.input, ask_rounds-EndsIn rounds false c.input _ refl h)
