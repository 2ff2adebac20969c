-- ===== src/Cli/Main/Over.antt =====
-- The agent ends on every input.
use querylynx.Base.{ℕ, ◌+◌, ◌≤◌, ◌<◌, Option, none, some, length, arith}
use querylynx.Strings.{Text, codes}
use querylynx.Pipeline.{Runtime}
use querylynx.Session.{Outside, new_registry}
use querylynx.Cli.Console.{Console, Run, exited, finished, unfinished, Io, then_run, print}
use querylynx.Cli.Console.Ends.{Uses}
use querylynx.Cli.Wizard.{Terminal, connect_wizard}
use querylynx.Cli.Wizard.Finishes.{connect_wizard-Uses}
use querylynx.Cli.Ask.{ask_loop}
use querylynx.Cli.Ask.Questions.{EndsIn, ask_loop-EndsIn}
use querylynx.Cli.Main.{getenv, agent, call_dial, dialled, converse}

abbrev pub IsOver : {W A : Type 0} → Run W A → Type 0
IsOver (exited code c) = Unit
IsOver (finished a c) = Unit
IsOver unfinished = ⊥

EndsIn-IsOver : {W : Type 0} (w : W) (r : Run W Unit) → EndsIn w r → IsOver r
EndsIn-IsOver w (exited code c) h = tt
EndsIn-IsOver w (finished a c) h = tt
EndsIn-IsOver w unfinished h = h

then_run-IsOver :
    {W A B : Type 0} (c : Console W) (r : Run W A) (f : A → Io W B)
    → Uses 1 c r
    → ((a : A) (c' : Console W) → length c'.input + 1 ≤ length c.input → IsOver (f a c'))
    → IsOver (then_run f r)
then_run-IsOver c (exited code c') f u go = tt
then_run-IsOver c (finished a c') f u go = go a c' u
then_run-IsOver c unfinished f u go = u

module _ {W : Type 0} (term : Terminal W) (rt : Runtime W) (out : Outside W)
    (dial : Text → W → Option Text × W) where
  dialled-IsOver :
      (rounds : ℕ) (url : Text) (e : Option Text) (c : Console W)
      → length c.input < rounds
      → IsOver (dialled term rt out dial rounds url e c)
  unfolding dialled converse print
  dialled-IsOver rounds url (some e) c h = tt
  dialled-IsOver rounds url none c h =
      then_run-IsOver c (connect_wizard term out rounds new_registry c) _
        (connect_wizard-Uses term out rounds new_registry c h)
        (λ (sess, r) c' used.
          let (qs, asked, ends) = ask_loop-EndsIn rt sess rounds c' (omega arith) in
          EndsIn-IsOver _ (ask_loop rt sess rounds c') ends)

  -- A round for each line of the input, and one more, is enough for every loop of the agent, the menus,
  -- the wizard and the ask loop: whatever the executor, the model, the environment and the terminal
  -- answer, the agent ends.
  pub agent-IsOver :
      (rounds : ℕ) (c : Console W)
      → length c.input < rounds
      → IsOver (agent term rt out dial rounds c)
  unfolding agent print call_dial
  agent-IsOver rounds c h =
      dialled-IsOver rounds
        (getenv term rt out dial (codes "EXECUTOR_URL") (codes "http://localhost:8081")) _
        (record { input = c.input; output = _; world = _ }) h
