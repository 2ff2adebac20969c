-- ===== src/Cli/Main.antt =====
-- cmd/agent/main.go: the agent, from its start to its end.
pub mod Over
use querylynx.Base.{ℕ, Option, none, some, [], ◌∷◌, ◌++◌, if◌then◌else◌, is_nil}
use querylynx.Strings.{Text, codes}
use querylynx.Utf8.{encode}
use querylynx.Pipeline.{Runtime}
use querylynx.Session.{Session, Registry, Outside, new_registry}
use querylynx.Cli.Console.{Console, Run, finished, Io, ◌>>=◌, ◌>>◌, print, exit}
use querylynx.Cli.Wizard.{Terminal, or_default, connect_wizard}
use querylynx.Cli.Ask.{ask_loop}

module _ {W : Type 0} (term : Terminal W) (rt : Runtime W) (out : Outside W)
    (dial : Text → W → Option Text × W) where
  getenv : Text → Text → Text
  getenv k def = or_default (term.env k) def

  call_dial : Text → Io W (Option Text)
  call_dial url c = let (e, w) = dial url c.world in finished e (record c { world = w })

  -- The registry is not used again.
  converse : ℕ → Session W × Registry W → Io W Unit
  unfolding ask_loop
  converse rounds (sess, r) = ask_loop rt sess rounds

  dialled : ℕ → Text → Option Text → Io W Unit
  unfolding print connect_wizard new_registry converse encode
  dialled rounds url (some e) = do
    print (encode (codes "\n✗ cannot reach the MCP executor at " ++ url ++ codes "\n"))
    print (
        encode (
          codes "  start it first in another terminal:  make run-executor\n  error: "
          ++ e
          ++ codes "\n"))
    exit 1
  dialled rounds url none = connect_wizard term out rounds new_registry >>= converse rounds

  -- `rounds` is what each of its loops may make.
  unfoldable pub agent : ℕ → Io W Unit
  unfolding getenv print call_dial dialled encode
  agent rounds =
      let url = getenv (codes "EXECUTOR_URL") (codes "http://localhost:8081") in
      (do
        print (encode (codes "QueryLynx — natural-language → query gateway (Phase 0)\n"))
        print (encode (codes "connecting to executor at " ++ url ++ codes " ...\n"))
        e ← call_dial url
        dialled rounds url e)
