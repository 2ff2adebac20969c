-- ===== src/Cli/Console.antt =====
-- cmd/agent/main.go: the standard input by its lines, the standard output by its bytes, and the helpers
-- that ask on them. os.Exit ends a run, whatever is still to do.
pub mod Ends
pub mod Menu
use querylynx.Base.{
  ℕ, Bool, true, false, ◌||◌, Option, none, some, List, [], ◌∷◌, ◌++◌, ltb, if◌then◌else◌, is_nil,
}
use querylynx.Base.Int.{ℤ, pos, negsuc}
use querylynx.Strings.{Text, codes, trim_space}
use querylynx.Utf8.{Bytes, encode}
use querylynx.Strings.Atoi.{atoi}

-- `input` is what the Scanner still gives: it stops for good at the end of the input and at a line of
-- more than a megabyte.
pub record Console (W : Type 0) : Type 0 where
  pub input : List Text
  pub output : Bytes
  pub world : W

-- How a part of the program ends: by os.Exit, with a value, or not within the rounds that its loops had.
pub data Run (W A : Type 0) : Type 0 where
  exited : ℕ → Console W → Run W A
  finished : A → Console W → Run W A
  unfinished : Run W A

abbrev pub Io : Type 0 → Type 0 → Type 0
Io W A = Console W → Run W A

abbrev pub then_run : {W A B : Type 0} → (A → Io W B) → Run W A → Run W B
then_run f (exited code c) = exited code c
then_run f (finished a c) = f a c
then_run f unfinished = unfinished

in_menu : ℕ → ℕ → Option ℤ → ℕ
in_menu max def none = def
in_menu max def (some (negsuc n)) = def
in_menu max def (some (pos n)) = if ltb n 1 || ltb max n then def else n

module _ {W : Type 0} where
  infixl 5 ◌>>=◌ ◌>>◌
  abbrev pub ◌>>=◌ : {A B : Type 0} → Io W A → (A → Io W B) → Io W B
  (m >>= f) c = then_run f (m c)

  abbrev pub ◌>>◌ : {A B : Type 0} → Io W A → Io W B → Io W B
  (m >> n) c = then_run (λ a. n) (m c)

  abbrev pub pure : {A : Type 0} → A → Io W A
  pure a c = finished a c

  -- os.Exit
  abbrev pub exit : {A : Type 0} → ℕ → Io W A
  exit code c = exited code c

  -- fmt.Print
  unfoldable pub print : Bytes → Io W Unit
  print s c = finished tt (record c { output = c.output ++ s })

  -- in.Scan and in.Text
  abbrev pub scanned : Console W → List Text → Run W (Option Text)
  scanned c [] = finished none c
  scanned c (line ∷ lines) = finished (some line) (record c { input = lines })

  unfoldable pub scan : Io W (Option Text)
  scan c = scanned c c.input

  trimmed_or_exit : Option Text → Io W Text
  unfolding trim_space
  trimmed_or_exit none = exit 0
  trimmed_or_exit (some line) = pure (trim_space line)

  unfoldable pub prompt : Text → Io W Text
  unfolding print scan trimmed_or_exit encode
  prompt label = do print (encode label); line ← scan; trimmed_or_exit line

  unfoldable pub prompt_default : Text → Text → Io W Text
  unfolding print scan trimmed_or_exit encode
  prompt_default label def = do
    print (
        if is_nil def
        then encode label ++ encode (codes ": ")
        else encode label ++ encode (codes " [") ++ encode def ++ encode (codes "]: "))
    line ← scan
    v ← trimmed_or_exit line
    pure (if is_nil v then def else v)

  unfoldable pub choose : Text → ℕ → ℕ → Io W ℕ
  unfolding print scan trimmed_or_exit in_menu atoi encode
  choose label max def = do
    print (encode label)
    line ← scan
    v ← trimmed_or_exit line
    pure (if is_nil v then def else in_menu max def (atoi v))
