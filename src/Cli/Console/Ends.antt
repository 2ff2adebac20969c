-- ===== src/Cli/Console/Ends.antt =====
-- How much of the input a part of the program reads, and that it ends.
use querylynx.Base.{ℕ, List, ap, ◌+◌, ◌≤◌, [], ◌∷◌, length, ◌≡◌, arith, refl}
use querylynx.Strings.{Text}
use querylynx.Utf8.{Bytes}
use querylynx.Cli.Console.{
  Console, Run, exited, finished, unfinished, Io, then_run, ◌>>=◌, print, scan, prompt,
  prompt_default, pure, choose, trimmed_or_exit, scanned,
}

-- The run ends, and unless it is by os.Exit it has read at least `k` lines.
abbrev pub Uses : {W A : Type 0} → ℕ → Console W → Run W A → Type 0
Uses k c (exited code c') = Unit
Uses k c (finished a c') = length c'.input + k ≤ length c.input
Uses k c unfinished = ⊥

Uses-add :
    {W A : Type 0} (k j : ℕ) (c c' : Console W) (r : Run W A)
    → length c'.input + k ≤ length c.input
    → Uses j c' r
    → Uses (k + j) c r
Uses-add k j c c' (exited code d) h u = tt
Uses-add k j c c' (finished a d) h u = omega arith
Uses-add k j c c' unfinished h u = u

-- A run reads at least as much as its first part and what follows.
pub then_run-Uses :
    {W A B : Type 0} (k j : ℕ) (c : Console W) (r : Run W A) (f : A → Io W B)
    → Uses k c r
    → ((a : A) (c' : Console W) → length c'.input + k ≤ length c.input → Uses j c' (f a c'))
    → Uses (k + j) c (then_run f r)
then_run-Uses k j c (exited code c') f h go = tt
then_run-Uses k j c (finished a c') f h go = Uses-add k j c c' (f a c') h (go a c' h)
then_run-Uses k j c unfinished f h go = absurd h

pub Uses-le :
    {W A : Type 0} (j k : ℕ) (c : Console W) (r : Run W A) → j ≤ k → Uses k c r → Uses j c r
Uses-le j k c (exited code d) h u = tt
Uses-le j k c (finished a d) h u = omega arith
Uses-le j k c unfinished h u = u

-- The same of a part of the program, wherever it is started.
abbrev pub Reads : {W A : Type 0} → ℕ → Io W A → Type 0
Reads {W = W} k m = (c : Console W) → Uses k c (m c)

pub bind-Reads :
    {W A B : Type 0} (k j : ℕ) (m : Io W A) (f : A → Io W B)
    → Reads k m
    → ((a : A) → Reads j (f a))
    → Reads (k + j) (m >>= f)
bind-Reads k j m f h go c = then_run-Uses k j c (m c) f (h c) (λ a c' used. go a c')

pub Reads-le : {W A : Type 0} (j k : ℕ) (m : Io W A) → j ≤ k → Reads k m → Reads j m
Reads-le j k m le h c = Uses-le j k c (m c) le (h c)

module _ {W : Type 0} where
  pub print-Uses : (s : Bytes) (c : Console W) → Uses 0 c (print s c)
  unfolding print
  print-Uses s c = omega arith

  scanned-Uses :
      {A : Type 0} (f : Text → Io W A) (c : Console W) (lines : List Text)
      → lines ≡ c.input
      → ((v : Text) (c' : Console W) → Uses 0 c' (f v c'))
      → Uses 1 c (then_run (λ line c'. then_run f (trimmed_or_exit line c')) (scanned c lines))
  unfolding trimmed_or_exit
  scanned-Uses f c [] e go = tt
  scanned-Uses f c (line ∷ lines) e go =
      Uses-add 1 0 c (record c { input = lines }) (f _ _) (omega (arith, ap length e)) (go _ _)

  scanned_alone-Uses :
      (c : Console W) (lines : List Text)
      → lines ≡ c.input
      → Uses 1 c (then_run trimmed_or_exit (scanned c lines))
  unfolding trimmed_or_exit
  scanned_alone-Uses c [] e = tt
  scanned_alone-Uses c (line ∷ lines) e = omega (arith, ap length e)

  -- Each of the three helpers reads a line.
  pub prompt-Reads : (label : Text) → Reads 1 (prompt {W = W} label)
  unfolding prompt print scan
  prompt-Reads label c = scanned_alone-Uses _ c.input refl

  pub prompt_default-Reads : (label def : Text) → Reads 1 (prompt_default {W = W} label def)
  unfolding prompt_default print scan
  prompt_default-Reads label def c = scanned-Uses (λ v. pure _) _ c.input refl (λ v c'. omega arith)

  pub choose-Reads : (label : Text) (max def : ℕ) → Reads 1 (choose {W = W} label max def)
  unfolding choose print scan
  choose-Reads label max def c = scanned-Uses _ _ c.input refl (λ v c'. omega arith)
