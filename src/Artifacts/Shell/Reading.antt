-- ===== src/Artifacts/Shell/Reading.antt =====
-- A shell reads a quoted argument back as it was.
use modelshelf.Common.{
  String, Char, code, true, false, ◌&&◌, ◌==◌, some, ◌≡◌, refl, ap, truthy, ◌&◌, arith, Bool-cases,
  inl, inr,
}
use text.Mathlib.TextLemmas.{nil-append, cons-append}
use modelshelf.Artifacts.Shell.{
  quote, double_quote, all_plain, escape, shell_argument, bare, in_single, read_word,
}

read_word-all_plain : (v : String) → all_plain v ≡ true → read_word bare v ≡ some v
unfolding read_word all_plain
read_word-all_plain String.[] p = refl
read_word-all_plain (String.◌∷◌ c s) p = ground (arith, read_word-all_plain s (ground arith))

escape-quote :
    (c : Char) (s : String)
    → (code c == 39) ≡ true
    → escape (String.◌∷◌ c s) & "'"
      ≡ String.◌∷◌ quote (
          String.◌∷◌ double_quote
            (String.◌∷◌ c (String.◌∷◌ double_quote (String.◌∷◌ quote (escape s & "'")))))
unfolding escape
escape-quote c s e = rw e (simp cons-append)

escape-other :
    (c : Char) (s : String)
    → (code c == 39) ≡ false
    → escape (String.◌∷◌ c s) & "'" ≡ String.◌∷◌ c (escape s & "'")
unfolding escape
escape-other c s e = rw e (cons-append c (escape s) "'")

read_word-escape : (v : String) → read_word in_single (escape v & "'") ≡ some v
unfolding read_word escape
read_word-escape String.[] = ap (read_word in_single) (nil-append "'")
read_word-escape (String.◌∷◌ c s) = elim (Bool-cases (code c == 39)) [
  | inl is_quote ↦ rw (escape-quote c s is_quote) (ground (arith, is_quote, read_word-escape s))
  | inr other ↦ rw (escape-other c s other) (ground (arith, other, read_word-escape s))
]

-- The command line that the page shows is read by a shell as the arguments that were meant: whatever
-- its characters, an argument is one word, of which no part is expanded.
pub read_word-shell_argument : (v : String) → read_word bare (shell_argument v) ≡ some v
unfolding shell_argument read_word
read_word-shell_argument v = elim (Bool-cases (truthy v && all_plain v)) [
  | inl plain ↦ rw plain (read_word-all_plain v (ground arith))
  | inr quoted ↦ rw quoted (read_word-escape v)
]
