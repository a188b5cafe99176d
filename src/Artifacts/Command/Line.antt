-- ===== src/Artifacts/Command/Line.antt =====
-- A shell reads the command as the words that were meant.
use text.Mathlib.TextLemmas.{
  nil-append, cons-append, append-nil as text_append-nil, append_assoc as text_append_assoc,
}
use modelshelf.Common.{
  String, List, [], ◌∷◌, map, true, some, ◌≡◌, refl, ap, subst, ◌∙◌, ◌&◌, join, arith, Bool-cases,
  Option-cases, inl, inr,
}
use modelshelf.Queue.Filters.{provider_value}
use modelshelf.Artifacts.Shelf.{Artifact}
use modelshelf.Artifacts.Shell.{
  Mode, bare, in_single, in_double, read_word, shell_argument, quote, escape, all_plain,
}
use modelshelf.Artifacts.Shell.Reading.{read_word-shell_argument}
use modelshelf.Artifacts.Command.{read_line, begins_word, add_command, artifact_alias, id_or_alias}

read_line-append :
    (m : Mode) (v w tail : String) (ws : List String)
    → read_line bare tail ≡ some ("" ∷ ws)
    → read_word m v ≡ some w
    → read_line m (v & tail) ≡ some (w ∷ ws)
unfolding read_line read_word
read_line-append bare String.[] w tail ws ht h = rw (nil-append tail) (ground (arith, ht, h))
read_line-append in_single String.[] w tail ws ht h = ground (arith, h)
read_line-append in_double String.[] w tail ws ht h = ground (arith, h)
read_line-append bare (String.◌∷◌ c s) w tail ws ht h =
    rw (cons-append c s tail) (elim (Option-cases (read_word bare s)) [
      | inl nothing ↦ ground (
        arith,
        h,
        nothing,
        read_line-append in_single s w tail ws ht,
        read_line-append in_double s w tail ws ht,
      )
      | inr (v, e) ↦ ground (
        arith,
        h,
        e,
        read_line-append bare s v tail ws ht,
        read_line-append in_single s w tail ws ht,
        read_line-append in_double s w tail ws ht,
      )
    ])
read_line-append in_single (String.◌∷◌ c s) w tail ws ht h =
    rw (cons-append c s tail) (elim (Option-cases (read_word in_single s)) [
      | inl nothing ↦ ground (arith, h, nothing, read_line-append bare s w tail ws ht)
      | inr (v, e) ↦ ground (
        arith,
        h,
        e,
        read_line-append in_single s v tail ws ht,
        read_line-append bare s w tail ws ht,
      )
    ])
read_line-append in_double (String.◌∷◌ c s) w tail ws ht h =
    rw (cons-append c s tail) (elim (Option-cases (read_word in_double s)) [
      | inl nothing ↦ ground (arith, h, nothing, read_line-append bare s w tail ws ht)
      | inr (v, e) ↦ ground (
        arith,
        h,
        e,
        read_line-append in_double s v tail ws ht,
        read_line-append bare s w tail ws ht,
      )
    ])

begins_word-shell_argument : (v tail : String) → begins_word (shell_argument v & tail) ≡ true
unfolding begins_word shell_argument all_plain
begins_word-shell_argument String.[] tail = rw (cons-append quote (escape "" & "'") tail) refl
begins_word-shell_argument (String.◌∷◌ c s) tail = elim (Bool-cases (all_plain (String.◌∷◌ c s))) [
  | inl plain ↦ rw (plain, cons-append c s tail) (ground (arith, plain))
  | inr other ↦ rw (other, cons-append quote (escape (String.◌∷◌ c s) & "'") tail) refl
]

space-append : (s : String) → " " & s ≡ String.◌∷◌ " " s
space-append s = cons-append " " "" s ∙ ap (String.◌∷◌ " ") (nil-append s)

abbrev words_of : List String → String
words_of vs = join " " (map shell_argument vs)

begins_word-words_of : (v : String) (vs : List String) → begins_word (words_of (v ∷ vs)) ≡ true
begins_word-words_of v [] =
    subst (λ t. begins_word t ≡ true) (text_append-nil (shell_argument v))
      (begins_word-shell_argument v "")
begins_word-words_of v (u ∷ us) = begins_word-shell_argument v (" " & words_of (u ∷ us))

-- A line of quoted arguments is read as these arguments.
pub read_line-words_of :
    (v : String) (vs : List String) → read_line bare (words_of (v ∷ vs)) ≡ some (v ∷ vs)
unfolding read_line
read_line-words_of v [] =
    subst (λ t. read_line bare t ≡ some (v ∷ [])) (text_append-nil (shell_argument v))
      (read_line-append bare (shell_argument v) v "" [] refl (read_word-shell_argument v))
read_line-words_of v (u ∷ us) =
    read_line-append bare (shell_argument v) v (" " & words_of (u ∷ us)) (u ∷ us)
      (rw (space-append (words_of (u ∷ us)), begins_word-words_of u us, read_line-words_of u us)
        refl)
      (read_word-shell_argument v)

abbrev pub client_arguments : (String → String) → Artifact → List String
client_arguments normalize item =
    provider_value item.provider
    ∷ item.source_id
    ∷ "--revision"
    ∷ item.resolved_revision
    ∷ "--artifact"
    ∷ id_or_alias item
    ∷ "--alias"
    ∷ artifact_alias normalize item
    ∷ []

subcommand : (rest : String) → "modelshelf add" & rest ≡ "modelshelf" & " " & "add" & rest
subcommand rest =
    text_append_assoc "modelshelf" " add" rest
    ∙ ap (λ t. "modelshelf" & t) (text_append_assoc " " "add" rest)

add_command_quoted :
    (normalize : String → String) (item : Artifact)
    → add_command normalize item ≡ words_of ("modelshelf" ∷ "add" ∷ client_arguments normalize item)
unfolding add_command shell_argument all_plain
add_command_quoted normalize item = subcommand (" " & words_of (client_arguments normalize item))

-- The command that the page shows for an artifact is read by a shell as the client's name, the
-- subcommand and exactly the arguments that were meant: the provider, the source and the revision of
-- the artifact, its alias or else its id, and the alias to use, whatever characters they have; no
-- part of the line is expanded or run.
pub read_line-add_command :
    (normalize : String → String) (item : Artifact)
    → read_line bare (add_command normalize item)
      ≡ some ("modelshelf" ∷ "add" ∷ client_arguments normalize item)
read_line-add_command normalize item =
    ap (read_line bare) (add_command_quoted normalize item)
    ∙ read_line-words_of "modelshelf" ("add" ∷ client_arguments normalize item)
