-- ===== src/Engine/Targets.antt =====
-- ParseTargetsFile of engine.go: a line is "METHOD URL [BODY|@file]".
--
-- The file comes as its lines. strings.Fields, the slice of a text behind the first occurrence of
-- another, and the reading of files are parameters.
use text.Mathlib.Text.{◌==◌ as str_eq}
use handling_50k_requestes_p.Prelude.{
  ℕ, ◌+◌, ◌≡◌, String, Bool, true, ◌||◌, List, [], ◌∷◌, Option, none, some, if◌then◌else◌, ◌⊎◌,
}
use handling_50k_requestes_p.Prelude.Text.{Strings}
use handling_50k_requestes_p.Prelude.Results.{Result, ok, err, ◌>>=◌}
use handling_50k_requestes_p.Engine.{Target}

pub record Lines : Type 0 where
  pub strings : Strings
  pub fields : String → List String
  pub behind : String → String → String
  pub tail : String → String
  pub read_file : String → Option String

-- The number of the line that is refused.
pub data LineError : Type 0 where
  incomplete unreadable : ℕ → LineError

unfoldable pub parse_body : Lines → ℕ → String → Result LineError String
parse_body l n body =
    if l.strings.has_prefix body "@" then contents (l.read_file (l.tail body)) else ok body
  where
    contents : Option String → Result LineError String
    contents none = err (unreadable n)
    contents (some b) = ok b

abbrev pub skipped : Lines → String → Bool
skipped l text = str_eq text "" || l.strings.has_prefix text "#"

unfoldable pub parse_fields :
    Lines → ℕ → List (String × List String) → String → List String → Result LineError Target
unfolding parse_body
parse_fields l n headers text [] = err (incomplete n)
parse_fields l n headers text (m ∷ []) = err (incomplete n)
parse_fields l n headers text (m ∷ (u ∷ more)) =
    parse_body l n (l.strings.trim_space (l.behind text u)) >>= λ b.
    ok (record { method = m; url = u; body = b; headers = headers })

unfoldable pub parse_lines :
    Lines → List (String × List String) → ℕ → List String → Result LineError (List Target)
unfolding parse_fields
parse_lines l headers n [] = ok []
parse_lines l headers n (line ∷ lines) =
    let text = l.strings.trim_space line in
    let rest = parse_lines l headers (n + 1) lines in
    if skipped l text
    then rest
    else parse_fields l n headers text (l.fields text) >>= λ t. rest >>= λ ts. ok (t ∷ ts)

-- The targets are those of the lines that are not skipped, in their order, each with the method, the
-- URL and the headers that belong to it.
abbrev pub Follows : Lines → List (String × List String) → List String → List Target → Type 0
Follows l headers [] ts = ts ≡ []
Follows l headers (line ∷ lines) ts =
    (skipped l (l.strings.trim_space line) ≡ true) × Follows l headers lines ts
    ⊎ (t : Target) × (us : List Target) × (more : List String) × (ts ≡ t ∷ us)
      × (l.fields (l.strings.trim_space line) ≡ t.method ∷ t.url ∷ more)
      × (t.headers ≡ headers)
      × Follows l headers lines us
