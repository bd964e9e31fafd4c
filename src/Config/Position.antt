-- ===== src/Config/Position.antt =====
-- agent/cg-agent/src/config.rs: the line and the column of a TOML error.
use cyber_guard_enterprise.Prelude.{
  ℕ, suc, ◌+◌, ◌≡◌, refl, sym, ap, ◌∙◌, Bool, true, ◌&&◌, not, [], ◌∷◌, Text, take, drop, leb, ltb,
  length, ◌==◌, if◌then◌else◌, arith, Bool-cases, inl, inr,
}
use mathlib.Core.Option
use cyber_guard_enterprise.Config.Types.{ConfigError, TomlError, parse}

-- A byte that continues a character of UTF-8.
abbrev pub is_continuation : ℕ → Bool
is_continuation b = leb 128 b && ltb b 192

-- `str::is_char_boundary` below the end of the text.
abbrev pub starts_character : Text → Bool
starts_character [] = true
starts_character (b ∷ s) = not (is_continuation b)

-- `content.get(..start).unwrap_or(content)`.
unfoldable pub before : Text → ℕ → Text
before content start =
    if leb start (length content) && starts_character (drop start content)
    then take start content
    else content

-- `matches('\n').count()`.
unfoldable pub newlines : Text → ℕ
newlines [] = 0
newlines (b ∷ s) = let rest = newlines s in if b == 10 then suc rest else rest

-- `rsplit('\n').next()`: what follows the last newline, here behind a text already read.
unfoldable pub last_line : Text → Text
unfolding newlines
last_line [] = []
last_line (b ∷ s) =
    let rest = last_line s in if ltb 0 (newlines s) then rest else if b == 10 then s else b ∷ s

-- `chars().count()`.
unfoldable pub characters : Text → ℕ
characters [] = 0
characters (b ∷ s) = let rest = characters s in if is_continuation b then rest else suc rest

unfoldable pub position : Text → ℕ → ℕ × ℕ
unfolding before newlines last_line characters
position content start =
    let text = before content start in (newlines text + 1, characters (last_line text) + 1)

unfoldable pub parse_error : Text → TomlError → ConfigError
unfolding position
parse_error content error = parse error.message (Option.map (position content) error.span_start)

-- A cursor over the bytes: a newline begins the next line, and a character is a column.
abbrev pub walk : Text → ℕ → ℕ → ℕ × ℕ
walk [] line column = (line, column)
walk (b ∷ s) line column =
    walk s (if b == 10 then suc line else line)
      (if b == 10 then 1 else if is_continuation b then column else suc column)

-- Where the cursor is after a text, by what the code counts of it.
abbrev Counted : Text → ℕ → ℕ → Type 0
Counted s line column = walk s line column ≡ (
  line + newlines s,
  if ltb 0 (newlines s) then characters (last_line s) + 1 else column + characters s,
)

walk-Counted : (s : Text) (line column : ℕ) → Counted s line column
unfolding newlines last_line characters
walk-Counted [] line column = ground arith
walk-Counted (b ∷ s) line column = elim (Bool-cases (b == 10)) [
  | inl newline ↦ rw newline (walk-Counted s (suc line) 1 ∙ ground (arith, newline))
  | inr other ↦ ground (arith, other, walk-Counted s line column, walk-Counted s line (suc column))
]

last_line_whole : (s : Text) → newlines s ≡ 0 → last_line s ≡ s
unfolding newlines last_line
last_line_whole [] e = refl
last_line_whole (b ∷ s) e = ground (arith, e)

counted : (s : Text) → walk s 1 1 ≡ (newlines s + 1, characters (last_line s) + 1)
counted s = elim (Bool-cases (ltb 0 (newlines s))) [
  | inl more ↦ walk-Counted s 1 1 ∙ ground (arith, more)
  | inr one ↦
      walk-Counted s 1 1
      ∙ ground (arith, one, ap characters (last_line_whole s (ground (arith, one))))
]

-- The line and the column of a parse error are those of a cursor that has walked the text before it.
pub position-walk :
    (content : Text) (start : ℕ) → position content start ≡ walk (before content start) 1 1
unfolding position
position-walk content start = sym (counted (before content start))
