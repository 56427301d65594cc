-- ===== src/Shell.antt =====
-- src/shell/commands.rs: the arguments of the meta-commands and the settings that they change.
pub mod Quoting
pub mod Commands
pub mod Execution
pub mod Submissions
pub mod Loop
pub mod Rounds
use dsql_cli.Prelude.{
  ℕ, ◌-◌, Bool, true, false, not, ◌&&◌, ◌||◌, Option, none, some, List, [], ◌∷◌, ◌++◌, Chars, codes,
  length, take, drop, all, ◌==◌, text_eq, if◌then◌else◌,
}
use dsql_cli.Cli.{is_whitespace}

pub data ExpandedMode : Type 0 where
  mode_off mode_on mode_auto : ExpandedMode

pub record ShellSettings : Type 0 where
  pub expanded : ExpandedMode
  pub timing : Bool
  pub pager : Bool

pub data ToggleArgument : Type 0 where
  toggle_on toggle_off toggle : ToggleArgument

-- `Result` with a message.
pub data Parsed {ℓ} (A : Type ℓ) : Type ℓ where
  parsed : A → Parsed A
  message : Chars → Parsed A

abbrev pub usage_of : Chars → Chars
usage_of command = codes "usage: " ++ (command ++ codes " [pattern]")

unfoldable pub parse_toggle : Chars → List Chars → Parsed ToggleArgument
parse_toggle command [] = parsed toggle
parse_toggle command (argument ∷ []) =
    if text_eq argument (codes "on")
    then parsed toggle_on
    else if text_eq argument (codes "off")
    then parsed toggle_off
    else message (codes "usage: " ++ (command ++ codes " [on|off]"))
parse_toggle command _ = message (codes "usage: " ++ (command ++ codes " [on|off]"))

unfoldable pub update_toggle : Bool → ToggleArgument → Bool
update_toggle value toggle_on = true
update_toggle value toggle_off = false
update_toggle value toggle = not value

abbrev pub push : ℕ → Option Chars → Option Chars
push c none = none
push c (some s) = some (c ∷ s)

-- The loop over the quoted characters; the flag says that a quote has been read.
unfoldable pub unquote : Bool → Chars → Option Chars
unquote false [] = some []
unquote true [] = none
unquote true (c ∷ s) = let rest = unquote false s in if c == b'"' then push b'"' rest else none
unquote false (c ∷ s) =
    let quoted = unquote true s in
    let rest = unquote false s in if c == b'"' then quoted else push c rest

abbrev pub ends_with_quote : Chars → Bool
ends_with_quote [] = false
ends_with_quote (c ∷ []) = c == b'"'
ends_with_quote (c ∷ d ∷ s) = ends_with_quote (d ∷ s)

abbrev pub unquoted : Chars → Option Chars → Parsed (Option Chars)
unquoted command none = message (usage_of command)
unquoted command (some value) = parsed (some value)

unfoldable pub parse_pattern : Chars → Chars → Parsed (Option Chars)
parse_pattern command [] = parsed none
parse_pattern command (c ∷ s) =
    if not (c == b'"')
    then (if not (all (λ x. not (is_whitespace x) && not (x == b'"')) (c ∷ s))
        then message (usage_of command)
        else parsed (some (c ∷ s)))
    else if not (ends_with_quote (c ∷ s)) || length (c ∷ s) == 1
    then message (usage_of command)
    else unquoted command (unquote false (take (length (c ∷ s) - 2) s))
