-- ===== src/Shell/Commands/Printed.antt =====
-- Every command can be written, and is read as what it says.
use dsql_cli.Prelude.{
  ◌≡◌, refl, ap, ◌∙◌, arith, Bool, true, false, not, Option, none, some, [], ◌∷◌, ◌++◌, Chars,
  codes, all-append, rev_onto, rev_onto-append, rev_onto-rev_onto,
}
use dsql_cli.Shell
use dsql_cli.Shell.{ToggleArgument, toggle_on, toggle_off, toggle, Parsed, parsed, parse_pattern}
use dsql_cli.Shell.Quoting.{doubled, quote, parse_pattern-quote}
use dsql_cli.Shell.Commands.{
  ExpandedArgument, expanded_on, expanded_off, expanded_auto, expanded_toggle, MetaCommand, quit,
  help, connection_info_command, expanded, timing, pager, refresh_command, metrics,
  metadata_command, MetadataRequest, relations, tables, schemas, roles, command, parse_named,
  parse_expanded, is_line_break, one_line, trim, trim_start, parse,
}

abbrev pub print_toggle : ToggleArgument → Chars
print_toggle toggle_on = codes " on"
print_toggle toggle_off = codes " off"
print_toggle toggle = []

abbrev pub print_expanded : ExpandedArgument → Chars
print_expanded expanded_on = codes " on"
print_expanded expanded_off = codes " off"
print_expanded expanded_auto = codes " auto"
print_expanded expanded_toggle = []

abbrev pub print_pattern : Option Chars → Chars
print_pattern none = []
print_pattern (some name) = b' ' ∷ quote name

abbrev pub print : MetaCommand → Chars
print quit = codes "\\q"
print help = codes "\\?"
print connection_info_command = codes "\\conninfo"
print (expanded argument) = codes "\\x" ++ print_expanded argument
print (timing argument) = codes "\\timing" ++ print_toggle argument
print (pager argument) = codes "\\pager" ++ print_toggle argument
print refresh_command = codes "\\refresh"
print metrics = codes "\\metrics"
print (metadata_command (relations pattern)) = codes "\\d" ++ print_pattern pattern
print (metadata_command (tables pattern)) = codes "\\dt" ++ print_pattern pattern
print (metadata_command (schemas pattern)) = codes "\\dn" ++ print_pattern pattern
print (metadata_command roles) = codes "\\du"

abbrev pub pattern_of_request : MetadataRequest → Option Chars
pattern_of_request (relations pattern) = pattern
pattern_of_request (tables pattern) = pattern
pattern_of_request (schemas pattern) = pattern
pattern_of_request roles = none

abbrev pub pattern_of : MetaCommand → Option Chars
pattern_of (metadata_command request) = pattern_of_request request
pattern_of _ = none

-- The name in the command fits one line.
abbrev pub fits_line : Option Chars → Bool
fits_line none = true
fits_line (some name) = one_line name

doubled-one_line : (s : Chars) → one_line s ≡ true → one_line (doubled s) ≡ true
doubled-one_line [] h = refl
doubled-one_line (c ∷ s) h = ground (arith, doubled-one_line s)

quote-one_line : (s : Chars) → one_line s ≡ true → one_line (quote s) ≡ true
quote-one_line s h =
    ground
      (arith, all-append (λ c. not (is_line_break c)) (doubled s) (b'"' ∷ []), doubled-one_line s h)

-- What a quoted name is trimmed to: itself.
trim-quote : (s : Chars) → trim (b' ' ∷ quote s) ≡ quote s
unfolding trim
trim-quote s =
    ap (λ r. rev_onto (trim_start r) []) (rev_onto-append (doubled s) (b'"' ∷ []) (b'"' ∷ []))
    ∙ rev_onto-rev_onto (doubled s) (b'"' ∷ []) (b'"' ∷ [])

trim-nil : trim [] ≡ []
unfolding trim
trim-nil = refl

parse_pattern-nil : (name : Chars) → parse_pattern name [] ≡ parsed none
unfolding parse_pattern
parse_pattern-nil name = refl

-- A command, as it is printed, is read back, where its name, if it has one, is on one line: no
-- setting, request or name is out of the reach of the shell's syntax.
pub parse-print :
    (c : MetaCommand) → fits_line (pattern_of c) ≡ true → parse (print c) false ≡ command c
unfolding parse parse_named parse_expanded Shell.parse_toggle
parse-print quit h = refl
parse-print help h = refl
parse-print connection_info_command h = refl
parse-print (expanded expanded_on) h = refl
parse-print (expanded expanded_off) h = refl
parse-print (expanded expanded_auto) h = refl
parse-print (expanded expanded_toggle) h = refl
parse-print (timing toggle_on) h = refl
parse-print (timing toggle_off) h = refl
parse-print (timing toggle) h = refl
parse-print (pager toggle_on) h = refl
parse-print (pager toggle_off) h = refl
parse-print (pager toggle) h = refl
parse-print refresh_command h = refl
parse-print metrics h = refl
parse-print (metadata_command (relations none)) h = rw (trim-nil, parse_pattern-nil (codes "\\d"))
parse-print (metadata_command (tables none)) h = rw (trim-nil, parse_pattern-nil (codes "\\dt"))
parse-print (metadata_command (schemas none)) h = rw (trim-nil, parse_pattern-nil (codes "\\dn"))
parse-print (metadata_command roles) h = refl
parse-print (metadata_command (relations (some s))) h =
    rw (quote-one_line s h, trim-quote s, parse_pattern-quote (codes "\\d") s)
parse-print (metadata_command (tables (some s))) h =
    rw (quote-one_line s h, trim-quote s, parse_pattern-quote (codes "\\dt") s)
parse-print (metadata_command (schemas (some s))) h =
    rw (quote-one_line s h, trim-quote s, parse_pattern-quote (codes "\\dn") s)
