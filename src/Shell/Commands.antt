-- ===== src/Shell/Commands.antt =====
-- src/shell/commands.rs: the meta-commands, from the line to the action. A line is its characters;
-- an index into it counts bytes, and a slice that starts inside a character is a panic.
pub mod Printed
pub mod Total
use dsql_cli.Prelude.{
  ℕ, ◌+◌, ◌-◌, ◌*◌, ◌/◌, Bool, true, false, not, ◌&&◌, ◌||◌, Option, none, some, List, [], ◌∷◌,
  ◌++◌, Chars, codes, byte_len, len_utf8, decimal, is_ascii_whitespace, starts_with, push_first,
  rev_onto, all, leb, ◌==◌, text_eq, if◌then◌else◌,
}
use dsql_cli.App.Data.{ReconnectState, reconnect_label, SessionMetadata, role_name}
use dsql_cli.Cli.{is_whitespace}
use dsql_cli.Output.{escape_terminal_text}
use dsql_cli.Shell.{
  ExpandedMode, mode_off, mode_on, mode_auto, ShellSettings, ToggleArgument, Parsed, parsed,
  message, parse_toggle, update_toggle, parse_pattern,
}

pub data RefreshState : Type 0 where
  not_requested requested : RefreshState

pub record ShellCommandState : Type 0 where
  pub settings : ShellSettings
  pub refresh : RefreshState

pub data CommandAction : Type 0 where
  continue dashboard exit : CommandAction

pub data MetadataRequest : Type 0 where
  relations : Option Chars → MetadataRequest
  tables : Option Chars → MetadataRequest
  schemas : Option Chars → MetadataRequest
  roles : MetadataRequest

pub record CommandResult : Type 0 where
  pub action : CommandAction
  pub text : Chars
  pub metadata : Option MetadataRequest

pub data ExpandedArgument : Type 0 where
  expanded_on expanded_off expanded_auto expanded_toggle : ExpandedArgument

pub data MetaCommand : Type 0 where
  quit help connection_info_command : MetaCommand
  expanded : ExpandedArgument → MetaCommand
  timing : ToggleArgument → MetaCommand
  pager : ToggleArgument → MetaCommand
  refresh_command metrics : MetaCommand
  metadata_command : MetadataRequest → MetaCommand

-- `split_ascii_whitespace`
abbrev pub is_empty : Chars → Bool
is_empty [] = true
is_empty (c ∷ s) = false

abbrev pub keep_word : Chars → List Chars → List Chars
keep_word word words = if is_empty word then words else word ∷ words

unfoldable pub split_spaces : Chars → List Chars
split_spaces [] = [] ∷ []
split_spaces (c ∷ s) =
    let rest = split_spaces s in if is_ascii_whitespace c then [] ∷ rest else push_first c rest

unfoldable pub non_empty : List Chars → List Chars
non_empty [] = []
non_empty (word ∷ words) = keep_word word (non_empty words)

abbrev pub words_of : Chars → List Chars
words_of s = non_empty (split_spaces s)

-- `&input[start..]`; none where the slice panics.
unfoldable pub slice_from : ℕ → Chars → Option Chars
slice_from start [] = if start == 0 then some [] else none
slice_from start (c ∷ s) =
    let rest = slice_from (start - len_utf8 c) s in
    if start == 0 then some (c ∷ s) else if leb (len_utf8 c) start then rest else none

unfoldable pub trim_start : Chars → Chars
trim_start [] = []
trim_start (c ∷ s) = let rest = trim_start s in if is_whitespace c then rest else c ∷ s

unfoldable pub trim : Chars → Chars
unfolding trim_start
trim s = rev_onto (trim_start (rev_onto (trim_start s) [])) []

-- `Result<Option<MetaCommand>, String>`, and a panic.
pub data MetaParse : Type 0 where
  no_command : MetaParse
  command : MetaCommand → MetaParse
  refused : Chars → MetaParse
  panicked : MetaParse

abbrev pub parse_as {ℓ} : {A : Type ℓ} → (A → MetaCommand) → Parsed A → MetaParse
parse_as f (parsed a) = command (f a)
parse_as f (message text) = refused text

abbrev pub no_arguments : Chars → List Chars → MetaCommand → MetaParse
no_arguments name [] c = command c
no_arguments name (argument ∷ arguments) c = refused (name ++ codes " does not accept arguments")

abbrev pub expanded_usage : Chars
expanded_usage = codes "usage: \\x [on|off|auto]"

unfoldable pub parse_expanded : List Chars → Parsed ExpandedArgument
parse_expanded [] = parsed expanded_toggle
parse_expanded (argument ∷ []) =
    if text_eq argument (codes "on")
    then parsed expanded_on
    else if text_eq argument (codes "off")
    then parsed expanded_off
    else if text_eq argument (codes "auto")
    then parsed expanded_auto
    else message expanded_usage
parse_expanded _ = message expanded_usage

unfoldable pub parse_named : Chars → List Chars → Chars → MetaParse
unfolding parse_expanded
parse_named name arguments text =
    if text_eq name (codes "q")
    then no_arguments (codes "\\q") arguments quit
    else if text_eq name (codes "?")
    then no_arguments (codes "\\?") arguments help
    else if text_eq name (codes "conninfo")
    then no_arguments (codes "\\conninfo") arguments connection_info_command
    else if text_eq name (codes "x")
    then parse_as expanded (parse_expanded arguments)
    else if text_eq name (codes "timing")
    then parse_as timing (parse_toggle (codes "\\timing") arguments)
    else if text_eq name (codes "pager")
    then parse_as pager (parse_toggle (codes "\\pager") arguments)
    else if text_eq name (codes "refresh")
    then no_arguments (codes "\\refresh") arguments refresh_command
    else if text_eq name (codes "metrics")
    then no_arguments (codes "\\metrics") arguments metrics
    else if text_eq name (codes "d")
    then parse_as (λ p. metadata_command (relations p)) (parse_pattern (codes "\\d") text)
    else if text_eq name (codes "dt")
    then parse_as (λ p. metadata_command (tables p)) (parse_pattern (codes "\\dt") text)
    else if text_eq name (codes "dn")
    then parse_as (λ p. metadata_command (schemas p)) (parse_pattern (codes "\\dn") text)
    else if text_eq name (codes "du")
    then no_arguments (codes "\\du") arguments (metadata_command roles)
    else refused (codes "unsupported meta-command: \\" ++ (name ++ codes "; use \\? for help"))

abbrev pub with_argument_text : Chars → List Chars → Option Chars → MetaParse
with_argument_text name arguments none = panicked
with_argument_text name arguments (some text) = parse_named name arguments (trim text)

abbrev pub parse_words : Chars → List Chars → MetaParse
parse_words input [] = refused (codes "missing meta-command name")
parse_words input (name ∷ arguments) =
    with_argument_text name arguments (slice_from (1 + byte_len name) input)

abbrev pub is_line_break : ℕ → Bool
is_line_break c = c == 10 || c == 13

abbrev pub one_line : Chars → Bool
one_line s = all (λ c. not (is_line_break c)) s

-- The command behind the backslash.
unfoldable pub parse_command : Chars → Chars → MetaParse
unfolding slice_from split_spaces non_empty
parse_command input rest = parse_words input (words_of rest)

unfoldable pub parse : Chars → Bool → MetaParse
unfolding parse_command
parse [] sql_buffer_active = no_command
parse (c ∷ s) sql_buffer_active =
    if sql_buffer_active || not (c == b'\\')
    then no_command
    else if not (one_line (c ∷ s))
    then refused (codes "meta-commands must be submitted on one line")
    else parse_command (c ∷ s) s

abbrev pub say : Chars → CommandResult
say text = record { action = continue; text = text; metadata = none }

abbrev pub on_off : Bool → Chars
on_off enabled = if enabled then codes "on" else codes "off"

abbrev pub toggle_result : Chars → Bool → CommandResult
toggle_result name enabled = say (name ++ (codes " is " ++ on_off enabled))

abbrev pub mode_name : ExpandedMode → Chars
mode_name mode_off = codes "off"
mode_name mode_on = codes "on"
mode_name mode_auto = codes "auto"

abbrev pub expanded_result : ExpandedMode → CommandResult
expanded_result mode = say (codes "expanded display is " ++ mode_name mode)

abbrev pub toggle_mode : ExpandedMode → ExpandedMode
toggle_mode mode_off = mode_on
toggle_mode mode_on = mode_off
toggle_mode mode_auto = mode_off

abbrev pub next_mode : ExpandedArgument → ExpandedMode → ExpandedMode
next_mode expanded_on mode = mode_on
next_mode expanded_off mode = mode_off
next_mode expanded_auto mode = mode_auto
next_mode expanded_toggle mode = toggle_mode mode

-- The age in seconds; the clock may have gone back.
unfoldable pub connection_info : SessionMetadata → ReconnectState → ℕ → Chars
connection_info metadata state now =
    let target = metadata.intent.target in
    let age =
      (if leb metadata.connected_at now
        then decimal ((now - metadata.connected_at) / 1_000_000_000) ++ codes "s"
        else codes "unknown") in
    codes "Cluster: "
    ++ (escape_terminal_text target.id
        ++ (codes "\nRegion: "
            ++ (escape_terminal_text target.region
                ++ (codes "\nDatabase role: "
                    ++ (escape_terminal_text (role_name metadata.intent.role)
                        ++ (codes "\nEndpoint: redacted\nConnection age: "
                            ++ (age ++ (codes "\nReconnect state: " ++ reconnect_label state))))))))

unfoldable pub help_text : Chars
help_text =
    codes "DSQL shell commands:\n"
    ++ (codes "\\q                         exit the interactive shell\n"
        ++ (codes "\\?                         show this help\n"
            ++ (codes "\\conninfo                  show safe connection metadata\n"
                ++ (codes "\\d [pattern]               list visible relations\n"
                    ++ (codes "\\dt [pattern]              list visible tables\n"
                        ++ (codes "\\dn [pattern]              list schemas\n"
                            ++ (codes "\\du                        list database roles\n"
                                ++ (codes "\\x [on|off|auto]           set expanded display\n"
                                    ++ (codes
                                          "\\timing [on|off]           set execution timing display\n"
                                        ++ (codes "\\pager [on|off]            set pager use\n"
                                            ++ (codes
                                                  "\\refresh                   reload bounded completion metadata while idle\n"
                                                ++ (codes
                                                      "\\metrics                   open the cluster metrics dashboard\n"
                                                    ++ (codes
                                                        "Ctrl+C                     stop query output and cancel; press again if cancellation stalls")))))))))))))

-- The result and the state after the command.
unfoldable pub run_command :
    MetaCommand
    → SessionMetadata
    → ReconnectState
    → ℕ
    → ShellCommandState
    → ShellCommandState × CommandResult
run_command quit m r now state = (state, record { action = exit; text = []; metadata = none })
run_command help m r now state = (state, say help_text)
run_command connection_info_command m r now state = (state, say (connection_info m r now))
run_command (expanded argument) m r now state =
    let mode = next_mode argument state.settings.expanded in
    (record state { settings = record (state.settings) { expanded = mode } }, expanded_result mode)
run_command (timing argument) m r now state =
    let enabled = update_toggle state.settings.timing argument in
    (
      record state { settings = record (state.settings) { timing = enabled } },
      toggle_result (codes "timing") enabled,
    )
run_command (pager argument) m r now state =
    let enabled = update_toggle state.settings.pager argument in
    (
      record state { settings = record (state.settings) { pager = enabled } },
      toggle_result (codes "pager") enabled,
    )
run_command refresh_command m r now state =
    (record state { refresh = requested }, say (codes "refreshing completion metadata"))
run_command metrics m r now state =
    (state, record { action = dashboard; text = []; metadata = none })
run_command (metadata_command request) m r now state =
    (state, record { action = continue; text = []; metadata = some request })

-- `Result<Option<CommandResult>, String>`, and a panic.
pub data Executed : Type 0 where
  not_a_command : Executed
  executed : CommandResult → Executed
  failed : Chars → Executed
  crashed : Executed

abbrev pub execute_parsed :
    MetaParse
    → SessionMetadata
    → ReconnectState
    → ℕ
    → ShellCommandState
    → ShellCommandState × Executed
execute_parsed no_command m r now state = (state, not_a_command)
execute_parsed (command c) m r now state =
    let (state', result) = run_command c m r now state in (state', executed result)
execute_parsed (refused text) m r now state = (state, failed text)
execute_parsed panicked m r now state = (state, crashed)

unfoldable pub execute_with_reconnect_state :
    Chars
    → Bool
    → SessionMetadata
    → ReconnectState
    → ShellCommandState
    → ℕ
    → ShellCommandState × Executed
unfolding parse run_command
execute_with_reconnect_state input sql_buffer_active m r state now =
    execute_parsed (parse input sql_buffer_active) m r now state
