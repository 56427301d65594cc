-- ===== src/Cli/Selection.antt =====
-- src/cli.rs: the choice of a cluster and of a database role, over the prompts of a user.
pub mod Selectable
use dsql_cli.Prelude.{
  ℕ, zero, suc, Bool, true, false, not, ◌||◌, Option, none, some, List, [], ◌∷◌, ◌++◌, Chars, codes,
  decimal, length, all, text_eq, if◌then◌else◌,
}
use dsql_cli.Error.{ApplicationError, runtime, usage, Result, ok, err}
use dsql_cli.App.Data.{
  DiscoverableCluster, ClusterTarget, from_discovered, ClusterStatus, creating, active, idle,
  inactive, updating, deleting, deleted, failed, pending_setup, pending_delete, unknown,
  DatabaseRole, admin, custom,
}
use dsql_cli.Output.{escape_terminal_text}
use dsql_cli.Shell.Commands.{trim, is_empty}
use dsql_cli.Target.{ClusterSelector, Selection, accepted, rejected, parse_cluster_selector}
use dsql_cli.Cli.{
  is_whitespace, selector_message, target_from_selector, database_role_from_username,
}

pub data RoleChoice : Type 0 where
  admin_role custom_role : RoleChoice

unfoldable pub status_value : Option ClusterStatus → Option Chars
status_value (some creating) = some (codes "creating")
status_value (some active) = some (codes "active")
status_value (some idle) = some (codes "idle")
status_value (some inactive) = some (codes "inactive")
status_value (some updating) = some (codes "updating")
status_value (some deleting) = some (codes "deleting")
status_value (some deleted) = some (codes "deleted")
status_value (some failed) = some (codes "failed")
status_value (some pending_setup) = some (codes "pending_setup")
status_value (some pending_delete) = some (codes "pending_delete")
status_value (some unknown) = some (codes "unknown")
status_value none = none

-- The trait `Prompt`.
pub record Prompt : Type 1 where
  pub World : Type 0
  pub select_cluster : List DiscoverableCluster → World → World × Result (Option Chars)
  pub confirm_unknown_cluster : DiscoverableCluster → World → World × Result Bool
  pub manual_selector : World → World × Result (Option Chars)
  pub select_role : World → World × Result (Option RoleChoice)
  pub custom_role_name : World → World × Result (Option Chars)
  pub warning : Chars → World → World × Result (Unit {0})

-- `?` behind a call.
abbrev pub and_then :
    {W : Type 0} {A : Type 0} {B : Type 0} → (A → W → W × Result B) → W × Result A → W × Result B
and_then f (w, ok a) = f a w
and_then f (w, err e) = (w, err e)

abbrev pub required : {W : Type 0} {A : Type 0} → Chars → Option A → W → W × Result A
required message none w = (w, err (usage message))
required message (some a) w = (w, ok a)

abbrev pub selected : Selection → Result ClusterSelector
selected (accepted s) = ok s
selected (rejected e) = err (usage (selector_message e))

unfoldable pub parse_selector : Chars → Result ClusterSelector
parse_selector value = selected (parse_cluster_selector value)

abbrev pub target_of : Result ClusterSelector → Chars → Result ClusterTarget
target_of (ok selector) region = target_from_selector selector region
target_of (err e) region = err e

abbrev pub find_cluster : Chars → List DiscoverableCluster → Option DiscoverableCluster
find_cluster id [] = none
find_cluster id (c ∷ cs) = let rest = find_cluster id cs in if text_eq c.id id then some c else rest

abbrev pub unwrap_or : Option Chars → Chars → Chars
unwrap_or none default = default
unwrap_or (some s) default = s

module _ (P : Prompt) where
  abbrev pub Call : Type 0 → Type 0
  Call A = P.World × Result A

  unfoldable pub manual_target : Chars → P.World → Call ClusterTarget
  unfolding parse_selector
  manual_target region w =
      and_then (λ value v. (v, target_of (parse_selector value) region))
        (and_then (required (codes "a cluster selector is required")) (P.manual_selector w))

  -- The warnings that list the clusters.
  unfoldable pub list_clusters : List DiscoverableCluster → P.World → Call (Unit {0})
  unfolding status_value
  list_clusters [] w = (w, ok tt)
  list_clusters (c ∷ cs) w =
      and_then (λ done v. list_clusters cs v)
        (P.warning
          (escape_terminal_text c.id
            ++ (codes " (" ++ (unwrap_or (status_value c.status) (codes "unknown") ++ codes ")")))
          w)

  -- One round of the loop: a target, an error, or another round (`none`).
  abbrev pub Round : Type 0
  Round = Call (Option ClusterTarget)

  abbrev pub confirmed : DiscoverableCluster → Bool → P.World → Round
  confirmed c yes_given w = (w, ok (if yes_given then some (from_discovered c) else none))

  abbrev pub ask_unknown : DiscoverableCluster → P.World → Round
  ask_unknown c w = and_then (confirmed c) (
      and_then (λ done v. P.confirm_unknown_cluster c v)
        (P.warning (codes "the selected cluster has unknown status") w))

  abbrev pub refuse_inactive : P.World → Round
  refuse_inactive w =
      and_then (λ done v. (v, ok none))
        (P.warning (codes "the selected cluster is not active and cannot be selected") w)

  abbrev pub by_status : DiscoverableCluster → Option ClusterStatus → P.World → Round
  by_status c (some active) w = (w, ok (some (from_discovered c)))
  by_status c none w = ask_unknown c w
  by_status c (some unknown) w = ask_unknown c w
  by_status c (some status) w = refuse_inactive w

  abbrev pub chosen : List DiscoverableCluster → Chars → P.World → Round
  chosen clusters id w =
      and_then (λ c v. by_status c c.status v)
        (required (codes "selected cluster is not in the discoverable inventory")
          (find_cluster id clusters) w)

  unfoldable pub select_once : List DiscoverableCluster → P.World → Round
  select_once clusters w =
      and_then (chosen clusters) (
        and_then (required (codes "a cluster selection is required")) (P.select_cluster clusters w))

  abbrev pub or_again : Option (Call ClusterTarget) → Round → Option (Call ClusterTarget)
  or_again rest (v, err e) = some (v, err e)
  or_again rest (v, ok none) = rest
  or_again rest (v, ok (some target)) = some (v, ok target)

  -- The rounds of `loop`, of which the user gives as many as it takes: none where there are more.
  unfoldable pub select_rounds :
      ℕ → List DiscoverableCluster → P.World → Option (Call ClusterTarget)
  unfolding select_once
  select_rounds zero clusters w = none
  select_rounds (suc rounds) clusters w =
      let once = select_once clusters w in or_again (select_rounds rounds clusters once.0) once

  abbrev pub after_list :
      ℕ → List DiscoverableCluster → Call (Unit {0}) → Option (Call ClusterTarget)
  after_list rounds clusters (w, ok done) = select_rounds rounds clusters w
  after_list rounds clusters (w, err e) = some (w, err e)

  unfoldable pub select_discovered_target :
      ℕ → List DiscoverableCluster → P.World → Option (Call ClusterTarget)
  unfolding list_clusters select_rounds
  select_discovered_target rounds clusters w = after_list rounds clusters (list_clusters clusters w)

  abbrev pub warned : Chars → Chars → P.World → Call ClusterTarget
  warned message region w = and_then (λ done v. manual_target region v) (P.warning message w)

  unfoldable pub select_inventory_target :
      ℕ → Result (List DiscoverableCluster) → Chars → P.World → Option (Call ClusterTarget)
  unfolding select_discovered_target manual_target
  select_inventory_target rounds (ok (c ∷ cs)) region w = select_discovered_target rounds (c ∷ cs) w
  select_inventory_target rounds (ok []) region w = some (
      warned
        (codes
          "no discoverable clusters were returned; discovery permission does not imply connection permission")
        region w)
  select_inventory_target rounds (err e) region w = some (
      warned
        (codes
          "cluster discovery was unavailable; discovery permission is separate from permission to connect")
        region w)

  abbrev pub named_role : Option Chars → P.World → Call DatabaseRole
  named_role none w = (w, err (usage (codes "a custom database role is required")))
  named_role (some name) w =
      if not (all is_whitespace name)
      then (w, ok (custom name))
      else (w, err (usage (codes "a custom database role is required")))

  abbrev pub by_choice : RoleChoice → P.World → Call DatabaseRole
  by_choice admin_role w = (w, ok admin)
  by_choice custom_role w = and_then named_role (P.custom_role_name w)

  unfoldable pub select_database_role : Option Chars → P.World → Call DatabaseRole
  select_database_role (some username) w = (w, database_role_from_username username)
  select_database_role none w =
      and_then by_choice
        (and_then (required (codes "a database role is required")) (P.select_role w))

-- The streams of `TerminalPrompt`: a prompt that is written and flushed, and a line that is read,
-- which is empty at the end of the input.
pub record Terminal : Type 1 where
  pub World : Type 0
  pub write_prompt : Chars → World → World × Result (Unit {0})
  pub read_line : World → World × Option Chars
  pub write_warning : Chars → World → World × Result (Unit {0})

module _ (T : Terminal) where
  abbrev pub answer_of : Chars → Option Chars
  answer_of line = if is_empty (trim line) then none else some (trim line)

  abbrev pub answered : T.World × Option Chars → T.World × Result (Option Chars)
  answered (w, none) = (w, err (runtime (codes "could not read interactive input")))
  answered (w, some line) = (w, ok (answer_of line))

  unfoldable pub ask : Chars → T.World → T.World × Result (Option Chars)
  unfolding trim
  ask question w = and_then (λ done v. answered (T.read_line v)) (T.write_prompt question w)

  abbrev pub confirms : Option Chars → Bool
  confirms none = false
  confirms (some s) =
      text_eq s (codes "y")
      || (text_eq s (codes "Y") || (text_eq s (codes "yes") || text_eq s (codes "YES")))

  abbrev pub role_choice : Option Chars → T.World → T.World × Result (Option RoleChoice)
  role_choice none w = (w, ok none)
  role_choice (some s) w =
      if text_eq s (codes "a") || (text_eq s (codes "A") || text_eq s (codes "admin"))
      then (w, ok (some admin_role))
      else if text_eq s (codes "c") || (text_eq s (codes "C") || text_eq s (codes "custom"))
      then (w, ok (some custom_role))
      else (w, err (usage (codes "choose admin or custom for the database role")))

  -- `impl Prompt for TerminalPrompt`
  abbrev pub terminal_prompt : Prompt
  terminal_prompt = record {
    World = T.World;
    select_cluster = λ clusters w.
        ask
          (codes "Select a cluster by ID ("
            ++ (decimal (length clusters) ++ codes " discoverable): "))
          w;
    confirm_unknown_cluster = λ c w.
        and_then (λ answer v. (v, ok (confirms answer)))
          (ask
            (codes "Cluster "
              ++ (escape_terminal_text c.id ++ codes " has unknown status; continue? [y/N]: "))
            w);
    manual_selector = λ w. ask (codes "Enter a cluster ID, ARN, or canonical endpoint: ") w;
    select_role =
        λ w. and_then role_choice (ask (codes "Database role ([a]dmin elevated, [c]ustom): ") w);
    custom_role_name = λ w. ask (codes "Custom database role: ") w;
    warning = λ message w. T.write_warning (codes "warning: " ++ message) w;
  }
