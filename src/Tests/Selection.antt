-- ===== src/Tests/Selection.antt =====
-- src/cli.rs: a user who answers the prompts, and the theorem at their answers.
use dsql_cli.Prelude.{◌≡◌, refl, Option, none, some, List, [], ◌∷◌, Chars, codes}
use dsql_cli.Prelude.Decimal
use dsql_cli.Error.{ok}
use dsql_cli.App.Data
use dsql_cli.App.Data.{
  DiscoverableCluster, ClusterStatus, active, failed, unknown, from_discovered, custom,
}
use dsql_cli.Output.{escape_terminal_text}
use dsql_cli.Shell.Commands
use dsql_cli.Cli.Selection
use dsql_cli.Cli.Selection.{
  Terminal, terminal_prompt, select_discovered_target, list_clusters, select_database_role,
}
use dsql_cli.Cli.Selection.Selectable.{Chosen, select_discovered_target-Chosen}

-- The world is the lines that the user will type.
abbrev first_line : List Chars → List Chars × Option Chars
first_line [] = ([], some [])
first_line (l ∷ ls) = (ls, some l)

abbrev typing : Terminal
typing = record {
  World = List Chars;
  write_prompt = λ s w. (w, ok tt);
  read_line = first_line;
  write_warning = λ s w. (w, ok tt);
}

abbrev cluster : Chars → ClusterStatus → DiscoverableCluster
cluster id status = record {
  id = id;
  arn = none;
  region = codes "us-east-1";
  endpoint = none;
  status = some status;
  display_name = none;
  enrichment = Data.complete;
}

abbrev inventory : List DiscoverableCluster
inventory = cluster (codes "a") failed ∷ cluster (codes "b") unknown ∷ []

-- The failed cluster is refused, the unknown one is confirmed.
selects :
    select_discovered_target
      (terminal_prompt typing)
      2
      inventory
      (codes "a\n" ∷ codes " b \n" ∷ codes "y\n" ∷ [])
    ≡ some ([], ok (from_discovered (cluster (codes "b") unknown)))
unfolding select_discovered_target Decimal.decimal escape_terminal_text Selection.ask Commands.trim
selects = refl

asks_for_role :
    select_database_role (terminal_prompt typing) none (codes "c\n" ∷ codes "reader\n" ∷ [])
    ≡ ([], ok (custom (codes "reader")))
unfolding select_database_role Selection.ask Commands.trim
asks_for_role = refl

select_discovered_target-Chosen_example :
    Chosen
      (terminal_prompt typing)
      inventory
      (list_clusters
        (terminal_prompt typing)
        inventory
        (codes "a\n" ∷ codes " b \n" ∷ codes "y\n" ∷ [])).0
      []
      (from_discovered (cluster (codes "b") unknown))
select_discovered_target-Chosen_example =
    select_discovered_target-Chosen (terminal_prompt typing) 2 inventory
      (codes "a\n" ∷ codes " b \n" ∷ codes "y\n" ∷ []) []
      (from_discovered (cluster (codes "b") unknown)) selects
