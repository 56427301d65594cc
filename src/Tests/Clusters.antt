-- ===== src/Tests/Clusters.antt =====
-- src/aws/clusters.rs: an inventory whose details arrive out of order, and the theorem at it.
use dsql_cli.Prelude.{
  ℕ, ◌≡◌, refl, Option, none, some, List, [], ◌∷◌, Chars, codes, text_eq, if◌then◌else◌,
}
use dsql_cli.Error.{ok}
use dsql_cli.App.Data.{active, unknown}
use dsql_cli.Clusters.{
  ListedCluster, ClusterPage, ClusterDetails, ApiResult, found, lost, throttled, Row, requested,
  enriched, map_status, list_pages,
}
use dsql_cli.Clusters.Ordered.{Arrives, no_rows, one_more, in_order, enriched-in_order}

maps_status : (map_status (codes "ACTIVE") ≡ active) × (map_status (codes "NEW") ≡ unknown)
unfolding map_status
maps_status = (refl, refl)

abbrev listed_cluster : Chars → ListedCluster
listed_cluster id = record { identifier = id; arn = codes "arn" }

abbrev listed : List ListedCluster
listed = listed_cluster (codes "a") ∷ listed_cluster (codes "b") ∷ []

-- Two pages; the world counts the calls.
abbrev pages : Option Chars → ℕ → ℕ × ApiResult ClusterPage
pages none w = (
  1,
  found (record { clusters = listed_cluster (codes "a") ∷ []; next_token = some (codes "t") }),
)
pages (some token) w =
    (2, found (record { clusters = listed_cluster (codes "b") ∷ []; next_token = none }))

lists_pages : list_pages ℕ pages 2 [] none [] 0 ≡ (2, some (ok listed))
unfolding list_pages
lists_pages = refl

abbrev get : Chars → ApiResult ClusterDetails
get id =
    if text_eq id (codes "a")
    then found (record { endpoint = none; lifecycle_status = codes "ACTIVE"; display_name = none })
    else lost throttled

abbrev row : ℕ → Chars → Row
row index id = record { index = index; listed = listed_cluster id; detail = get id }

-- The second cluster's details arrive first.
abbrev completed : List Row
completed = row 1 (codes "b") ∷ row 0 (codes "a") ∷ []

completed-Arrives : Arrives (requested get 0 listed) completed
completed-Arrives =
    one_more (row 0 (codes "a")) (row 1 (codes "b") ∷ []) (row 1 (codes "b") ∷ []) [] completed
      (one_more (row 1 (codes "b")) [] [] [] (row 1 (codes "b") ∷ []) no_rows refl) refl

enriched-in_order_example :
    enriched (codes "us-east-1") completed ≡ in_order (codes "us-east-1") get listed
enriched-in_order_example =
    enriched-in_order (codes "us-east-1") get listed completed completed-Arrives
