-- ===== src/Clusters.antt =====
-- src/aws/clusters.rs: the discovery of clusters over the pages of an API, and their details, which
-- arrive in any order.
pub mod Ordered
use dsql_cli.Prelude.{
  ℕ, zero, suc, ◌+◌, Bool, true, false, Option, none, some, List, [], ◌∷◌, ◌++◌, map, Chars, codes,
  length, leb, ltb, text_eq, ◌||◌, if◌then◌else◌,
}
use dsql_cli.Error.{ApplicationError, runtime, Result, ok, err}
use dsql_cli.App.Data.{
  DiscoverableCluster, EnrichmentErrorCategory, EnrichmentState, complete, unavailable,
  ClusterStatus, creating, active, idle, inactive, updating, deleting, deleted, failed,
  pending_setup, pending_delete, unknown,
}

abbrev pub max_discoverable_clusters : ℕ
max_discoverable_clusters = 10000

pub record ListedCluster : Type 0 where
  pub identifier : Chars
  pub arn : Chars

pub record ClusterPage : Type 0 where
  pub clusters : List ListedCluster
  pub next_token : Option Chars

pub record ClusterDetails : Type 0 where
  pub endpoint : Option Chars
  pub lifecycle_status : Chars
  pub display_name : Option Chars

pub data ClusterApiError : Type 0 where
  access_denied throttled not_found other : ClusterApiError

pub data ApiResult (A : Type 0) : Type 0 where
  found : A → ApiResult A
  lost : ClusterApiError → ApiResult A

unfoldable pub map_enrichment_error : ClusterApiError → EnrichmentErrorCategory
map_enrichment_error ClusterApiError.access_denied = EnrichmentErrorCategory.access_denied
map_enrichment_error ClusterApiError.throttled = EnrichmentErrorCategory.throttled
map_enrichment_error ClusterApiError.not_found = EnrichmentErrorCategory.not_found
map_enrichment_error ClusterApiError.other = EnrichmentErrorCategory.other

unfoldable pub map_status : Chars → ClusterStatus
map_status status =
    if text_eq status (codes "ACTIVE")
    then active
    else if text_eq status (codes "CREATING")
    then creating
    else if text_eq status (codes "IDLE")
    then idle
    else if text_eq status (codes "INACTIVE")
    then inactive
    else if text_eq status (codes "UPDATING")
    then updating
    else if text_eq status (codes "DELETING")
    then deleting
    else if text_eq status (codes "DELETED")
    then deleted
    else if text_eq status (codes "FAILED")
    then failed
    else if text_eq status (codes "PENDING_SETUP")
    then pending_setup
    else if text_eq status (codes "PENDING_DELETE")
    then pending_delete
    else unknown

unfoldable pub extend_listed_clusters :
    List ListedCluster → List ListedCluster → ℕ → Result (List ListedCluster)
extend_listed_clusters listed page limit =
    if ltb limit (length listed + length page)
    then err (runtime (codes "cluster discovery returned too many clusters"))
    else ok (listed ++ page)

abbrev pub seen : Chars → List Chars → Bool
seen token [] = false
seen token (t ∷ tokens) = text_eq t token || seen token tokens

-- What one page leads to: the listed clusters are complete, or a token for the next page.
pub data Paging : Type 0 where
  listed_all : List ListedCluster → Paging
  next_page : List ListedCluster → Chars → List Chars → Paging
  refused : ApplicationError → Paging

abbrev pub by_token : List ListedCluster → List Chars → Option Chars → Paging
by_token listed tokens none = listed_all listed
by_token listed tokens (some token) =
    if seen token tokens
    then refused (runtime (codes "cluster discovery pagination did not advance"))
    else next_page listed token (token ∷ tokens)

abbrev pub extended : Result (List ListedCluster) → List Chars → Option Chars → Paging
extended (ok listed) tokens token = by_token listed tokens token
extended (err e) tokens token = refused e

unfoldable pub after_page : List ListedCluster → List Chars → ApiResult ClusterPage → Paging
unfolding extend_listed_clusters
after_page listed tokens (lost e) =
    refused (runtime (codes "could not discover Aurora DSQL clusters"))
after_page listed tokens (found page) =
    extended (extend_listed_clusters listed page.clusters max_discoverable_clusters) tokens
      page.next_token

-- A row whose details have arrived, with its place in the list.
pub record Row : Type 0 where
  pub index : ℕ
  pub listed : ListedCluster
  pub detail : ApiResult ClusterDetails

-- `sort_by_key`
unfoldable pub insert_row : Row → List Row → List Row
insert_row row [] = row ∷ []
insert_row row (r ∷ rows) =
    let rest = insert_row row rows in if leb row.index r.index then row ∷ r ∷ rows else r ∷ rest

unfoldable pub sort_rows : List Row → List Row
unfolding insert_row
sort_rows [] = []
sort_rows (row ∷ rows) = insert_row row (sort_rows rows)

abbrev pub inventory : Chars → ListedCluster → ApiResult ClusterDetails → DiscoverableCluster
inventory region listed (found detail) = record {
  id = listed.identifier;
  arn = some listed.arn;
  region = region;
  endpoint = detail.endpoint;
  status = some (map_status detail.lifecycle_status);
  display_name = detail.display_name;
  enrichment = complete;
}
inventory region listed (lost e) = record {
  id = listed.identifier;
  arn = some listed.arn;
  region = region;
  endpoint = none;
  status = none;
  display_name = none;
  enrichment = unavailable (map_enrichment_error e);
}

abbrev pub inventory_of : Chars → List Row → List DiscoverableCluster
inventory_of region [] = []
inventory_of region (row ∷ rows) = inventory region row.listed row.detail ∷ inventory_of region rows

-- `enumerate`, with what `get_cluster` answers for each cluster.
abbrev pub requested : (Chars → ApiResult ClusterDetails) → ℕ → List ListedCluster → List Row
requested get index [] = []
requested get index (l ∷ listed) =
    record { index = index; listed = l; detail = get l.identifier }
    ∷ requested get (index + 1) listed

-- The rows behind `collect`, in the order in which the details arrived.
unfoldable pub enriched : Chars → List Row → List DiscoverableCluster
unfolding sort_rows
enriched region completed = inventory_of region (sort_rows completed)

module _ (World : Type 0)
    (list_clusters : Option Chars → World → World × ApiResult ClusterPage) where
  abbrev pub Pages : Type 0
  Pages = World × Option (Result (List ListedCluster))

  abbrev pub go_on : Paging → World → (List ListedCluster → Chars → List Chars → Pages) → Pages
  go_on (listed_all l) v again = (v, some (ok l))
  go_on (next_page l t ts) v again = again l t ts
  go_on (refused e) v again = (v, some (err e))

  -- The loop over the pages. The API gives as many as it does: none where there are more.
  unfoldable pub list_pages : ℕ → List ListedCluster → Option Chars → List Chars → World → Pages
  unfolding after_page
  list_pages zero listed token tokens w = (w, none)
  list_pages (suc pages) listed token tokens w =
      let (v, answer) = list_clusters token w in
      go_on (after_page listed tokens answer) v (λ l t ts. list_pages pages l (some t) ts v)
