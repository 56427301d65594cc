-- ===== src/Clusters/Ordered.antt =====
-- The inventory keeps the order of the list, in whatever order the details arrive.
use mathlib.Core.Path.{subst}
use dsql_cli.Prelude.{
  ℕ, ◌+◌, ◌<◌, ◌≡◌, refl, sym, ap, ◌∙◌, arith, List, [], ◌∷◌, ◌++◌, Chars, All, All-append,
}
use dsql_cli.App.Data.{DiscoverableCluster}
use dsql_cli.Clusters.{
  ListedCluster, ClusterDetails, ApiResult, Row, insert_row, sort_rows, inventory, inventory_of,
  requested, enriched,
}

-- The rows arrive in some order: each of them somewhere among those behind it in the list.
pub data Arrives : List Row → List Row → Type 0 where
  no_rows : Arrives [] []
  one_more :
      (row : Row) (rows before after completed : List Row)
      → Arrives rows (before ++ after)
      → completed ≡ before ++ (row ∷ after)
      → Arrives (row ∷ rows) completed

abbrev Behind : Row → Row → Type 0
Behind row r = row.index < r.index

abbrev Ascending : List Row → Type 0
Ascending [] = Unit
Ascending (row ∷ rows) = All (Behind row) rows × Ascending rows

All-split-left : (P : Row → Type 0) (a b : List Row) → All P (a ++ b) → All P a
All-split-left P [] b h = tt
All-split-left P (r ∷ a) b h = (h.0, All-split-left P a b h.1)

All-split-right : (P : Row → Type 0) (a b : List Row) → All P (a ++ b) → All P b
All-split-right P [] b h = h
All-split-right P (r ∷ a) b h = All-split-right P a b h.1

Arrives-All :
    (P : Row → Type 0) (rows completed : List Row)
    → Arrives rows completed
    → All P rows
    → All P completed
Arrives-All P _ _ no_rows h = tt
Arrives-All P _ completed (one_more row rows before after _ rest e) h =
    let all = Arrives-All P rows (before ++ after) rest h.1 in
    subst (All P) (sym e) (
      All-append P before (row ∷ after) (All-split-left P before after all)
        (h.0, All-split-right P before after all))

-- Rows with other places can be inserted in either order.
insert_row_comm :
    (x y : Row) (l : List Row)
    → x.index < y.index
    → insert_row y (insert_row x l) ≡ insert_row x (insert_row y l)
unfolding insert_row
insert_row_comm x y [] h = ground arith
insert_row_comm x y (r ∷ l) h = ground (arith, insert_row_comm x y l h)

sort_rows-insert_row :
    (row : Row) (before after : List Row)
    → All (Behind row) before
    → sort_rows (before ++ (row ∷ after)) ≡ insert_row row (sort_rows (before ++ after))
unfolding sort_rows
sort_rows-insert_row row [] after h = refl
sort_rows-insert_row row (b ∷ before) after h =
    ap (insert_row b) (sort_rows-insert_row row before after h.1)
    ∙ insert_row_comm row b (sort_rows (before ++ after)) h.0

insert_row-first :
    (row : Row) (rows : List Row) → All (Behind row) rows → insert_row row rows ≡ row ∷ rows
unfolding insert_row
insert_row-first row [] h = refl
insert_row-first row (r ∷ rows) h = (let k = h.0 in ground arith)

sort_rows-Arrives :
    (rows completed : List Row)
    → Arrives rows completed
    → Ascending rows
    → sort_rows completed ≡ rows
sort_rows-Arrives _ _ no_rows h = unfold sort_rows in refl
sort_rows-Arrives _ completed (one_more row rows before after _ rest e) h =
    let all = Arrives-All (Behind row) rows (before ++ after) rest h.0 in
    ap sort_rows e
    ∙ sort_rows-insert_row row before after (All-split-left (Behind row) before after all)
    ∙ ap (insert_row row) (sort_rows-Arrives rows (before ++ after) rest h.1)
    ∙ insert_row-first row rows h.0

requested-Behind :
    (get : Chars → ApiResult ClusterDetails) (row : Row) (index : ℕ) (listed : List ListedCluster)
    → row.index < index
    → All (Behind row) (requested get index listed)
requested-Behind get row index [] h = tt
requested-Behind get row index (l ∷ listed) h =
    (h, requested-Behind get row (index + 1) listed (omega arith))

requested-Ascending :
    (get : Chars → ApiResult ClusterDetails) (index : ℕ) (listed : List ListedCluster)
    → Ascending (requested get index listed)
requested-Ascending get index [] = tt
requested-Ascending get index (l ∷ listed) =
    let row : Row = record { index = index; listed = l; detail = get l.identifier } in
    (
      requested-Behind get row (index + 1) listed (omega arith),
      requested-Ascending get (index + 1) listed,
    )

-- The clusters of a list with what is known of each, in the order of the list.
abbrev pub in_order :
    Chars → (Chars → ApiResult ClusterDetails) → List ListedCluster → List DiscoverableCluster
in_order region get [] = []
in_order region get (l ∷ listed) =
    inventory region l (get l.identifier) ∷ in_order region get listed

inventory_of-requested :
    (region : Chars) (get : Chars → ApiResult ClusterDetails) (index : ℕ)
    (listed : List ListedCluster)
    → inventory_of region (requested get index listed) ≡ in_order region get listed
inventory_of-requested region get index [] = refl
inventory_of-requested region get index (l ∷ listed) =
    ap (λ (r : List DiscoverableCluster). inventory region l (get l.identifier) ∷ r)
      (inventory_of-requested region get (index + 1) listed)

-- In whatever order the details arrive, the inventory has a row for each listed cluster, in the order
-- of the list, with that cluster's own details or the reason why it has none.
pub enriched-in_order :
    (region : Chars) (get : Chars → ApiResult ClusterDetails) (listed : List ListedCluster)
    (completed : List Row)
    → Arrives (requested get 0 listed) completed
    → enriched region completed ≡ in_order region get listed
unfolding enriched
enriched-in_order region get listed completed arrives =
    ap (inventory_of region) (
      sort_rows-Arrives (requested get 0 listed) completed arrives
        (requested-Ascending get 0 listed))
    ∙ inventory_of-requested region get 0 listed
