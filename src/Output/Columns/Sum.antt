-- ===== src/Output/Columns/Sum.antt =====
-- The widths of a table's columns use the whole width of the display.
use dsql_cli.Prelude.{
  ℕ, zero, suc, ◌+◌, ◌-◌, ◌*◌, ◌≤◌, max, ◌≡◌, refl, ◌∙◌, arith, true, Bool-cases, inl, inr, List,
  [], ◌∷◌, map, length-rev_onto, Chars, length, rev_onto,
}
use dsql_cli.Output.Columns.{
  Grown, grow, grow_all, first_up, share, ones, widths_for, Widths, column_widths,
}

abbrev pub sum : List ℕ → ℕ
sum [] = 0
sum (n ∷ l) = n + sum l

-- What a list of widths is made of, apart from their distribution.
abbrev Same : List ℕ → ℕ → Grown → Type 0
Same ws remaining g =
    (length g.widths ≡ length ws) × (sum g.widths + g.remaining ≡ sum ws + remaining)

grow-Same : (ws ds : List ℕ) (remaining : ℕ) → Same ws remaining (grow ws ds remaining)
unfolding grow
grow-Same [] ds remaining = (refl, refl)
grow-Same (w ∷ ws) [] remaining = (refl, refl)
grow-Same (w ∷ ws) (d ∷ ds) zero = (refl, refl)
grow-Same (w ∷ ws) (d ∷ ds) (suc remaining) =
    let a = grow-Same ws ds remaining in let b = grow-Same ws ds (suc remaining) in ground arith

grow-remaining : (ws ds : List ℕ) (remaining : ℕ) → (grow ws ds remaining).remaining ≤ remaining
unfolding grow
grow-remaining [] ds remaining = omega arith
grow-remaining (w ∷ ws) [] remaining = omega arith
grow-remaining (w ∷ ws) (d ∷ ds) zero = omega arith
grow-remaining (w ∷ ws) (d ∷ ds) (suc remaining) =
    ground (arith, grow-remaining ws ds remaining, grow-remaining ws ds (suc remaining))

grow-grew :
    (ws ds : List ℕ) (remaining : ℕ)
    → (grow ws ds remaining).grew ≡ true
    → (grow ws ds remaining).remaining + 1 ≤ remaining
unfolding grow
grow-grew [] ds remaining e = absurd (cc)
grow-grew (w ∷ ws) [] remaining e = absurd (cc)
grow-grew (w ∷ ws) (d ∷ ds) zero e = absurd (cc)
grow-grew (w ∷ ws) (d ∷ ds) (suc remaining) e = ground (
  arith,
  (grow-Same ws ds remaining).1,
  grow-remaining ws ds remaining,
  grow-grew ws ds (suc remaining),
)

-- The fuel is enough: the loop gives the same with any that is more than what remains.
grow_all_enough :
    (fuel other : ℕ) (ws ds : List ℕ) (remaining : ℕ)
    → remaining + 1 ≤ fuel
    → remaining + 1 ≤ other
    → grow_all fuel ws ds remaining ≡ grow_all other ws ds remaining
unfolding grow_all
grow_all_enough zero other ws ds remaining h k = absurd (omega arith)
grow_all_enough (suc fuel) zero ws ds remaining h k = absurd (omega arith)
grow_all_enough (suc fuel) (suc other) ws ds remaining h k =
    elim (Bool-cases (grow ws ds remaining).grew) [
      | inl e ↦
          (let g = grow ws ds remaining in
            let less = grow-grew ws ds remaining e in
            let ih =
              grow_all_enough fuel other g.widths ds g.remaining (omega (arith, less))
                (omega (arith, less)) in
            rw (e, ih) refl)
      | inr e ↦ rw e refl
    ]

grow_all-Same :
    (fuel : ℕ) (ws ds : List ℕ) (remaining : ℕ) → Same ws remaining (grow_all fuel ws ds remaining)
unfolding grow_all
grow_all-Same zero ws ds remaining = (refl, refl)
grow_all-Same (suc fuel) ws ds remaining =
    let g = grow ws ds remaining in
    let one = grow-Same ws ds remaining in
    let rest = grow_all-Same fuel g.widths ds g.remaining in ground arith

sum-rev_onto : (l r : List ℕ) → sum (rev_onto l r) ≡ sum l + sum r
sum-rev_onto [] r = omega arith
sum-rev_onto (n ∷ l) r = omega (arith, sum-rev_onto l (n ∷ r))

first_up_lem :
    (l : List ℕ)
    → 1 ≤ length l
    → (length (first_up l).0 + length (first_up l).1 ≡ length l)
      × (sum (first_up l).0 + sum (first_up l).1 ≡ sum l + 1)
first_up_lem [] h = absurd (omega arith)
first_up_lem (w ∷ ws) h = (omega arith, omega arith)

-- The shared widths add up, where there is a column to take them.
share-sum :
    (remaining : ℕ) (behind ws : List ℕ)
    → 1 ≤ length behind + length ws
    → (length (share remaining behind ws) ≡ length behind + length ws)
      × (sum (share remaining behind ws) ≡ sum behind + sum ws + remaining)
unfolding share
share-sum zero behind ws h =
    (omega (arith, length-rev_onto behind ws), omega (arith, sum-rev_onto behind ws))
share-sum (suc remaining) behind (w ∷ ws) h =
    let ih = share-sum remaining ((w + 1) ∷ behind) ws (omega arith) in
    (omega (arith, ih.0), omega (arith, ih.1))
share-sum (suc remaining) behind [] h =
    let l = rev_onto behind [] in
    let size = length-rev_onto behind [] in
    let total = sum-rev_onto behind [] in
    let up = first_up_lem l (omega (arith, size)) in
    let ih = share-sum remaining (first_up l).0 (first_up l).1 (omega (arith, up.0, size)) in
    (omega (arith, ih.0, up.0, size), omega (arith, ih.1, up.1, total))

ones_lem : (l : List ℕ) → (length (ones l) ≡ length l) × (sum (ones l) ≡ length l)
ones_lem [] = (refl, refl)
ones_lem (n ∷ l) = (omega (arith, (ones_lem l).0), omega (arith, (ones_lem l).1))

length-map : (f : Chars → ℕ) (l : List Chars) → length (map f l) ≡ length l
length-map f [] = refl
length-map f (s ∷ l) = omega (arith, length-map f l)

widths_for-sum :
    (desired : List ℕ) (display_width : ℕ)
    → 1 ≤ length desired
    → (length (widths_for desired display_width) ≡ length desired)
      × (sum (widths_for desired display_width) + (length desired - 1)
          ≡ max display_width (2 * length desired - 1))
unfolding widths_for
widths_for-sum desired display_width h =
    let remaining = max (display_width - (length desired - 1)) (length desired) - length desired in
    let g = grow_all (suc remaining) (ones desired) desired remaining in
    let same = grow_all-Same (suc remaining) (ones desired) desired remaining in
    let one = ones_lem desired in
    let shared = share-sum g.remaining [] g.widths (omega (arith, same.0, one.0)) in
    (omega (arith, shared.0, same.0, one.0), omega (arith, shared.1, same.1, one.1))

-- The columns and the bars between them fill the display exactly, or are two characters for each
-- column less one where the display is narrower.
pub column_widths-sum :
    (W : Widths) (headers : List Chars) (display_width : ℕ)
    → 1 ≤ length headers
    → (length (column_widths W headers display_width) ≡ length headers)
      × (sum (column_widths W headers display_width) + (length headers - 1)
          ≡ max display_width (2 * length headers - 1))
unfolding column_widths
column_widths-sum W headers display_width h =
    let desired = map (λ s. max (W.str_width s) 1) headers in
    let size = length-map (λ s. max (W.str_width s) 1) headers in
    let whole = widths_for-sum desired display_width (omega (arith, size)) in
    (whole.0 ∙ size, omega (arith, whole.1, size))
