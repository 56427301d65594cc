-- ===== src/Output/Jsonl/Consumer.antt =====
-- A consumer of the lines: which frames it accepts, after which.
use dsql_cli.Prelude.{
  ℕ, ◌+◌, ◌%◌, ◌≡◌, refl, arith, Bool, true, false, ◌&&◌, Option, none, some, ◌>>=◌, List, [], ◌∷◌,
  Chars, length, ◌==◌, ==_iff, if◌then◌else◌,
}
use dsql_cli.App.Session.{u64_mod}
use dsql_cli.Output.Jsonl.{
  Frame, columns_frame, row_frame, complete_frame, command_frame, notice_frame, error_frame,
  ActiveResult,
}

-- A consumer: the next result's number, the open result, and whether an error has ended the stream.
pub record Consumer : Type 0 where
  pub next : ℕ
  pub open_result : Option ActiveResult
  pub over : Bool

abbrev pub only_if : Bool → Consumer → Option Consumer
only_if true c = some c
only_if false c = none

-- Results have consecutive numbers and do not overlap; a row is of the open result and as wide as
-- its columns; the completion has the number of rows.
abbrev pub read_frame : Consumer → Option ActiveResult → Frame → Option Consumer
read_frame c none (columns_frame i names) = only_if (i == c.next) (record c {
  next = (c.next + 1) % u64_mod;
  open_result = some (record { index = i; width = length names; rows = 0 });
})
read_frame c (some a) (row_frame i values) =
    only_if (i == a.index && length values == a.width)
      (record c { open_result = some (record a { rows = (a.rows + 1) % u64_mod }) })
read_frame c (some a) (complete_frame i n) =
    only_if (i == a.index && n == a.rows) (record c { open_result = none })
read_frame c none (command_frame n) = some c
read_frame c o (notice_frame message) = some c
read_frame c o (error_frame sqlstate message) = some (record c { over = true })
read_frame c _ _ = none

-- Nothing follows an error.
abbrev pub consume : Consumer → Frame → Option Consumer
consume c frame = if c.over then none else read_frame c c.open_result frame

-- The frames of a log, the last one first.
unfoldable pub consumed : List Frame → Option Consumer
consumed [] = some (record { next = 0; open_result = none; over = false })
consumed (frame ∷ older) = consumed older >>= λ c. consume c frame

pub consume-columns :
    (c : Consumer) (names : List Chars)
    → c.over ≡ false
    → c.open_result ≡ none
    → consume c (columns_frame c.next names)
      ≡ some (record c {
        next = (c.next + 1) % u64_mod;
        open_result = some (record { index = c.next; width = length names; rows = 0 });
      })
consume-columns c names h k = rw (h, k, (==_iff c.next c.next).1 refl)

pub consume-row :
    (c : Consumer) (a : ActiveResult) (values : List (Option Chars))
    → c.over ≡ false
    → c.open_result ≡ some a
    → (length values == a.width) ≡ true
    → consume c (row_frame a.index values)
      ≡ some (record c { open_result = some (record a { rows = (a.rows + 1) % u64_mod }) })
consume-row c a values h k same = rw (h, k, (==_iff a.index a.index).1 refl, same)

pub consume_complete :
    (c : Consumer) (a : ActiveResult) (n : ℕ)
    → c.over ≡ false
    → c.open_result ≡ some a
    → (a.rows == n) ≡ true
    → consume c (complete_frame a.index n) ≡ some (record c { open_result = none })
consume_complete c a n h k same =
    let other : (n == a.rows) ≡ true = ground arith in
    rw (h, k, (==_iff a.index a.index).1 refl, other)

pub consume-command :
    (c : Consumer) (n : ℕ)
    → c.over ≡ false
    → c.open_result ≡ none
    → consume c (command_frame n) ≡ some c
consume-command c n h k = rw (h, k)

pub read_frame-notice :
    (c : Consumer) (a : Option ActiveResult) (message : Chars)
    → read_frame c a (notice_frame message) ≡ some c
read_frame-notice c none message = refl
read_frame-notice c (some a) message = refl

pub read_frame-error :
    (c : Consumer) (a : Option ActiveResult) (sqlstate : Option Chars) (message : Chars)
    → read_frame c a (error_frame sqlstate message) ≡ some (record c { over = true })
read_frame-error c none sqlstate message = refl
read_frame-error c (some a) sqlstate message = refl

pub consume-open :
    (c : Consumer) (f : Frame) → c.over ≡ false → consume c f ≡ read_frame c c.open_result f
consume-open c f h = rw h

pub consumed-next :
    (f : Frame) (log : List Frame) (c d : Consumer)
    → consumed log ≡ some c
    → consume c f ≡ some d
    → consumed (f ∷ log) ≡ some d
unfolding consumed
consumed-next f log c d h k = rw h k
