-- ===== src/Console/Clear.antt =====
-- zeos/io.c: clear_screen.
use fib_so.Prelude.{
  ℕ, zero, suc, ◌+◌, ◌/◌, ◌%◌, ◌<◌, ◌≡◌, refl, arith, ◌==◌, leb, ltb, ◌&&◌, if◌then◌else◌, ◌∙◌, ap,
}
use fib_so.Console.{Screen, green, printc_xy, clear_column, clear_columns, clear_screen}
use fib_so.Console.Cursor.{printc_xy-at}

-- The screen after a column has been cleared from row `j` on for `n` rows.
record Column (i j n : ℕ) (s t : Screen) : Type 0 where
  x : t.x ≡ s.x
  y : t.y ≡ s.y
  cells :
      (k : ℕ)
      → t.cells k
        ≡ (if k % 80 == i && leb j (k / 80) && ltb (k / 80) (j + n) then green b' ' else s.cells k)

clear_column-Column : (n i j : ℕ) (s : Screen) → i < 80 → Column i j n s (clear_column n i j s)
unfolding clear_column
clear_column-Column zero i j s h = record { x = refl; y = refl; cells = λ k. ground arith }
clear_column-Column (suc n) i j s h =
    let step = printc_xy-at i j b' ' s (omega arith) in
    let rest = clear_column-Column n i (j + 1) (printc_xy i j b' ' s) h in
    record {
      x = rest.x ∙ ap (λ (t : Screen). t.x) step;
      y = rest.y ∙ ap (λ (t : Screen). t.y) step;
      cells = λ k. ground (arith, rest.cells k, ap (λ (t : Screen). t.cells k) step);
    }

record Columns (i n : ℕ) (s t : Screen) : Type 0 where
  x : t.x ≡ s.x
  y : t.y ≡ s.y
  cells :
      (k : ℕ)
      → k < 2000
      → t.cells k ≡ (if leb i (k % 80) && ltb (k % 80) (i + n) then green b' ' else s.cells k)

clear_columns-Columns : (n i : ℕ) (s : Screen) → i + n < 81 → Columns i n s (clear_columns n i s)
unfolding clear_columns
clear_columns-Columns zero i s h = record { x = refl; y = refl; cells = λ k lt. ground arith }
clear_columns-Columns (suc n) i s h =
    let one = clear_column-Column 25 i 0 s (omega arith) in
    let rest = clear_columns-Columns n (i + 1) (clear_column 25 i 0 s) (omega arith) in
    record {
      x = rest.x ∙ one.x;
      y = rest.y ∙ one.y;
      cells = λ k lt. ground (arith, rest.cells k lt, one.cells k);
    }

-- clear_screen puts a space into each of the 2000 cells of the screen, and leaves the cursor where
-- it was.
clear_screen-blank :
    (s : Screen)
    → ((clear_screen s).x ≡ s.x)
      × ((clear_screen s).y ≡ s.y)
      × ((k : ℕ) → k < 2000 → (clear_screen s).cells k ≡ green b' ')
unfolding clear_screen
clear_screen-blank s =
    let r = clear_columns-Columns 80 0 s (omega arith) in
    (r.x, r.y, λ k lt. ground (arith, r.cells k lt))
