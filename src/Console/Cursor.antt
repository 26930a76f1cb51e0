-- ===== src/Console/Cursor.antt =====
-- zeos/io.c: printc, printc_xy and printk keep the cursor on the screen and write inside it.
use fib_so.Prelude.{
  ℕ, zero, suc, ◌+◌, ◌*◌, ◌≤◌, ◌<◌, ◌≡◌, ◌≢◌, refl, arith, update, some, List, [], ◌∷◌, ◌++◌,
  append_assoc, append-nil, has, false, sym, ◌∙◌,
}
use fib_so.Memory.{Mem, bytes}
use fib_so.Console.{
  Screen, num_columns, num_rows, newline, green, printc, printc_xy, printk, print_from,
}

-- The cursor lies on the screen.
abbrev pub OnScreen : Screen → Type 0
OnScreen s = (s.x < num_columns) × (s.y < num_rows)

-- The characters of a list printed in turn.
unfoldable pub print_all : List ℕ → Screen → Screen
print_all [] s = s
print_all (c ∷ cs) s = print_all cs (printc c s)

-- printc keeps the cursor on the screen, sends its character to the port, and writes no cell
-- behind the last of the screen, whatever the character.
printc-OnScreen :
    (c : ℕ) (s : Screen)
    → OnScreen s
    → OnScreen (printc c s)
      × ((printc c s).port ≡ s.port ++ (c ∷ []))
      × ((i : ℕ) → num_columns * num_rows ≤ i → (printc c s).cells i ≡ s.cells i)
unfolding printc
printc-OnScreen c s on = (ground arith, ground arith, λ i h. ground arith)

-- printc_xy puts a character other than a newline at its place, and changes no other cell and not
-- the cursor.
pub printc_xy-at :
    (mx my c : ℕ) (s : Screen)
    → c ≢ newline
    → printc_xy mx my c s ≡ record s {
      cells = update s.cells (my * num_columns + mx) (green c);
      port = s.port ++ (c ∷ []);
    }
unfolding printc_xy
printc_xy-at mx my c s ne = ground arith

-- printk prints a string up to its closing 0, and stops there.
pub printk-print_all :
    (cs rest : List ℕ) (s : Screen)
    → has 0 cs ≡ false
    → printk (cs ++ (0 ∷ rest)) s ≡ some (print_all cs s)
unfolding printk print_all
printk-print_all [] rest s h = refl
printk-print_all (c ∷ cs) rest s h = ground (arith, printk-print_all cs rest (printc c s))

print_all-OnScreen :
    (cs : List ℕ) (s : Screen)
    → OnScreen s
    → OnScreen (print_all cs s) × ((print_all cs s).port ≡ s.port ++ cs)
unfolding print_all
print_all-OnScreen [] s on = (on, sym (append-nil s.port))
print_all-OnScreen (c ∷ cs) s on =
    let one = printc-OnScreen c s on in
    let more = print_all-OnScreen cs (printc c s) one.0 in
    (more.0, more.1 ∙ rw one.1 (append_assoc s.port (c ∷ []) cs))

pub print_from-print_all :
    (n : ℕ) (m : Mem) (a : ℕ) (s : Screen) → print_from m a n s ≡ print_all (bytes m a n) s
unfolding print_from print_all
print_from-print_all zero m a s = refl
print_from-print_all (suc n) m a s = print_from-print_all n m (a + 1) (printc (m a) s)
