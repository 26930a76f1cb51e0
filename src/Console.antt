-- ===== src/Console.antt =====
-- zeos/io.c and zeos/devices.c: the 80x25 text screen, its cursor, and what goes through port 0xe9.
pub mod Cursor
pub mod Clear
use fib_so.Prelude.{
  ℕ, zero, suc, ◌+◌, ◌*◌, ◌%◌, ◌==◌, leb, if◌then◌else◌, update, Option, none, some, List, [], ◌∷◌,
  ◌++◌,
}
use fib_so.Prelude.Int.{ℤ, pos, negsuc}
use fib_so.Memory.{Mem}

abbrev pub num_columns : ℕ
num_columns = 80

abbrev pub num_rows : ℕ
num_rows = 25

-- The cursor (two bytes), the words of the screen memory from 0xb8000 on, and the characters that
-- went through port 0xe9, the first in front.
pub record Screen : Type 0 where
  pub x : ℕ
  pub y : ℕ
  pub cells : ℕ → ℕ
  pub port : List ℕ

abbrev pub newline : ℕ
newline = 10

unfoldable pub bochs_out : ℕ → Screen → Screen
bochs_out c s = record s { port = s.port ++ (c ∷ []) }

-- The word of a character: `(c & 0x00FF) | 0x0200`.
abbrev pub green : ℕ → ℕ
green c = c % 256 + 0x0200

unfoldable pub printc : ℕ → Screen → Screen
unfolding bochs_out
printc c s =
    let s1 : Screen = bochs_out c s in
    if c == newline
    then record s1 { x = 0; y = (s1.y + 1) % num_rows }
    else (let s2 : Screen = record s1 {
      cells = update s1.cells (s1.y * num_columns + s1.x) (green c);
    } in
        let x1 : ℕ = (s2.x + 1) % 256 in
        if leb num_columns x1
        then record s2 { x = 0; y = (s2.y + 1) % num_rows }
        else record s2 { x = x1 })

unfoldable pub printc_xy : ℕ → ℕ → ℕ → Screen → Screen
unfolding printc
printc_xy mx my c s =
    let s1 : Screen = printc c (record s { x = mx; y = my }) in record s1 { x = s.x; y = s.y }

-- A string literal with its closing 0. One without it would be read past its end: `none`.
unfoldable pub printk : List ℕ → Screen → Option Screen
printk [] s = none
printk (c ∷ cs) s = let rest = printk cs (printc c s) in if c == 0 then some s else rest

-- `for (j = j; j < 25; ++j) printc_xy(i, j, ' ');` with the rounds left.
clear_column : ℕ → ℕ → ℕ → Screen → Screen
clear_column zero i j s = s
clear_column (suc n) i j s = clear_column n i (j + 1) (printc_xy i j b' ' s)

clear_columns : ℕ → ℕ → Screen → Screen
clear_columns zero i s = s
clear_columns (suc n) i s = clear_columns n (i + 1) (clear_column 25 i 0 s)

pub clear_screen : Screen → Screen
clear_screen s = clear_columns 80 0 s

-- `for (i = 0; i < n; i++) printc(buffer[i]);`
unfoldable pub print_from : Mem → ℕ → ℕ → Screen → Screen
print_from m buffer zero s = s
print_from m buffer (suc n) s = print_from m (buffer + 1) n (printc (m buffer) s)

unfoldable pub sys_write_console : Mem → ℕ → ℤ → Screen → ℤ × Screen
unfolding print_from
sys_write_console m buffer (pos size) s = (pos size, print_from m buffer size s)
sys_write_console m buffer (negsuc n) s = (negsuc n, s)
