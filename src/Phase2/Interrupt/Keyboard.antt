-- ===== src/Phase2/Interrupt/Keyboard.antt =====
-- so2_old/E1_E2/zeos/interrupt.c: what a key press does to the screen.
use fib_so.Prelude.{
  ℕ, ◌/◌, ◌%◌, ◌≤◌, ◌<◌, ◌≡◌, ◌≢◌, refl, arith, ◌==◌, if◌then◌else◌, none, some, List, [], ◌∷◌,
  ◌++◌, ◌>>=◌, update, length, zero, suc, get_or, has, has-get_or, true, false, leb, ltb,
  Bool-cases, inl, inr, ap, ◌∙◌,
}
use fib_so.Console.{Screen, green, printc_xy, newline}
use fib_so.Console.Cursor.{printc_xy-at}
use fib_so.Phase2.Interrupt.{char_map, get_elem?, keyboard_routine}

get_elem?-get_or : (xs : List ℕ) (i : ℕ) → i < length xs → get_elem? xs i ≡ some (get_or xs i 0)
get_elem?-get_or [] i h = elim h [ ]
get_elem?-get_or (x ∷ xs) zero h = refl
get_elem?-get_or (x ∷ xs) (suc i) h = get_elem?-get_or xs i (omega arith)

get_or-other : (xs : List ℕ) (i a : ℕ) → has a xs ≡ false → i < length xs → get_or xs i 0 ≢ a
get_or-other xs i a out h e = ground (arith, has-get_or xs i h)

get_elem?-past : (xs : List ℕ) (i : ℕ) → length xs ≤ i → get_elem? xs i ≡ none
get_elem?-past [] i h = refl
get_elem?-past (x ∷ xs) zero h = absurd (omega arith)
get_elem?-past (x ∷ xs) (suc i) h = get_elem?-past xs i (omega arith)

-- The character that stands for a key on the screen.
abbrev pub shown : ℕ → ℕ
shown code = if get_or char_map code 0 == 0 then b'C' else get_or char_map code 0

shown-newline : (code : ℕ) → code < 98 → shown code ≢ newline
shown-newline code h = ground (arith, get_or-other char_map code newline refl h)

key_pressed :
    (kb : ℕ) (s : Screen)
    → kb < 128
    → keyboard_routine kb s ≡ (
        get_elem? char_map kb >>= λ c.
        some (if c == 0 then printc_xy 0 0 b'C' s else printc_xy 0 0 c s))
unfolding keyboard_routine
key_pressed kb s h =
    let pressed : (kb / 128 % 2 == 0) ≡ true = ground arith in
    let code : kb % 128 ≡ kb = omega arith in rw (pressed, code)

key_shown :
    (kb : ℕ) (s : Screen)
    → kb < 98
    → keyboard_routine kb s
      ≡ some (record s {
        cells = update s.cells 0 (green (shown kb));
        port = s.port ++ (shown kb ∷ []);
      })
key_shown kb s h =
    let c : ℕ = get_or char_map kb 0 in
    key_pressed kb s (omega arith)
    ∙ rw (get_elem?-get_or char_map kb h) (elim (Bool-cases (c == 0)) [
      | inl blank ↦ rw blank (ap some (printc_xy-at 0 0 b'C' s (ground arith)))
      | inr letter ↦
          rw letter (ap some (printc_xy-at 0 0 c s (get_or-other char_map kb newline refl h)))
    ])

-- The release of a key changes nothing. A key pressed puts its character, or C where the table has
-- none, into the first cell of the screen and to the port, and leaves the cursor alone; for a code
-- from 98 on the table is read past its end.
keyboard_routine-shown :
    (kb : ℕ) (s : Screen)
    → kb < 256
    → keyboard_routine kb s ≡ (
        if leb 128 kb
        then some s
        else if ltb kb 98
        then some (record s {
          cells = update s.cells 0 (green (shown kb));
          port = s.port ++ (shown kb ∷ []);
        })
        else none)
unfolding keyboard_routine
keyboard_routine-shown kb s h = elim (Bool-cases (leb 128 kb)) [
  | inl release ↦ let up : (kb / 128 % 2 == 0) ≡ false = ground arith in rw (release, up)
  | inr press ↦ rw press (elim (Bool-cases (ltb kb 98)) [
    | inl known ↦ rw known (key_shown kb s (ground arith))
    | inr past ↦
        rw past (key_pressed kb s (ground arith) ∙ rw (get_elem?-past char_map kb (ground arith)))
  ])
]
