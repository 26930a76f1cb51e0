-- ===== src/Boot/Tables.antt =====
-- zeos/mm.c: the kernel's pages, and the table that free_user_pages changes.
use fib_so.Prelude.{
  ℕ, zero, suc, ◌+◌, ◌-◌, ◌*◌, ◌%◌, ◌^◌, ◌≤◌, ◌<◌, ◌≡◌, ◌∙◌, refl, arith, ◌==◌, leb, ltb, ◌&&◌,
  ◌||◌, if◌then◌else◌, ap, has, List, [], ◌∷◌,
}
use fib_so.Paging.Entry.{set_present, set_rw, set_user, set_pbase_addr, pbase_addr}
use fib_so.Paging.Frames.{free_mark, total_pages}
use fib_so.Boot.{
  Memory, clear_from, clear_page_table, set_ss_pag, kernel_from, set_kernel_pages, free_frame,
  free_from, free_user_pages,
}

set_ss_pag-entry :
    (pt page frame q : ℕ) (s : Memory)
    → ((set_ss_pag pt page frame 0 s).words q
        ≡ (if q == pt + page then frame % 2 ^ 20 * 4096 + 3 else s.words q))
      × ((set_ss_pag pt page frame 0 s).last_kernel ≡ s.last_kernel)
unfolding set_ss_pag set_present set_rw set_user set_pbase_addr
set_ss_pag-entry pt page frame q s = (ground arith, refl)

clear_from-zero :
    (n i pt q : ℕ) (s : Memory)
    → (clear_from n i pt s).words q
      ≡ (if leb (pt + i) q && ltb q (pt + i + n) then 0 else s.words q)
unfolding clear_from
clear_from-zero zero i pt q s = ground arith
clear_from-zero (suc n) i pt q s = clear_from-zero n (i + 1) pt q _ ∙ ground arith

clear_from-limits :
    (n i pt : ℕ) (s : Memory)
    → ((clear_from n i pt s).first_kernel ≡ s.first_kernel)
      × ((clear_from n i pt s).last_kernel ≡ s.last_kernel)
unfolding clear_from
clear_from-limits zero i pt s = (refl, refl)
clear_from-limits (suc n) i pt s = clear_from-limits n (i + 1) pt _

kernel_from-entry :
    (n i pt q : ℕ) (s : Memory)
    → (kernel_from n i pt s).words q
      ≡ (if leb (pt + i) q && ltb q (pt + i + n) then (q - pt) % 2 ^ 20 * 4096 + 3 else s.words q)
unfolding kernel_from
kernel_from-entry zero i pt q s = ground arith
kernel_from-entry (suc n) i pt q s =
    kernel_from-entry n (i + 1) pt q (set_ss_pag pt i i 0 s)
    ∙ ground (arith, (set_ss_pag-entry pt i i q s).0)

-- A cleared table with the kernel's pages: the kernel's frames, that of the GDT and that of the
-- screen are mapped on the pages of the same number, for the kernel only, and no other page is present.
set_kernel_pages-identity :
    (pt p : ℕ) (s : Memory)
    → s.first_kernel ≤ s.last_kernel
    → s.last_kernel ≤ 1024
    → p < 1024
    → (set_kernel_pages pt (clear_page_table pt s)).words (pt + p) ≡ (
        if (leb s.first_kernel p && ltb p s.last_kernel) || ((p == 0x90) || (p == 0xb8))
        then p * 4096 + 3
        else 0)
unfolding set_kernel_pages clear_page_table
set_kernel_pages-identity pt p s le fits lt =
    let c : Memory = clear_from 1024 0 pt s in
    let lim = clear_from-limits 1024 0 pt s in
    let n : ℕ = c.last_kernel - c.first_kernel in
    let s1 : Memory = kernel_from n c.first_kernel pt c in
    let s2 : Memory = set_ss_pag pt 0x90 0x90 0 s1 in
    ((set_ss_pag-entry pt 0xb8 0xb8 (pt + p) s2).0
      ∙ ground (
        arith,
        (set_ss_pag-entry pt 0x90 0x90 (pt + p) s1).0,
        kernel_from-entry n c.first_kernel pt (pt + p) c,
        lim.0,
        lim.1,
        clear_from-zero 1024 0 pt (pt + p) s,
      ))

-- The frames that `n` words from `at` on name.
abbrev pub named : (ℕ → ℕ) → ℕ → ℕ → List ℕ
named words at zero = []
named words at (suc n) = pbase_addr (words at) ∷ named words (at + 1) n

named-same :
    (n at : ℕ) (words words' : ℕ → ℕ)
    → ((q : ℕ) → at ≤ q → words' q ≡ words q)
    → named words' at n ≡ named words at n
named-same zero at words words' same = refl
named-same (suc n) at words words' same =
    let here : words' at ≡ words at = same at (omega arith) in
    rw (here, named-same n (at + 1) words words' (λ q le. same q (omega arith)))

free_from-words :
    (n i pt q : ℕ) (s : Memory)
    → (free_from n i pt s).words q
      ≡ (if leb (pt + (1024 + i)) q && ltb q (pt + (1024 + i) + n) then 0 else s.words q)
unfolding free_from free_frame
free_from-words zero i pt q s = ground arith
free_from-words (suc n) i pt q s = free_from-words n (i + 1) pt q _ ∙ ground arith

free_from-phys :
    (n i pt f : ℕ) (s : Memory)
    → (free_from n i pt s).phys f ≡ (
        if has f (named s.words (pt + (1024 + i)) n) && ltb f total_pages
        then free_mark
        else s.phys f)
unfolding free_from free_frame
free_from-phys zero i pt f s = ground arith
free_from-phys (suc n) i pt f s =
    let at : ℕ = pt + (1024 + i) in
    let s1 : Memory = free_frame (pbase_addr (s.words at)) s in
    let w : ℕ → ℕ = λ q. if q == at then 0 else s1.words q in
    let next : pt + (1024 + (i + 1)) ≡ at + 1 = omega arith in
    let same : named w (pt + (1024 + (i + 1))) n ≡ named s.words (at + 1) n =
      ap (λ p. named w p n) next ∙ named-same n (at + 1) s.words w (λ q le. ground arith) in
    free_from-phys n (i + 1) pt f (record s1 { words = w }) ∙ rw same (ground arith)

-- free_user_pages works on the 20 words that stand behind the 1024 entries of the table that it is
-- given: it sets them to 0 and frees the frames below 1024 that they name; no entry of the table
-- and no other word changes, and no other frame gets another mark.
pub free_user_pages-behind :
    (pt q f : ℕ) (s : Memory)
    → ((free_user_pages pt s).words q
        ≡ (if leb (pt + 1024) q && ltb q (pt + 1044) then 0 else s.words q))
      × ((free_user_pages pt s).phys f ≡ (
          if has f (named s.words (pt + 1024) 20) && ltb f total_pages
          then free_mark
          else s.phys f))
unfolding free_user_pages
free_user_pages-behind pt q f s =
    (free_from-words 20 0 pt q s ∙ ground arith, free_from-phys 20 0 pt f s)
