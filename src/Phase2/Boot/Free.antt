-- ===== src/Phase2/Boot/Free.antt =====
-- so2_old/E1_E2/zeos/mm.c: what free_user_pages gives back.
use fib_so.Prelude.{ℕ, zero, suc, ◌+◌, ◌≡◌, refl, subst, sym}
use fib_so.Paging.Table.{del_ss_pag, get_frame}
use fib_so.Phase2.Kernel.{Space}
use fib_so.Phase2.Space.{release_from, release_pages}
use fib_so.Phase2.Space.Release.{Released, release_pages-Released}
use fib_so.Phase2.Boot.{free_from, free_user_pages}

free_from-release_from : (n i d : ℕ) (sp : Space) → free_from n i d sp ≡ release_from n i d sp
unfolding free_from release_from get_frame del_ss_pag
free_from-release_from zero i d sp = refl
free_from-release_from (suc n) i d sp = free_from-release_from n (i + 1) d _

-- free_user_pages does what sys_exit does: the entries of the 20 data pages become 0, and their
-- frames free, less those that free_frame leaves as they are; the rest is as before.
free_user_pages-Released :
    (d : ℕ) (sp : Space)
    → (free_user_pages d sp ≡ release_pages d sp) × Released 0 20 d sp (free_user_pages d sp)
unfolding free_user_pages release_pages
free_user_pages-Released d sp =
    let same = free_from-release_from 20 0 d sp in
    (same, subst (Released 0 20 d sp) (sym same) (release_pages-Released d sp))
