-- ===== src/Mm/Tests.antt =====
-- A memory of four managed frames, and the theorems there.
use linux.Prelude.{◌+◌, ◌*◌, ◌≡◌, ◌≢◌, refl, ◌⊎◌, inr, [], ◌∷◌, ◌==◌, ◌&&◌, if◌then◌else◌, arith}
use linux.Prelude.Outcome.{ok, panicked, exited}
use linux.Mm.{Memory, low_mem, get_free_page, last_free, free_page, un_wp_page}
use linux.Mm.Alloc.{NoneFree, Taken, get_free_page_lem}
use linux.Mm.Free.{free_page-get_free_page}
use linux.Mm.Cow.{IsPrivate, un_wp_page-IsPrivate}

-- Frame 257 is a page table; its word 5 shows frame 256, which has two users.
abbrev memory : Memory
memory = record {
  mem_map = 2 ∷ 1 ∷ 0 ∷ 0 ∷ [];
  high_memory = low_mem + 4 * 4096;
  page = λ f o. if (f == 257) && (o == 5) then 256 * 4096 + 5 else f + o;
}

take_last :
    ((get_free_page memory).0 ≡ low_mem + 3 * 4096)
    × ((get_free_page memory).1.mem_map ≡ 2 ∷ 1 ∷ 0 ∷ 1 ∷ [])
unfolding get_free_page last_free
take_last = (refl, refl)

take_last_ne : (get_free_page memory).0 ≢ 0
take_last_ne e = absurd (omega (arith, take_last.0))

free_twice : free_page (low_mem + 2 * 4096) memory ≡ panicked
unfolding free_page
free_twice = refl

free_page-get_free_page_example :
    free_page (get_free_page memory).0 (get_free_page memory).1
    ≡ ok (record (get_free_page memory).1 { mem_map = 2 ∷ 1 ∷ 0 ∷ 0 ∷ [] })
free_page-get_free_page_example = free_page-get_free_page memory (λ k l z. omega arith) take_last_ne

un_wp_page-IsPrivate_example :
    ((m' : Memory) × (un_wp_page 257 5 memory ≡ ok m') × IsPrivate memory 257 5 m')
    ⊎ ((un_wp_page 257 5 memory ≡ exited) × NoneFree memory.mem_map)
un_wp_page-IsPrivate_example =
    un_wp_page-IsPrivate memory 257 5 (λ e. absurd (omega arith)) (inr (λ e. absurd (omega arith)))
      (inr (λ e. absurd (omega arith)))

get_free_page_lem_example :
    ((get_free_page memory ≡ (0, memory)) × NoneFree memory.mem_map)
    ⊎ Taken memory (get_free_page memory).0 (get_free_page memory).1
get_free_page_lem_example = get_free_page_lem memory
