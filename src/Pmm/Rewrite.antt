-- ===== src/Pmm/Rewrite.antt =====
-- Writing an entry of a table, with `tlb_invalidate`: no other entry changes.
use lcore.Base.{ℕ, ◌^◌, ◌<◌, ◌≡◌, ◌≢◌, subst, true, arith}
use lcore.Pmm.Paging.{Mmu, pdx, ptx, ppn, write, tlb_invalidate}
use lcore.Pmm.Walk.{walk, vpt, names, IsTables}

-- Addresses with the same place in the tables are of one page.
page_of_place :
    (la lb : ℕ) → la < 2 ^ 32 → lb < 2 ^ 32 → pdx la ≡ pdx lb → ptx la ≡ ptx lb → ppn la ≡ ppn lb
page_of_place la lb h k e f = omega arith

-- A word of a table changes.
module _ (pgdir la word : ℕ) (s : Mmu) (v : IsTables pgdir s)
    (here : names pgdir (pdx la) s ≡ true) where
  abbrev written : Mmu
  written = write (ppn (s.words pgdir (pdx la))) (ptx la) word s

  written-dir : (i : ℕ) → written.words pgdir i ≡ s.words pgdir i
  written-dir i = ground (arith, v.tables (pdx la) here)

  written-IsTables : IsTables pgdir written
  written-IsTables = record {
    area = v.area;
    small = v.small;
    managed = v.managed;
    dir_used = v.dir_used;
    tables = λ i h. ground (arith, written-dir i, v.tables i);
    distinct = λ i j h k e. ground (arith, written-dir i, written-dir j, v.distinct i j);
  }

  walk-written_self : walk pgdir la written ≡ word
  walk-written_self = ground (arith, written-dir (pdx la))

  walk-written_ne :
      (lb : ℕ)
      → la < 2 ^ 32
      → lb < 2 ^ 32
      → (pdx lb ≡ vpt → ⊥)
      → ppn lb ≢ ppn la
      → walk pgdir lb written ≡ walk pgdir lb s
  walk-written_ne lb h k user ne =
      ground (arith, written-dir (pdx lb), v.distinct (pdx la) (pdx lb), page_of_place la lb h k)

tlb_invalidate-IsTables :
    (pgdir la : ℕ) (s : Mmu) → IsTables pgdir s → IsTables pgdir (tlb_invalidate pgdir la s)
unfolding tlb_invalidate
tlb_invalidate-IsTables pgdir la s v = record {
  area = v.area;
  small = v.small;
  managed = v.managed;
  dir_used = v.dir_used;
  tables = v.tables;
  distinct = v.distinct;
}

-- An entry is written, and the processor forgets the old one.
pub record IsRewritten (pgdir la word : ℕ) (t z : Mmu) : Type 0 where
  pub sound : IsTables pgdir z
  pub dir : (i : ℕ) → z.words pgdir i ≡ t.words pgdir i
  pub entry : walk pgdir la z ≡ word
  pub others :
      (lb : ℕ)
      → lb < 2 ^ 32
      → (pdx lb ≡ vpt → ⊥)
      → ppn lb ≢ ppn la
      → walk pgdir lb z ≡ walk pgdir lb t

pub write-IsRewritten :
    (pgdir la word table : ℕ) (t : Mmu)
    → IsTables pgdir t
    → names pgdir (pdx la) t ≡ true
    → la < 2 ^ 32
    → ppn (t.words pgdir (pdx la)) ≡ table
    → IsRewritten pgdir la word t (tlb_invalidate pgdir la (write table (ptx la) word t))
unfolding tlb_invalidate
write-IsRewritten pgdir la word table t v here range e =
    subst (λ f. IsRewritten pgdir la word t (tlb_invalidate pgdir la (write f (ptx la) word t))) e
      (record {
        sound = tlb_invalidate-IsTables pgdir la _ (written-IsTables pgdir la word t v here);
        dir = written-dir pgdir la word t v here;
        entry = walk-written_self pgdir la word t v here;
        others = λ lb k user ne. walk-written_ne pgdir la word t v here lb range k user ne;
      })
