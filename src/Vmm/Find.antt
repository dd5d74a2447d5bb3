-- ===== src/Vmm/Find.antt =====
-- `find_vma` against a search of the list: the cache changes no answer.
use lcore.Base.{ℕ, ◌≡◌, refl, true, Option, none, some, List, ◌∙◌, sym, Bool-cases, inl, inr, ◌↔◌}
use lcore.Vmm.Defs.{Vma, Mm, contains, cached, remember, find_in, find_vma}
use lcore.Vmm.Areas.{AreAreas, In, Cached, IsSpace, find_in-In, find_in-some}

cached-found :
    (addr : ℕ) (c : Option Vma) (l : List Vma)
    → AreAreas 0 l
    → Cached c l
    → cached addr c ≡ true
    → c ≡ find_in addr l
cached-found addr none l a m h = cc
cached-found addr (some v) l a m h = sym (find_in-In addr v 0 l a m h)

pub find_vma-eq :
    (addr : ℕ) (mm : Mm) → IsSpace mm → (find_vma addr mm).0 ≡ find_in addr mm.mmap_list
unfolding find_vma
find_vma-eq addr mm s = elim (Bool-cases (cached addr mm.mmap_cache)) [
  | inl hit ↦ rw hit (cached-found addr mm.mmap_cache mm.mmap_list s.areas s.cache hit)
  | inr miss ↦ rw miss refl
]

remember-IsSpace :
    (addr : ℕ) (c : Option Vma) (mm : Mm)
    → IsSpace mm
    → c ≡ find_in addr mm.mmap_list
    → IsSpace (remember c mm)
remember-IsSpace addr none mm s e = s
remember-IsSpace addr (some v) mm s e = record {
  areas = s.areas;
  count = s.count;
  cache = (find_in-some addr v mm.mmap_list (sym e)).0;
}

remember-list : (c : Option Vma) (mm : Mm) → (remember c mm).mmap_list ≡ mm.mmap_list
remember-list none mm = refl
remember-list (some v) mm = refl

pub find_vma-list : (addr : ℕ) (mm : Mm) → (find_vma addr mm).1.mmap_list ≡ mm.mmap_list
unfolding find_vma
find_vma-list addr mm = remember-list _ mm

pub find_vma-IsSpace : (addr : ℕ) (mm : Mm) → IsSpace mm → IsSpace (find_vma addr mm).1
unfolding find_vma
find_vma-IsSpace addr mm s = remember-IsSpace addr _ mm s (find_vma-eq addr mm s)

-- On a sound address space find_vma answers an area if and only if that area is in the list and
-- has the address, whatever the cache holds; the space stays sound and its list as it was.
pub find_vma-finds :
    (addr : ℕ) (mm : Mm)
    → IsSpace mm
    → ((v : Vma) → ((find_vma addr mm).0 ≡ some v) ↔ (In v mm.mmap_list × (contains addr v ≡ true)))
      × IsSpace (find_vma addr mm).1
      × ((find_vma addr mm).1.mmap_list ≡ mm.mmap_list)
find_vma-finds addr mm s = (
  (λ v. (
    (λ e. find_in-some addr v mm.mmap_list (sym (find_vma-eq addr mm s) ∙ e)),
    λ (m, h). find_vma-eq addr mm s ∙ find_in-In addr v 0 mm.mmap_list s.areas m h,
  )),
  find_vma-IsSpace addr mm s,
  find_vma-list addr mm,
)
