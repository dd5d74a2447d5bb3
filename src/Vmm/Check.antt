-- ===== src/Vmm/Check.antt =====
-- `user_mem_check`: a process may read or write a range if and only if its areas allow every byte.
use lcore.Base.{
  ℕ, zero, suc, ◌-◌, ◌%◌, ◌^◌, ◌≤◌, ◌<◌, ◌≡◌, refl, Bool, true, false, Option, none, some, List,
  arith, Bool-cases, inl, inr, if◌then◌else◌, ltb, ◌↔◌, ap, ◌∙◌, sym, dec_lt, not, ◌&&◌, ◌||◌, leb,
  ◌+◌,
}
use lcore.Vmm.Defs.{
  Vma, Mm, vm_read, vm_write, vm_stack, contains, find_in, find_vma, area_allows, check_areas,
  user_mem_check, user_access,
}
use lcore.Vmm.Areas.{AreAreas, IsSpace, find_in-some, find_in-In}
use lcore.Vmm.Find.{find_vma-eq, find_vma-list, find_vma-IsSpace}

-- A byte may be read in a readable area, and written in a writable one, but not in the first page of
-- a stack.
abbrev pub byte_right : (write : Bool) → ℕ → Vma → Bool
byte_right true x v =
    vm_write v.vm_flags && (not (vm_stack v.vm_flags) || leb (v.vm_start + 4096) x)
byte_right false x v = vm_read v.vm_flags

area_allows-byte_right :
    (write : Bool) (x : ℕ) (v : Vma) → area_allows write x v ≡ byte_right write x v
area_allows-byte_right true x v = ground arith
area_allows-byte_right false x v = ground arith

-- What the area that has the byte says.
abbrev pub byte_allowed : (write : Bool) → ℕ → List Vma → Bool
byte_allowed write x l = elim (find_in x l) [ none ↦ false | some v ↦ byte_right write x v ]

abbrev AllAllowed : Bool → (start end : ℕ) → List Vma → Type 0
AllAllowed write start end l = (x : ℕ) → start ≤ x → x < end → byte_allowed write x l ≡ true

-- The result, and what it says.
abbrev pub Decides : Bool → (start end : ℕ) → List Vma → Option (Bool × Mm) → Type 0
Decides write start end l none = ⊥
Decides write start end l (some (b, m)) =
    ((b ≡ true) ↔ ((x : ℕ) → start ≤ x → x < end → byte_allowed write x l ≡ true))
    × IsSpace m
    × (m.mmap_list ≡ l)

later_allowed :
    (write : Bool) (v : Vma) (start x : ℕ)
    → area_allows write start v ≡ true
    → start ≤ x
    → area_allows write x v ≡ true
later_allowed write v start x h k = ground arith

module _ (write : Bool) (end : ℕ) (l : List Vma) (a : AreAreas 0 l) where
  module _ (start : ℕ) (mm : Mm) (s : IsSpace mm) (same : mm.mmap_list ≡ l)
      (more : start < end) where
    refused :
        byte_allowed write start l ≡ false
        → Decides write start end l (some (false, (find_vma start mm).1))
    refused no_byte = (
      ((λ e. cc), λ all. sym no_byte ∙ all start (omega arith) more),
      find_vma-IsSpace start mm s,
      find_vma-list start mm ∙ same,
    )

    found : (find_vma start mm).0 ≡ find_in start l
    found = find_vma-eq start mm s ∙ ap (find_in start) same

  -- The bytes of the area that has the first one are all allowed.
  in_area :
      (v : Vma) (start x : ℕ)
      → find_in start l ≡ some v
      → area_allows write start v ≡ true
      → start ≤ x
      → x < v.vm_end
      → byte_allowed write x l ≡ true
  in_area v start x e h k j =
      let (m, c) = find_in-some start v l e in
      let at_x : find_in x l ≡ some v = find_in-In x v 0 l a m (ground (arith, c)) in
      rw (at_x, byte_allowed)
        (sym (area_allows-byte_right write x v) ∙ later_allowed write v start x h k)

  extended :
      (v : Vma) (start : ℕ) (r : Option (Bool × Mm))
      → find_in start l ≡ some v
      → area_allows write start v ≡ true
      → Decides write v.vm_end end l r
      → Decides write start end l r
  extended v start none e h d = d
  extended v start (some (b, m)) e h (i, s, same) =
      let (in_l, c) = find_in-some start v l e in
      (
        (
          (λ t x k j. elim (dec_lt x v.vm_end) [
            | yes p ↦ in_area v start x e h k p
            | no p ↦ i.0 t x (omega arith) j
          ]),
          λ all. i.1 (λ x k j. all x (ground (arith, c)) j),
        ),
        s,
        same,
      )

  -- One round, with what the next ones answer.
  module _ (start : ℕ) (mm : Mm) (s : IsSpace mm) (same : mm.mmap_list ≡ l) (more : start < end)
      (rest : Vma → Option (Bool × Mm)) where
    by_allowed :
        (v : Vma) (b : Bool)
        → find_in start l ≡ some v
        → area_allows write start v ≡ b
        → Decides write v.vm_end end l (rest v)
        → Decides write start end l
            (elim b [ true ↦ rest v | false ↦ some (false, (find_vma start mm).1) ])
    by_allowed v true e h d = extended v start (rest v) e h d
    by_allowed v false e h d =
        refused start mm s same more
          (rw (e, byte_allowed) (sym (area_allows-byte_right write start v) ∙ h))

    round :
        (r : Option Vma)
        → find_in start l ≡ r
        → ((v : Vma) → contains start v ≡ true → Decides write v.vm_end end l (rest v))
        → Decides write start end l (elim r [
          | none ↦ some (false, (find_vma start mm).1)
          | some v ↦
              if ltb start v.vm_start
              then some (false, (find_vma start mm).1)
              else elim (area_allows write start v) [
                | true ↦ rest v
                | false ↦ some (false, (find_vma start mm).1)
              ]
        ])
    round none e d = refused start mm s same more (rw (e, byte_allowed) refl)
    round (some v) e d =
        let (in_l, c) = find_in-some start v l e in
        let inside : ltb start v.vm_start ≡ false = ground (arith, c) in
        rw inside (by_allowed v (area_allows write start v) e refl (d v c))

  check_areas-Decides :
      (fuel start : ℕ) (mm : Mm)
      → IsSpace mm
      → mm.mmap_list ≡ l
      → end - start < fuel
      → Decides write start end l (check_areas fuel write start end mm)
  unfolding check_areas
  check_areas-Decides zero start mm s same f = absurd (omega arith)
  check_areas-Decides (suc fuel) start mm s same f = elim (Bool-cases (ltb start end)) [
    | inr all_done ↦ rw all_done (((λ e x k j. absurd (ground arith)), λ all. refl), s, same)
    | inl more ↦
        rw (more, found start mm s same (ground arith))
          (round start mm s same (ground arith)
            (λ v. check_areas fuel write v.vm_end end (find_vma start mm).1) (find_in start l) refl
            λ v c.
              check_areas-Decides fuel v.vm_end (find_vma start mm).1 (find_vma-IsSpace start mm s)
                (find_vma-list start mm ∙ same) (ground (arith, c)))
  ]

-- What `user_mem_check` answers for a process, and what it leaves.
abbrev pub Checked : Bool → (addr end : ℕ) → Mm → Option (Bool × Option Mm) → Type 0
Checked write addr end mm none = ⊥
Checked write addr end mm (some (b, none)) = ⊥
Checked write addr end mm (some (b, some m)) =
    ((b ≡ true) ↔ (
      (user_access addr end ≡ true)
      × ((x : ℕ) → addr ≤ x → x < end → byte_allowed write x mm.mmap_list ≡ true)))
    × IsSpace m
    × (m.mmap_list ≡ mm.mmap_list)

answered :
    (write : Bool) (addr end : ℕ) (mm : Mm) (r : Option (Bool × Mm))
    → user_access addr end ≡ true
    → Decides write addr end mm.mmap_list r
    → Checked write addr end mm (elim r [ none ↦ none | some (b, m) ↦ some (b, some m) ])
answered write addr end mm none u d = d
answered write addr end mm (some (b, m)) u (i, s, same) =
    (((λ e. (u, i.0 e)), λ (w, all). i.1 all), s, same)

-- On a sound address space, and with fuel for more rounds than there are bytes, user_mem_check
-- ends; it answers true if and only if the range is of user memory and every byte of it lies in an
-- area that allows the access: a readable one, or for a write a writable one that is no stack or
-- has the byte beyond its first page. The areas are as they were.
pub user_mem_check-Checked :
    (fuel addr len : ℕ) (write : Bool) (mm : Mm)
    → IsSpace mm
    → len < fuel
    → Checked write addr ((addr + len) % 2 ^ 32) mm (user_mem_check fuel addr len write (some mm))
unfolding user_mem_check
user_mem_check-Checked fuel addr len write mm s f =
    let end = (addr + len) % 2 ^ 32 in
    elim (Bool-cases (user_access addr end)) [
      | inr outside ↦ rw outside (((λ e. cc), λ (w, all). sym outside ∙ w), s, refl)
      | inl inside ↦ rw inside (
          answered write addr end mm (check_areas fuel write addr end mm) inside
            (check_areas-Decides write end mm.mmap_list s.areas fuel addr mm s refl (omega arith)))
    ]
