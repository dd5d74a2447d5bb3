-- ===== src/Vmm/Insert.antt =====
-- `insert_vma_struct`: a new area takes its put_in_order if it overlaps none, and stops the kernel if it
-- does.
use lcore.Base.{
  ℕ, ◌+◌, ◌≤◌, ◌<◌, ◌≡◌, refl, Bool, true, false, ◌||◌, ◌&&◌, not, Option, none, some, List, [],
  ◌∷◌, arith, Bool-cases, inl, inr, if◌then◌else◌, ltb, leb, Outcome, ok, panic, assert, Returns,
  length, ◌⊎◌, ◌↔◌,
}
use lcore.Vmm.Defs.{
  Vma, Mm, check_vma_overlap, check_prev, check_next, insert_after, insert_vma_struct,
}
use lcore.Vmm.Areas.{AreAreas, In, Cached, IsSpace}

-- Whether two areas have an address in common.
abbrev pub overlap : Vma → Vma → Bool
overlap v w = ltb v.vm_start w.vm_end && ltb w.vm_start v.vm_end

abbrev pub overlaps : Vma → List Vma → Bool
overlaps v [] = false
overlaps v (w ∷ ws) = overlap v w || overlaps v ws

-- The areas in order, with the new one.
abbrev pub put_in_order : Vma → List Vma → List Vma
put_in_order v [] = v ∷ []
put_in_order v (n ∷ ns) = if ltb v.vm_start n.vm_start then v ∷ n ∷ ns else n ∷ put_in_order v ns

-- The result of `insert_vma_struct`.
abbrev pub inserted : Vma → Mm → Outcome Mm
inserted v mm =
    if overlaps v mm.mmap_list
    then panic
    else ok (record mm { mmap_list = put_in_order v mm.mmap_list; map_count = mm.map_count + 1 })

abbrev end_of : Option Vma → ℕ
end_of none = 0
end_of (some p) = p.vm_end

abbrev IsPrev : Option Vma → Vma → Type 0
IsPrev none v = Unit {0}
IsPrev (some p) v = (p.vm_start < p.vm_end) × (p.vm_start ≤ v.vm_start)

check_prev-eq :
    (p : Option Vma) (v : Vma)
    → v.vm_start < v.vm_end
    → IsPrev p v
    → check_prev p v ≡ assert (leb (end_of p) v.vm_start)
unfolding check_vma_overlap
check_prev-eq none v h i = ground arith
check_prev-eq (some p) v h i = ground arith

overlaps_below :
    (v : Vma) (lo : ℕ) (l : List Vma) → AreAreas lo l → v.vm_end ≤ lo → overlaps v l ≡ false
overlaps_below v lo [] a h = refl
overlaps_below v lo (w ∷ ws) a h = ground (arith, overlaps_below v w.vm_end ws a.2)

check_next-eq :
    (v n : Vma) (lo : ℕ) (ns : List Vma)
    → AreAreas lo (n ∷ ns)
    → v.vm_start < v.vm_end
    → v.vm_start < n.vm_start
    → check_next v (n ∷ ns) ≡ assert (not (overlaps v (n ∷ ns)))
unfolding check_vma_overlap
check_next-eq v n lo ns a h k = ground (arith, overlaps_below v n.vm_end ns a.2)

-- The loop from the entry after `prev` on.
insert_after-eq :
    (p : Option Vma) (v : Vma) (l : List Vma)
    → AreAreas (end_of p) l
    → v.vm_start < v.vm_end
    → IsPrev p v
    → insert_after p v l
      ≡ (if not (leb (end_of p) v.vm_start) || overlaps v l then panic else ok (put_in_order v l))
unfolding insert_after
insert_after-eq p v [] a h i = rw (check_prev-eq p v h i) (ground arith)
insert_after-eq p v (n ∷ ns) a h i = elim (Bool-cases (ltb v.vm_start n.vm_start)) [
  | inl before ↦
      rw (before, check_prev-eq p v h i, check_next-eq v n (end_of p) ns a h (ground arith))
        (ground arith)
  | inr after ↦ rw (after, insert_after-eq (some n) v ns a.2 h (a.1, ground arith)) (ground arith)
]

put_in_order-AreAreas :
    (v : Vma) (lo : ℕ) (l : List Vma)
    → AreAreas lo l
    → lo ≤ v.vm_start
    → v.vm_start < v.vm_end
    → overlaps v l ≡ false
    → AreAreas lo (put_in_order v l)
put_in_order-AreAreas v lo [] a h k o = (h, k, tt)
put_in_order-AreAreas v lo (n ∷ ns) a h k o = elim (Bool-cases (ltb v.vm_start n.vm_start)) [
  | inl before ↦ rw before (h, k, (ground arith, a.1, a.2))
  | inr after ↦
      rw after (a.0, a.1, put_in_order-AreAreas v n.vm_end ns a.2 (ground arith) k (ground arith))
]

length-put_in_order : (v : Vma) (l : List Vma) → length (put_in_order v l) ≡ length l + 1
length-put_in_order v [] = omega arith
length-put_in_order v (n ∷ ns) = ground (arith, length-put_in_order v ns)

In-later :
    {w v n : Vma} (l r : List Vma)
    → (In w r ↔ ((w ≡ v) ⊎ In w l))
    → (In w (n ∷ r) ↔ ((w ≡ v) ⊎ In w (n ∷ l)))
In-later {w} {v} {n} l r f = (forth, back)
  where
    forth : In w (n ∷ r) → ((w ≡ v) ⊎ In w (n ∷ l))
    forth (inl e) = inr (inl e)
    forth (inr m) = elim (f.0 m) [ inl e ↦ inl e | inr k ↦ inr (inr k) ]

    back : ((w ≡ v) ⊎ In w (n ∷ l)) → In w (n ∷ r)
    back (inl e) = inr (f.1 (inl e))
    back (inr (inl e)) = inl e
    back (inr (inr m)) = inr (f.1 (inr m))

-- The areas are the new one and those from before.
In-put_in_order : (w v : Vma) (l : List Vma) → In w (put_in_order v l) ↔ ((w ≡ v) ⊎ In w l)
In-put_in_order w v [] = ((λ m. m), λ m. m)
In-put_in_order w v (n ∷ ns) = elim (Bool-cases (ltb v.vm_start n.vm_start)) [
  | inl before ↦ rw before ((λ m. m), λ m. m)
  | inr after ↦ rw after (In-later ns (put_in_order v ns) (In-put_in_order w v ns))
]

Cached-put_in_order :
    (c : Option Vma) (v : Vma) (l : List Vma) → Cached c l → Cached c (put_in_order v l)
Cached-put_in_order none v l m = tt
Cached-put_in_order (some w) v l m = (In-put_in_order w v l).1 (inr m)

-- What `insert_vma_struct` does, by whether the new area overlaps one of the list.
abbrev pub Inserted : Vma → Mm → Bool → Outcome Mm → Type 0
Inserted v mm true r = r ≡ panic
Inserted v mm false r =
    Returns
      (λ m.
        IsSpace m
        × (m.mmap_list ≡ put_in_order v mm.mmap_list)
        × ((w : Vma) → In w m.mmap_list ↔ ((w ≡ v) ⊎ In w mm.mmap_list)))
      r

module _ (v : Vma) (mm : Mm) (s : IsSpace mm) (some_bytes : v.vm_start < v.vm_end) where
  pub insert_vma_struct-eq : insert_vma_struct v mm ≡ inserted v mm
  unfolding insert_vma_struct
  insert_vma_struct-eq =
      let sized : ltb v.vm_start v.vm_end ≡ true = ground arith in
      rw (sized, insert_after-eq none v mm.mmap_list s.areas some_bytes tt) (ground arith)

  inserted-IsSpace :
      overlaps v mm.mmap_list ≡ false
      → IsSpace
          (record mm { mmap_list = put_in_order v mm.mmap_list; map_count = mm.map_count + 1 })
  inserted-IsSpace o = record {
    areas = put_in_order-AreAreas v 0 mm.mmap_list s.areas (omega arith) some_bytes o;
    count = omega (arith, s.count, length-put_in_order v mm.mmap_list);
    cache = Cached-put_in_order mm.mmap_cache v mm.mmap_list s.cache;
  }

  by_overlap : (o : Bool) → overlaps v mm.mmap_list ≡ o → Inserted v mm o (insert_vma_struct v mm)
  by_overlap true o = rw (insert_vma_struct-eq, o) refl
  by_overlap false o =
      rw (insert_vma_struct-eq, o) (inserted-IsSpace o, refl, λ w. In-put_in_order w v mm.mmap_list)

  -- insert_vma_struct of an area that is not empty, on a sound address space: it stops the kernel
  -- if and only if the area overlaps one that is there; else it returns, the list is in order of
  -- address with exactly the new area added, and the space is sound.
  pub insert_vma_struct-Inserted : Inserted v mm (overlaps v mm.mmap_list) (insert_vma_struct v mm)
  insert_vma_struct-Inserted = by_overlap (overlaps v mm.mmap_list) refl
