-- ===== src/Vmm/Map.antt =====
-- `mm_map`: which requests are refused, which stop the kernel, and what the others add.
use lcore.Base.{
  ℕ, ◌+◌, ◌%◌, ◌^◌, ◌≡◌, refl, Bool, true, false, Option, none, some, List, arith, Bool-cases, inl,
  inr, if◌then◌else◌, Outcome, ok, ◌>>=◌,
}
use lcore.Fs.Defs.{Ret, done, err, e_inval, e_no_mem}
use lcore.Vmm.Defs.{
  Vma, Mm, find_in, find_vma, rounddown, roundup, user_access, vma_create, mm_map, reaches,
  map_created,
}
use lcore.Vmm.Areas.{IsSpace, find_in-some}
use lcore.Vmm.Find.{find_vma-eq, find_vma-IsSpace}
use lcore.Vmm.Insert.{inserted, insert_vma_struct-eq}

abbrev pub found_at : ℕ → List Vma → Bool
found_at addr l = elim (find_in addr l) [ none ↦ false | some v ↦ true ]

module _ (got : Bool) (addr len flags : ℕ) (mm : Mm) where
  -- The area that is asked for.
  abbrev pub wanted : Vma
  wanted = record {
    vm_start = rounddown addr;
    vm_end = roundup ((addr + len) % 2 ^ 32);
    vm_flags = flags;
  }

  -- What `mm_map` answers.
  abbrev pub mapped : Outcome (Ret (Unit {0}) × Mm)
  mapped =
      let m = (find_vma wanted.vm_start mm).1 in
      if user_access wanted.vm_start wanted.vm_end
      then if found_at wanted.vm_start mm.mmap_list
        then ok (err e_inval, m)
        else (if got then (inserted wanted m >>= λ t. ok (done tt, t)) else ok (err e_no_mem, m))
      else ok (err e_inval, mm)

  module _ (s : IsSpace mm) (in_user : user_access wanted.vm_start wanted.vm_end ≡ true) where
    created :
        (g : Bool)
        → map_created
            (vma_create g wanted.vm_start wanted.vm_end flags)
            (find_vma wanted.vm_start mm).1
          ≡ (if g
              then (inserted wanted (find_vma wanted.vm_start mm).1 >>= λ t. ok (done tt, t))
              else ok (err e_no_mem, (find_vma wanted.vm_start mm).1))
    unfolding vma_create
    created false = refl
    created true =
        rw
          (insert_vma_struct-eq wanted (find_vma wanted.vm_start mm).1
            (find_vma-IsSpace wanted.vm_start mm s) (ground arith))
          refl

    asked :
        (c : Option Vma)
        → find_in wanted.vm_start mm.mmap_list ≡ c
        → reaches wanted.vm_end c ≡ elim c [ none ↦ false | some v ↦ true ]
    asked none e = refl
    asked (some v) e = ground (arith, find_in-some wanted.vm_start v mm.mmap_list e)

  -- On a sound address space mm_map of the pages around a range of addresses answers -E_INVAL when
  -- they are not all of user memory or an area has the first of them, -E_NO_MEM when there is no
  -- memory for a new area, and else inserts it; so it stops the kernel when the pages begin in a
  -- gap and reach into a later area.
  pub mm_map-mapped : IsSpace mm → mm_map got addr len flags mm ≡ mapped
  unfolding mm_map
  mm_map-mapped s = elim (Bool-cases (user_access wanted.vm_start wanted.vm_end)) [
    | inr outside ↦ rw outside refl
    | inl inside ↦
        rw (inside, find_vma-eq wanted.vm_start mm s, asked s inside _ refl, created s inside got)
          refl
  ]
