-- ===== src/Vmm/Fault/Resolve.antt =====
-- `do_pgfault` on an address without a page: what it maps, and when it refuses.
use lcore.Base.{
  ℕ, ◌+◌, ◌*◌, ◌%◌, ◌^◌, ◌<◌, ◌≡◌, ◌≢◌, refl, ap, ◌∙◌, Bool, true, false, Option, none, some, ◌>>=◌,
  Returns, Returns-bind, Returns-mono, arith, ltb, ◌==◌, if◌then◌else◌, ◌/◌, not, ◌&&◌, ◌||◌,
}
use lcore.Fs.Defs.{Ret, done, err, e_inval, e_no_mem}
use lcore.Pmm.Paging.{Mmu, pdx, ppn, is_present, with_p, get_pte, pgdir_alloc_page}
use lcore.Pmm.Walk.{walk, vpt, is_free, IsTables, IsLocated, Located}
use lcore.Pmm.Entry.{get_pte-Located}
use lcore.Pmm.Fresh.{IsMissing, Mapped, pgdir_alloc_page-Mapped}
use lcore.Vmm.Defs.{Vma, contains, rounddown, find_vma, vm_read, vm_exec, vm_write}
use lcore.Vmm.Areas.{IsSpace}
use lcore.Vmm.Find.{find_vma-finds}
use lcore.Vmm.Fault.{Space, may_access, perm_of, answer_of, fill_entry, resolve, do_pgfault}

-- The address has no entry, in sound tables with one page of the count to spare.
pub record IsFault (pgdir addr : ℕ) (s : Mmu) : Type 0 where
  pub tables : IsTables pgdir s
  pub user : pdx (rounddown addr) ≡ vpt → ⊥
  pub range : addr < 2 ^ 32
  pub empty : walk pgdir (rounddown addr) s ≡ 0
  pub clean : (x : ℕ) → is_free x s ≡ true → (s.memory.pages x).reserved ≡ false
  pub room : s.memory.nr_free + 1 < 2 ^ 32

-- A page that was free is mapped with the area's rights, and no other address changes.
pub record IsFilled (pgdir la perm : ℕ) (s t : Mmu) : Type 0 where
  pub sound : IsTables pgdir t
  pub page : ℕ
  pub fresh : is_free page s ≡ true
  pub taken : is_free page t ≡ false
  pub entry : walk pgdir la t ≡ page * 2 ^ 12 + with_p perm
  pub others :
      (lb : ℕ)
      → lb < 2 ^ 32
      → (pdx lb ≡ vpt → ⊥)
      → ppn lb ≢ ppn la
      → walk pgdir lb t ≡ walk pgdir lb s

-- Every address has the entry that it had.
abbrev pub SameWalk : (pgdir : ℕ) → (s t : Mmu) → Type 0
SameWalk pgdir s t = (lb : ℕ) → (pdx lb ≡ vpt → ⊥) → walk pgdir lb t ≡ walk pgdir lb s

abbrev pub Filled : (pgdir la perm : ℕ) → Mmu → Ret (Unit {0}) × Mmu → Type 0
Filled pgdir la perm s (done _, t) = IsFilled pgdir la perm s t
Filled pgdir la perm s (err e, t) = (e ≡ e_no_mem) × SameWalk pgdir s t

module _ (pgdir addr perm : ℕ) (s : Mmu) (h : IsFault pgdir addr s) (flags : perm < 2 ^ 12) where
  abbrev la : ℕ
  la = rounddown addr

  fill_entry-Filled :
      (found : Option (ℕ × ℕ) × Mmu)
      → Located pgdir la true s found
      → Returns (Filled pgdir la perm s) (fill_entry pgdir la perm found)
  unfolding fill_entry
  fill_entry-Filled (none, u) l = (refl, λ lb user. ap (walk pgdir lb) l.0)
  fill_entry-Filled (some (table, index), u) l =
      let blank : walk pgdir la u ≡ 0 = l.same_walk la h.user ∙ h.empty in
      let here : (u.words table index == 0) ≡ true =
        ground (arith, blank, l.at_table, l.at_index, l.named) in
      let missing : IsMissing pgdir la perm u = record {
        tables = l.sound;
        user = h.user;
        range = omega (arith, h.range);
        flags = flags;
        absent = ap is_present blank;
        clean = λ x f. l.same_reserved x ∙ h.clean x (ground (arith, l.fewer x));
        room = omega (arith, l.count, h.room);
      } in
      rw here (
        Returns-bind (Mapped pgdir la perm u) _ (pgdir_alloc_page pgdir la perm u) _
          (pgdir_alloc_page-Mapped pgdir la perm u missing) (λ r m. answered table index u l r m))
    where
      answered :
          (table index : ℕ) (u : Mmu)
          → IsLocated pgdir la table index s u
          → (r : Option ℕ × Mmu) → Mapped pgdir la perm u r
          → Filled pgdir la perm s (answer_of r)
      answered table index u l (none, t) m = (
        refl,
        λ lb user. ap (λ w. walk pgdir lb (record u { words = w })) m.words ∙ l.same_walk lb user,
      )
      answered table index u l (some page, t) m = record {
        sound = m.sound;
        page = page;
        fresh = ground (arith, l.fewer page, m.fresh);
        taken = m.taken;
        entry = m.entry;
        others = λ lb k user ne. m.others lb k user ne ∙ l.same_walk lb user;
      }

  filled :
      Returns
        (Filled pgdir la perm s)
        (get_pte pgdir la true s >>= λ found. fill_entry pgdir la perm found)
  filled =
      Returns-bind (Located pgdir la true s) _ (get_pte pgdir la true s) _
        (get_pte-Located pgdir la true s h.tables h.user) fill_entry-Filled

-- What the error code asks of the area: bit 1 is a write, and a read of a page that is present is no
-- access that can be helped.
unfoldable pub rights_suffice : (error_code : ℕ) → Vma → Bool
rights_suffice error_code v =
    if error_code / 2 % 2 == 1
    then vm_write v.vm_flags
    else not (error_code % 2 == 1) && (vm_read v.vm_flags || vm_exec v.vm_flags)

may_access-rights_suffice :
    (error_code : ℕ) (v : Vma) → may_access error_code v ≡ rights_suffice error_code v
unfolding may_access rights_suffice
may_access-rights_suffice error_code v = ground arith

-- By whether the area allows the access.
abbrev pub Allowed : (pgdir la perm : ℕ) → Mmu → Bool → Ret (Unit {0}) × Mmu → Type 0
Allowed pgdir page perm s true r = Filled pgdir page perm s r
Allowed pgdir page perm s false r = (r.0 ≡ err e_inval) × (r.1 ≡ s)

-- By the area that has the address, if there is one.
abbrev pub Resolved : (pgdir error_code addr : ℕ) → Mmu → Option Vma → Ret (Unit {0}) × Mmu → Type 0
Resolved pgdir error_code addr s none r = (r.0 ≡ err e_inval) × (r.1 ≡ s)
Resolved pgdir error_code addr s (some v) r =
    (contains addr v ≡ true)
    × Allowed pgdir (rounddown addr) (perm_of v) s (rights_suffice error_code v) r

perm_small : (v : Vma) → perm_of v < 2 ^ 12
perm_small v = ground arith

-- The area that has the address, and what the test of its rights says.
by_rights :
    (pgdir error_code addr : ℕ) (s : Mmu) (v : Vma)
    → IsFault pgdir addr s
    → contains addr v ≡ true
    → (b : Bool) → may_access error_code v ≡ b
    → Returns
        (λ r. (contains addr v ≡ true) × Allowed pgdir (rounddown addr) (perm_of v) s b r)
        (resolve pgdir error_code addr (some v) s)
unfolding resolve
by_rights pgdir error_code addr s v h inside false refused =
    let started : ltb addr v.vm_start ≡ false = ground arith in
    rw (started, refused) (inside, (refl, refl))
by_rights pgdir error_code addr s v h inside true allowed =
    let started : ltb addr v.vm_start ≡ false = ground arith in
    rw (started, allowed)
      (Returns-mono (Filled pgdir (rounddown addr) (perm_of v) s)
        (λ r. (contains addr v ≡ true) × Filled pgdir (rounddown addr) (perm_of v) s r)
        (get_pte pgdir (rounddown addr) true s >>= λ found.
          fill_entry pgdir (rounddown addr) (perm_of v) found)
        (filled pgdir addr (perm_of v) s h (perm_small v)) λ r f. (inside, f))

resolve-Resolved :
    (pgdir error_code addr : ℕ) (s : Mmu)
    → IsFault pgdir addr s
    → (found : Option Vma) → ((v : Vma) → found ≡ some v → contains addr v ≡ true)
    → Returns (Resolved pgdir error_code addr s found) (resolve pgdir error_code addr found s)
unfolding resolve
resolve-Resolved pgdir error_code addr s h none has = (refl, refl)
resolve-Resolved pgdir error_code addr s h (some v) has =
    by_rights pgdir error_code addr s v h (has v refl) (rights_suffice error_code v)
      (may_access-rights_suffice error_code v)

-- The whole handler: the counter, the areas and the answer.
pub record IsHandled (pgdir error_code addr : ℕ) (w : Space) (r : Ret (Unit {0}) × Space)
    : Type 0 where
  pub counted : r.1.pgfault_num ≡ (w.pgfault_num + 1) % 2 ^ 32
  pub space : IsSpace r.1.mm
  pub areas : r.1.mm.mmap_list ≡ w.mm.mmap_list
  pub resolved : Resolved pgdir error_code addr w.mmu (find_vma addr w.mm).0 (r.0, r.1.mmu)

-- do_pgfault for a 32-bit address outside the range of VPT without an entry, over a sound address
-- space and sound page tables whose free pages are not reserved and can be one more, returns and
-- counts the fault: when no area has the address, or its area forbids the access (it is no write,
-- and the page is present or the area neither readable nor executable; or it is a write, and the
-- area not writable), it answers -E_INVAL and the page tables are as they were; else either the
-- page of the address is mapped to a page that was free, with the rights of the area, and no other
-- address has changed, or it answers -E_NO_MEM and no address has changed.
pub do_pgfault-IsHandled :
    (pgdir error_code addr : ℕ) (w : Space)
    → IsSpace w.mm
    → IsFault pgdir addr w.mmu
    → Returns (IsHandled pgdir error_code addr w) (do_pgfault pgdir error_code addr w)
unfolding do_pgfault
do_pgfault-IsHandled pgdir error_code addr w m h =
    let finds = find_vma-finds addr w.mm m in
    Returns-bind (Resolved pgdir error_code addr w.mmu (find_vma addr w.mm).0) _
      (resolve pgdir error_code addr (find_vma addr w.mm).0 w.mmu) _
      (resolve-Resolved pgdir error_code addr w.mmu h (find_vma addr w.mm).0
        (λ v e. ((finds.0 v).0 e).1))
      λ r q. record { counted = refl; space = finds.1; areas = finds.2; resolved = q }
