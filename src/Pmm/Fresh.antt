-- ===== src/Pmm/Fresh.antt =====
-- `pgdir_alloc_page`: a fresh page is mapped, or nothing has changed.
use lcore.Base.{
  ℕ, ◌+◌, ◌*◌, ◌^◌, ◌<◌, ◌≡◌, ◌≢◌, refl, sym, ap, subst, ◌∙◌, true, false, not, ◌&&◌, Option, none,
  some, ok, Returns, Returns-bind, arith,
}
use lcore.Fs.Defs.{Ret, done, err}
use lcore.Pmm.Defs.{Memory, default_free_pages}
use lcore.Pmm.Blocks.{within, covers, IsFreeArea}
use lcore.Pmm.Alloc.{Allocated}
use lcore.Pmm.Free.{IsInUse, IsFreed, default_free_pages-IsFreed}
use lcore.Pmm.Kept.{SameUse}
use lcore.Pmm.Paging.{
  Mmu, pdx, ppn, is_present, with_p, alloc_page, free_page, page_insert, kept_or_freed,
  insert_fresh, pgdir_alloc_page,
}
use lcore.Pmm.Walk.{walk, vpt, is_free, IsTables}
use lcore.Pmm.Entry.{alloc_lem, no_free}
use lcore.Pmm.Insert.{IsMappable, Inserted, page_insert-Inserted}

-- `la` is not mapped, and a fresh page may be mapped there.
pub record IsMissing (pgdir la perm : ℕ) (s : Mmu) : Type 0 where
  pub tables : IsTables pgdir s
  pub user : pdx la ≡ vpt → ⊥
  pub range : la < 2 ^ 32
  pub flags : perm < 2 ^ 12
  pub absent : is_present (walk pgdir la s) ≡ false
  pub clean : (x : ℕ) → is_free x s ≡ true → (s.memory.pages x).reserved ≡ false
  pub room : s.memory.nr_free + 1 < 2 ^ 32

pub record IsMapped (pgdir la perm page : ℕ) (s t : Mmu) : Type 0 where
  pub sound : IsTables pgdir t
  pub fresh : is_free page s ≡ true
  pub taken : is_free page t ≡ false
  pub entry : walk pgdir la t ≡ page * 2 ^ 12 + with_p perm
  pub others :
      (lb : ℕ)
      → lb < 2 ^ 32
      → (pdx lb ≡ vpt → ⊥)
      → ppn lb ≢ ppn la
      → walk pgdir lb t ≡ walk pgdir lb s

-- A failure has left no trace, and at most one page was free.
pub record IsUnmapped (pgdir la : ℕ) (s t : Mmu) : Type 0 where
  pub area : IsFreeArea t.memory
  pub words : t.words ≡ s.words
  pub same_free : (x : ℕ) → is_free x t ≡ is_free x s
  pub scarce : (x y : ℕ) → is_free x s ≡ true → is_free y s ≡ true → x ≡ y

abbrev pub Mapped : (pgdir la perm : ℕ) → Mmu → Option ℕ × Mmu → Type 0
Mapped pgdir la perm s (some page, t) = IsMapped pgdir la perm page s t
Mapped pgdir la perm s (none, t) = IsUnmapped pgdir la s t

module _ (pgdir la perm : ℕ) (s : Mmu) (h : IsMissing pgdir la perm s) (page : ℕ) (m : Memory)
    (a : Allocated 1 s.memory (some page, m))
    (k : (x : ℕ) → SameUse (s.memory.pages x) (m.pages x)) where
  abbrev rest : Mmu
  rest = record s { memory = m }

  was_free : is_free page s ≡ true
  was_free = a.3 page (ground arith)

  rest-free : (x : ℕ) → is_free x rest ≡ (is_free x s && not (within page 1 x))
  rest-free x = a.4 x

  rest-IsTables : IsTables pgdir rest
  rest-IsTables = record {
    area = a.0;
    small = h.tables.small;
    managed = λ x f. h.tables.managed x (ground (arith, rest-free x));
    dir_used = ground (arith, rest-free pgdir, h.tables.dir_used);
    tables = λ i n.
        let t = h.tables.tables i n in
        (t.0, t.1, ground (arith, rest-free (ppn (s.words pgdir i)), t.2));
    distinct = h.tables.distinct;
  }

  rest-IsMappable : IsMappable pgdir page la perm rest
  rest-IsMappable = record {
    tables = rest-IsTables;
    user = h.user;
    range = h.range;
    flags = h.flags;
    inside = h.tables.managed page was_free;
    used = ground (arith, rest-free page);
    replaced = λ p. ground (arith, h.absent);
    room = omega (arith, a.2, h.room);
  }

  page-IsInUse : IsInUse page 1 m
  page-IsInUse = record {
    some_pages = omega arith;
    not_free = λ x w. ground (arith, rest-free x);
    not_reserved = λ x w. ground (arith, k x, h.clean page was_free);
    fits = omega (arith, a.2, h.room);
  }

  free_page-IsFreed :
      Returns (λ u. IsFreed page 1 m u.memory × (u.words ≡ s.words)) (free_page page rest)
  unfolding free_page
  free_page-IsFreed =
      Returns-bind (IsFreed page 1 m) _ (default_free_pages page 1 m) _
        (default_free_pages-IsFreed page 1 m a.0 page-IsInUse) λ n f. (f, refl)

  kept_or_freed-Mapped :
      (answer : Ret (Unit {0}) × Mmu)
      → Inserted pgdir page la perm rest answer
      → Returns (Mapped pgdir la perm s) (kept_or_freed page answer)
  kept_or_freed-Mapped (done _, t) i = record {
    sound = i.sound;
    fresh = was_free;
    taken = i.freed page rest-IsMappable.used ∙ ground (arith, h.absent);
    entry = i.entry;
    others = i.others;
  }
  kept_or_freed-Mapped (err e, t) i =
      subst (λ u. Returns (Mapped pgdir la perm s) (kept_or_freed page (err e, u))) (sym i.1)
        (Returns-bind _ (Mapped pgdir la perm s) (free_page page rest) (λ u. ok (none, u))
          free_page-IsFreed
          λ u (f, same). record {
            area = f.area;
            words = same;
            same_free = λ x. ground (arith, f.covered x, rest-free x, was_free);
            scarce = λ x y p q. ground (arith, rest-free x, rest-free y, i.3 x, i.3 y);
          })

-- pgdir_alloc_page with flags below 2 ^ 12 at a 32-bit address outside the range of VPT without a
-- page, over sound tables whose free pages are not reserved and can be one more, returns: either a
-- page that was free, to which the address is now mapped with no other address changed and the
-- tables sound; or NULL, and then at most one page was free, the same pages are free and no word
-- of the tables has changed.
pub pgdir_alloc_page-Mapped :
    (pgdir la perm : ℕ) (s : Mmu)
    → IsMissing pgdir la perm s
    → Returns (Mapped pgdir la perm s) (pgdir_alloc_page pgdir la perm s)
unfolding pgdir_alloc_page
pgdir_alloc_page-Mapped pgdir la perm s h =
    Returns-bind _ (Mapped pgdir la perm s) (alloc_page s) (insert_fresh pgdir la perm)
      (alloc_lem s h.tables.area)
      λ (answer, t) (a, k, e).
        subst (λ u. Returns (Mapped pgdir la perm s) (insert_fresh pgdir la perm (answer, u)))
          (sym e) (from_answer answer t.memory a k)
  where
    from_answer :
        (answer : Option ℕ) (m : Memory)
        → Allocated 1 s.memory (answer, m)
        → ((x : ℕ) → SameUse (s.memory.pages x) (m.pages x))
        → Returns
            (Mapped pgdir la perm s)
            (insert_fresh pgdir la perm (answer, record s { memory = m }))
    from_answer none m a k =
        let empty : (x : ℕ) → is_free x s ≡ false =
          λ x. no_free s.memory.pages 0 s.memory.free_list x h.tables.area.blocks a.1 in
        record {
          area = subst IsFreeArea (sym a.0) h.tables.area;
          words = refl;
          same_free = λ x. ap (λ n. covers n.pages n.free_list x) a.0;
          scarce = λ x y p q. ground (arith, empty x);
        }
    from_answer (some page) m a k =
        Returns-bind (Inserted pgdir page la perm (record s { memory = m })) _
          (page_insert pgdir page la perm (record s { memory = m })) _
          (page_insert-Inserted pgdir page la perm (record s { memory = m })
            (rest-IsMappable pgdir la perm s h page m a k))
          λ answer i. kept_or_freed-Mapped pgdir la perm s h page m a k answer i
