-- ===== src/Pmm/Defs.antt =====
-- kern/mm/default_pmm.c: first-fit allocation of pages. A `struct Page *` is the index of its page,
-- and the list `free_list` is the sequence of the pages whose `page_link` is in it.
use lcore.Base.{
  ℕ, zero, suc, ◌+◌, ◌-◌, ◌%◌, ◌^◌, Bool, true, false, not, ◌&&◌, Option, none, some, List, [], ◌∷◌,
  ◌++◌, Outcome, ok, ◌>>=◌, ◌>>◌, assert, ltb, leb, ◌==◌, if◌then◌else◌, remove, update,
}

-- `struct Page`; `reserved` and `head` are the flags PG_reserved and PG_property.
pub record Page : Type 0 where
  pub ref : ℕ
  pub reserved : Bool
  pub head : Bool
  pub property : ℕ

-- The pages and `free_area`.
pub record Memory : Type 0 where
  pub pages : ℕ → Page
  pub free_list : List ℕ
  pub nr_free : ℕ

abbrev pub set_page : ℕ → Page → Memory → Memory
set_page p g s = record s { pages = update s.pages p g }

abbrev pub clear_head : ℕ → Memory → Memory
clear_head p s = set_page p (record (s.pages p) { head = false }) s

unfoldable pub default_init : Memory → Memory
default_init s = record s { free_list = []; nr_free = 0 }

-- The loop of `default_init_memmap` over the `n` pages from `p` on.
unfoldable pub clear_pages : (n p : ℕ) → Memory → Outcome Memory
clear_pages zero p s = ok s
clear_pages (suc n) p s = do
  assert (s.pages p).reserved
  clear_pages n (p + 1)
      (set_page p (record { ref = 0; reserved = false; head = false; property = 0 }) s)

unfoldable pub default_init_memmap : (base n : ℕ) → Memory → Outcome Memory
default_init_memmap base n s = do
  assert (ltb 0 n)
  t ← clear_pages n base s
  let t' = set_page base (record (t.pages base) { property = n; head = true }) t
  ok (record t' { nr_free = (t'.nr_free + n) % 2 ^ 32; free_list = t'.free_list ++ base ∷ [] })

-- The search of `default_alloc_pages`.
unfoldable pub find_fit : (ℕ → Page) → ℕ → List ℕ → Option ℕ
find_fit pages n [] = none
find_fit pages n (p ∷ l) = if leb n (pages p).property then some p else find_fit pages n l

-- `list_add_after`
unfoldable pub add_after : (p q : ℕ) → List ℕ → List ℕ
add_after p q [] = []
add_after p q (a ∷ l) = if a == p then a ∷ q ∷ l else a ∷ add_after p q l

-- What lies behind the first `n` pages of the block becomes a block of its own.
unfoldable pub split : (p n : ℕ) → Memory → Memory
split p n s = record {
  pages =
      update s.pages (p + n)
        (record (s.pages (p + n)) { property = (s.pages p).property - n; head = true });
  free_list = add_after p (p + n) s.free_list;
  nr_free = s.nr_free;
}

unfoldable pub take_block : (p n : ℕ) → Memory → Memory
take_block p n s =
    let s' = if ltb n (s.pages p).property then split p n s else s in
    clear_head p (record s' { free_list = remove p s'.free_list; nr_free = s'.nr_free - n })

abbrev pub take_found : ℕ → Option ℕ → Memory → Option ℕ × Memory
take_found n none s = (none, s)
take_found n (some p) s = (some p, take_block p n s)

-- `none` is NULL.
unfoldable pub default_alloc_pages : ℕ → Memory → Outcome (Option ℕ × Memory)
default_alloc_pages n s = do
  assert (ltb 0 n)
  ok (if ltb s.nr_free n then (none, s) else take_found n (find_fit s.pages n s.free_list) s)

-- The loop of `default_free_pages` over the `n` pages from `p` on.
unfoldable pub reset_pages : (n p : ℕ) → Memory → Outcome Memory
reset_pages zero p s = ok s
reset_pages (suc n) p s = do
  assert (not (s.pages p).reserved && not (s.pages p).head)
  reset_pages n (p + 1)
      (set_page p (record (s.pages p) { ref = 0; reserved = false; head = false }) s)

-- One round of the loop that merges the block at `base` with its neighbours: the page `p` of the
-- list against it.
unfoldable pub merge_with : (p base : ℕ) → Memory → ℕ × Memory
merge_with p base s =
    let b = s.pages base in
    let q = s.pages p in
    let unlinked = record s { free_list = remove p s.free_list } in
    let upper =
      clear_head p
        (set_page base (record b { property = (b.property + q.property) % 2 ^ 32 }) unlinked) in
    let lower =
      clear_head base
        (set_page p (record q { property = (q.property + b.property) % 2 ^ 32 }) unlinked) in
    if base + b.property == p
    then (base, upper)
    else (if p + q.property == base then (p, lower) else (base, s))

-- The loop over the list as it stood before; it steps on before it unlinks a page.
unfoldable pub merge : List ℕ → ℕ → Memory → ℕ × Memory
merge [] base s = (base, s)
merge (p ∷ l) base s = let (b, t) = merge_with p base s in merge l b t

-- The last loop: the block goes before the first one that lies behind it.
unfoldable pub place : (ℕ → Page) → ℕ → List ℕ → Outcome (List ℕ)
place pages base [] = ok (base ∷ [])
place pages base (p ∷ l) =
    let behind = place pages base l >>= λ r. ok (p ∷ r) in
    let here = assert (not (base + (pages base).property == p)) >> ok (base ∷ p ∷ l) in
    if leb (base + (pages base).property) p then here else behind

unfoldable pub default_free_pages : (base n : ℕ) → Memory → Outcome Memory
default_free_pages base n s = do
  assert (ltb 0 n)
  t ← reset_pages n base s
  let (b, u) =
      merge t.free_list base (set_page base (record (t.pages base) { property = n; head = true }) t)
  l ← place u.pages b u.free_list
  ok (record u { nr_free = (u.nr_free + n) % 2 ^ 32; free_list = l })

unfoldable pub default_nr_free_pages : Memory → ℕ
default_nr_free_pages s = s.nr_free
