-- ===== src/Pmm/Walk.antt =====
-- What a page directory means: the entry of each address, and how the tables stand in memory.
use lcore.Base.{
  ℕ, ◌+◌, ◌^◌, ◌≤◌, ◌<◌, ◌≡◌, ◌≢◌, refl, sym, ◌∙◌, ◌⊎◌, Bool, true, false, not, ◌&&◌, Option, none,
  some, List, [], ◌∷◌, arith, ◌==◌, if◌then◌else◌,
}
use lcore.Pmm.Defs.{Page}
use lcore.Pmm.Blocks.{covers, total, AreBlocks, IsFreeArea}
use lcore.Pmm.Kept.{SameUse}
use lcore.Pmm.Paging.{Mmu, pdx, ptx, ppn, is_present, set_ref}

-- The entry of `la`, 0 where there is no table.
abbrev pub walk : (pgdir la : ℕ) → Mmu → ℕ
walk pgdir la s =
    let pde = s.words pgdir (pdx la) in if is_present pde then s.words (ppn pde) (ptx la) else 0

-- The entry of the directory that maps the tables themselves, `PDX(VPT)`.
abbrev pub vpt : ℕ
vpt = 1003

abbrev pub is_free : ℕ → Mmu → Bool
is_free page s = covers s.memory.pages s.memory.free_list page

-- The directory names a table at `i`.
abbrev pub names : (pgdir i : ℕ) → Mmu → Bool
names pgdir i s = is_present (s.words pgdir i) && not (i == vpt)

-- The directory and its tables are different frames of the memory, and in use.
pub record IsTables (pgdir : ℕ) (s : Mmu) : Type 0 where
  pub area : IsFreeArea s.memory
  pub small : s.npage ≤ 2 ^ 20
  pub managed : (x : ℕ) → is_free x s ≡ true → x < s.npage
  pub dir_used : is_free pgdir s ≡ false
  pub tables :
      (i : ℕ)
      → names pgdir i s ≡ true
      → (ppn (s.words pgdir i) < s.npage)
        × (ppn (s.words pgdir i) ≢ pgdir)
        × (is_free (ppn (s.words pgdir i)) s ≡ false)
  pub distinct :
      (i j : ℕ)
      → names pgdir i s ≡ true
      → names pgdir j s ≡ true
      → ppn (s.words pgdir i) ≡ ppn (s.words pgdir j)
      → i ≡ j

-- `get_pte` answers where the entry of `la` stands, and no entry has changed.
pub record IsLocated (pgdir la table index : ℕ) (s t : Mmu) : Type 0 where
  pub sound : IsTables pgdir t
  pub named : is_present (t.words pgdir (pdx la)) ≡ true
  pub at_table : table ≡ ppn (t.words pgdir (pdx la))
  pub at_index : index ≡ ptx la
  pub same_walk : (lb : ℕ) → (pdx lb ≡ vpt → ⊥) → walk pgdir lb t ≡ walk pgdir lb s
  pub same_tlb : t.tlb ≡ s.tlb
  pub same_cr3 : t.cr3 ≡ s.cr3
  pub same_npage : t.npage ≡ s.npage
  pub fewer : (x : ℕ) → is_free x s ≡ false → is_free x t ≡ false
  pub count : t.memory.nr_free ≤ s.memory.nr_free
  pub same_use : (x : ℕ) → is_free x s ≡ false → SameUse (s.memory.pages x) (t.memory.pages x)
  pub same_reserved : (x : ℕ) → (t.memory.pages x).reserved ≡ (s.memory.pages x).reserved
  pub from :
      (i : ℕ)
      → names pgdir i t ≡ true
      → (names pgdir i s ≡ true) × (t.words pgdir i ≡ s.words pgdir i)
        ⊎ (is_free (ppn (t.words pgdir i)) s ≡ true)

-- Either that, or there is no table and none can be had or is asked for, and nothing has changed.
abbrev pub Located : (pgdir la : ℕ) → (create : Bool) → Mmu → Option (ℕ × ℕ) × Mmu → Type 0
Located pgdir la create s (none, t) =
    (t ≡ s)
    × (is_present (s.words pgdir (pdx la)) ≡ false)
    × ((create ≡ true) → (x : ℕ) → is_free x s ≡ false)
Located pgdir la create s (some (table, index), t) = IsLocated pgdir la table index s t

-- Reference counts do not matter to the free area.
module _ (pages pages' : ℕ → Page)
    (same : (a : ℕ)
      → ((pages' a).property ≡ (pages a).property) × ((pages' a).head ≡ (pages a).head)) where
  covers-counts : (l : List ℕ) (x : ℕ) → covers pages' l x ≡ covers pages l x
  covers-counts [] x = refl
  covers-counts (p ∷ l) x = ground (arith, same p, covers-counts l x)

  total-counts : (l : List ℕ) → total pages' l ≡ total pages l
  total-counts [] = refl
  total-counts (p ∷ l) = ground (arith, same p, total-counts l)

  AreBlocks-counts : (lo : ℕ) (l : List ℕ) → AreBlocks pages lo l → AreBlocks pages' lo l
  AreBlocks-counts lo [] b = tt
  AreBlocks-counts lo (p ∷ l) b =
      rw ((same p).0, (same p).1)
        (b.0, b.1, b.2, AreBlocks-counts (p + (pages p).property + 1) l b.3)

counts_only :
    (page ref : ℕ) (s : Mmu) (a : ℕ)
    → (((set_ref page ref s).memory.pages a).property ≡ (s.memory.pages a).property)
      × (((set_ref page ref s).memory.pages a).head ≡ (s.memory.pages a).head)
counts_only page ref s a = ground arith

pub is_free-set_ref :
    (page ref : ℕ) (s : Mmu) (x : ℕ) → is_free x (set_ref page ref s) ≡ is_free x s
is_free-set_ref page ref s x =
    covers-counts s.memory.pages (set_ref page ref s).memory.pages (counts_only page ref s)
      s.memory.free_list x

pub set_ref-IsFreeArea :
    (page ref : ℕ) (s : Mmu) → IsFreeArea s.memory → IsFreeArea (set_ref page ref s).memory
set_ref-IsFreeArea page ref s v = record {
  blocks =
      AreBlocks-counts s.memory.pages (set_ref page ref s).memory.pages (counts_only page ref s) 0
        s.memory.free_list v.blocks;
  counted =
      v.counted
      ∙ sym (
          total-counts s.memory.pages (set_ref page ref s).memory.pages (counts_only page ref s)
            s.memory.free_list);
  heads = λ x h. v.heads x (sym (counts_only page ref s x).1 ∙ h);
}
