-- ===== src/Pmm/Merge.antt =====
-- The merging loop of `default_free_pages`: the freed block grows by the blocks that it touches.
use lcore.Base.{
  ℕ, ◌+◌, ◌%◌, ◌^◌, ◌≡◌, ◌≢◌, refl, true, false, List, [], ◌∷◌, arith, ◌==◌, mem, remove, Distinct,
  Bool-cases, inl, inr, mem-remove_self, mem-remove_ne, ◌∙◌, ℕ_discrete,
}
use lcore.Pmm.Defs.{Memory, merge_with, merge}
use lcore.Pmm.Members.{member_head, AreBlocks-Distinct, total-remove}
use lcore.Pmm.Place.{touches}
use lcore.Pmm.Join.{IsMerging, IsLater, base_absent, joined-IsLater}

module _ (p base : ℕ) (s : Memory) (v : IsMerging base s) (m : mem p s.free_list ≡ true) where
  -- One round of the loop leaves the page `p` off the list or apart from the block.
  abbrev Stepped : ℕ × Memory → Type 0
  Stepped (b, t) =
      IsLater base s b t
      × ((q : ℕ) → mem q s.free_list ≡ true → q ≢ p → mem q t.free_list ≡ true)
      × (mem p t.free_list ≡ true → touches t.pages p b ≡ false)

  apart-Stepped : touches s.pages p base ≡ false → Stepped (base, s)
  apart-Stepped far = (
    record {
      merging = v;
      same_union = λ x. refl;
      same_sum = refl;
      same_count = refl;
      shrinks = λ q h. h;
      keeps_apart = λ q h k. k;
    },
    (λ q h ne. h),
    λ h. far,
  )

  no_wrap :
      ((s.pages base).property + (s.pages p).property) % 2 ^ 32
      ≡ (s.pages base).property + (s.pages p).property
  no_wrap = ground (arith, v.bounded, total-remove s.pages 0 p s.free_list v.blocks m)

  merge_with-Stepped : Stepped (merge_with p base s)
  unfolding merge_with
  merge_with-Stepped =
      let ne : p ≢ base = λ e. ground (arith, m, base_absent p base s v m) in
      let kept : (q : ℕ) → mem q s.free_list ≡ true → q ≢ p → mem q (remove p s.free_list) ≡ true =
        λ q h d. mem-remove_ne q p s.free_list d ∙ h in
      let off : mem p (remove p s.free_list) ≡ false =
        mem-remove_self p s.free_list (AreBlocks-Distinct s.pages 0 s.free_list v.blocks) in
      elim (Bool-cases (base + (s.pages base).property == p)) [
        | inl upper ↦ rw upper (
          joined-IsLater p base s v m _ base p (λ a d d'. ground arith) (ground (arith, v.head))
              (ground arith) (ground (arith, no_wrap)) (inl (refl, refl, ground arith)),
          kept,
          λ h. ground (arith, off, h),
        )
        | inr n ↦ elim (Bool-cases (p + (s.pages p).property == base)) [
          | inl lower ↦
              rw (n, lower)
                (
                  joined-IsLater p base s v m _ p base (λ a d d'. ground arith)
                      (ground (arith, ne, member_head s.pages 0 p s.free_list v.blocks m))
                      (ground arith) (ground (arith, no_wrap)) (inr (refl, refl, ground arith)),
                  kept,
                  λ h. ground (arith, off, h),
                )
          | inr n' ↦ rw (n, n') (apart-Stepped (ground arith))
        ]
      ]

IsLater-trans :
    {base b c : ℕ} {s t u : Memory} → IsLater base s b t → IsLater b t c u → IsLater base s c u
IsLater-trans v w = record {
  merging = w.merging;
  same_union = λ x. w.same_union x ∙ v.same_union x;
  same_sum = w.same_sum ∙ v.same_sum;
  same_count = w.same_count ∙ v.same_count;
  shrinks = λ q h. v.shrinks q (w.shrinks q h);
  keeps_apart = λ q h far. w.keeps_apart q h (v.keeps_apart q (w.shrinks q h) far);
}

-- After the loop no block of the list touches the one beside it.
abbrev pub Merged : ℕ → Memory → ℕ × Memory → Type 0
Merged base s (b, t) =
    IsLater base s b t × ((q : ℕ) → mem q t.free_list ≡ true → touches t.pages q b ≡ false)

pub merge-Merged :
    (l : List ℕ) (base : ℕ) (s : Memory)
    → IsMerging base s
    → ((q : ℕ) → mem q l ≡ true → mem q s.free_list ≡ true)
    → Distinct l
    → ((q : ℕ) → mem q s.free_list ≡ true → mem q l ≡ false → touches s.pages q base ≡ false)
    → Merged base s (merge l base s)
unfolding merge
merge-Merged [] base s v in_list d far = (
  record {
    merging = v;
    same_union = λ x. refl;
    same_sum = refl;
    same_count = refl;
    shrinks = λ q h. h;
    keeps_apart = λ q h k. k;
  },
  λ q h. far q h refl,
)
merge-Merged (p ∷ l) base s v in_list d far =
    let (b, t) = merge_with p base s in
    let (later, kept, off) = merge_with-Stepped p base s v (in_list p (ground arith)) in
    let (rest, alone) =
      merge-Merged l b t later.merging
        (λ q h. kept q (in_list q (ground arith)) λ e. ground (arith, d.0)) d.1
        (λ q h out. elim (ℕ_discrete q p) [
          | yes e ↦ rw e (off (rw e at h))
          | no ne ↦ later.keeps_apart q h (far q (later.shrinks q h) (ground arith))
        ]) in
    (IsLater-trans later rest, alone)
