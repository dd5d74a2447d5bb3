-- ===== src/Proc/Links.antt =====
-- kern/process/proc.c: `set_links` and `remove_links`, which keep the children of a process in a
-- list from the youngest on. 0 is NULL.
pub mod Remove
use lcore.Base.{
  ℕ, ◌+◌, ◌-◌, ◌≡◌, ◌≢◌, refl, sym, ◌∙◌, true, false, not, ◌&&◌, ◌||◌, List, [], ◌∷◌, arith, ◌==◌,
  if◌then◌else◌, update, remove, mem, Distinct, Distinct-remove, Bool-cases, inl, inr, ◌⊎◌, subst,
  ap,
}

-- The links of `proc_struct` to its relatives.
pub record Kin : Type 0 where
  pub parent : ℕ
  pub cptr : ℕ
  pub yptr : ℕ
  pub optr : ℕ

-- `proc_list` and `nr_process`, an `int` that is decremented only for a process in the list.
pub record Family : Type 0 where
  pub kin : ℕ → Kin
  pub proc_list : List ℕ
  pub nr_process : ℕ

abbrev set_yptr : (p y : ℕ) → (ℕ → Kin) → ℕ → Kin
set_yptr p y kin = update kin p (record (kin p) { yptr = y })

abbrev set_optr : (p o : ℕ) → (ℕ → Kin) → ℕ → Kin
set_optr p o kin = update kin p (record (kin p) { optr = o })

abbrev set_cptr : (p c : ℕ) → (ℕ → Kin) → ℕ → Kin
set_cptr p c kin = update kin p (record (kin p) { cptr = c })

unfoldable pub set_links : ℕ → Family → Family
set_links proc f =
    let older = (f.kin (f.kin proc).parent).cptr in
    let k1 = set_optr proc older (set_yptr proc 0 f.kin) in
    let k2 = if older == 0 then k1 else set_yptr older proc k1 in
    record {
      kin = set_cptr (k2 proc).parent proc k2;
      proc_list = proc ∷ f.proc_list;
      nr_process = f.nr_process + 1;
    }

unfoldable pub remove_links : ℕ → Family → Family
remove_links proc f =
    let p = f.kin proc in
    let k1 = if p.optr == 0 then f.kin else set_yptr p.optr p.yptr f.kin in
    let y = (k1 proc).yptr in
    let o = (k1 proc).optr in
    record {
      kin = if y == 0 then set_cptr (k1 proc).parent o k1 else set_optr y o k1;
      proc_list = remove proc f.proc_list;
      nr_process = f.nr_process - 1;
    }

-- From `first` on the children of `par`, the next younger being `prev`.
abbrev pub Chain : (kin : ℕ → Kin) (par prev first : ℕ) → List ℕ → Type 0
Chain kin par prev first [] = first ≡ 0
Chain kin par prev first (c ∷ cs) =
    (first ≡ c)
    × (c ≢ 0)
    × ((kin c).parent ≡ par)
    × ((kin c).yptr ≡ prev)
    × Chain kin par c (kin c).optr cs

-- The children of `par` are those of the list, each once.
abbrev pub AreChildren : (par : ℕ) → List ℕ → Family → Type 0
AreChildren par l f = Distinct l × Chain f.kin par 0 (f.kin par).cptr l

-- Links of others do not matter.
Chain-frame :
    (kin kin' : ℕ → Kin) (par prev first : ℕ) (l : List ℕ)
    → ((c : ℕ)
        → mem c l ≡ true
        → ((kin' c).parent ≡ (kin c).parent)
          × ((kin' c).yptr ≡ (kin c).yptr)
          × ((kin' c).optr ≡ (kin c).optr))
    → Chain kin par prev first l
    → Chain kin' par prev first l
Chain-frame kin kin' par prev first [] same h = h
Chain-frame kin kin' par prev first (c ∷ cs) same h =
    let here : mem c (c ∷ cs) ≡ true = ground arith in
    let own = same c here in
    (
      h.0,
      h.1,
      own.0 ∙ h.2,
      own.1 ∙ h.3,
      subst (λ o. Chain kin' par c o cs) (sym own.2)
          (Chain-frame kin kin' par c (kin c).optr cs (λ x m. same x (ground (arith, m))) h.4),
    )

mem_ne : (a x : ℕ) (l : List ℕ) → mem a l ≡ false → mem x l ≡ true → x ≢ a
mem_ne a x l m k q = ground (arith, ap (λ y. mem y l) q)

module _ (proc par : ℕ) (f : Family) (e : (f.kin proc).parent ≡ par) where
  abbrev older : ℕ
  older = (f.kin par).cptr

  -- The links afterwards.
  linked :
      (x : ℕ)
      → (((set_links proc f).kin x).parent ≡ (f.kin x).parent)
        × (((set_links proc f).kin x).yptr ≡ (
            if not (older == 0) && (x == older)
            then proc
            else if x == proc
            then 0
            else (f.kin x).yptr))
        × (((set_links proc f).kin x).optr ≡ (if x == proc then older else (f.kin x).optr))
        × (((set_links proc f).kin x).cptr ≡ (if x == par then proc else (f.kin x).cptr))
  unfolding set_links
  linked x = rw e (elim (Bool-cases (older == 0)) [
    | inl z ↦ rw (z, e) (ground (arith, e))
    | inr z ↦ rw (z, e) (ground (arith, e))
  ])

  head_differs :
      (l : List ℕ)
      → mem proc l ≡ false
      → Chain f.kin par 0 older l
      → (not (older == 0) && (proc == older)) ≡ false
  head_differs [] m h = ground (arith, h)
  head_differs (c ∷ cs) m h = ground (arith, h.0, m)

  same_name : (proc == proc) ≡ true
  same_name = ground arith

  -- The children so far.
  elders :
      (l : List ℕ)
      → mem proc l ≡ false
      → Distinct l
      → Chain f.kin par 0 older l
      → Chain (set_links proc f).kin par proc older l
  elders [] m d h = h
  elders (c ∷ cs) m d h =
      let apart : (c == proc) ≡ false = ground (arith, m) in
      let named : (not (older == 0) && (c == older)) ≡ true = ground (arith, h.0, h.1) in
      let near : ((set_links proc f).kin c).optr ≡ (f.kin c).optr = (linked c).2 ∙ rw apart refl in
      (
        h.0,
        h.1,
        (linked c).0 ∙ h.2,
        (linked c).1 ∙ rw named refl,
        subst (λ o. Chain (set_links proc f).kin par c o cs) (sym near)
            (Chain-frame f.kin (set_links proc f).kin par c (f.kin c).optr cs
              (λ x k.
                let other : (x == proc) ≡ false = ground (arith, m, k, mem_ne proc x cs) in
                let later : (x == older) ≡ false = ground (arith, d.0, h.0, k, mem_ne c x cs) in
                (
                  (linked x).0,
                  (linked x).1 ∙ ground (arith, other, later),
                  (linked x).2 ∙ rw other refl,
                ))
              h.4),
      )

  -- A process that is no child yet becomes the youngest child of its parent.
  set_links-AreChildren :
      (l : List ℕ)
      → proc ≢ 0
      → mem proc l ≡ false
      → AreChildren par l f
      → AreChildren par (proc ∷ l) (set_links proc f)
  set_links-AreChildren l n m h = (
    (m, h.0),
    (
      ground (arith, linked par),
      n,
      ground (arith, linked proc, e),
      (linked proc).1 ∙ rw (head_differs l m h.1, same_name) refl,
      subst (λ o. Chain (set_links proc f).kin par proc o l)
          (sym ((linked proc).2 ∙ rw same_name refl)) (elders l m h.0 h.1),
    ),
  )
