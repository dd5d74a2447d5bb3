-- ===== src/Proc/Links/Remove.antt =====
-- kern/process/proc.c: what `remove_links` leaves of the list of children.
use lcore.Base.{
  ℕ, ◌≡◌, ◌≢◌, refl, sym, ◌∙◌, true, false, not, ◌&&◌, List, [], ◌∷◌, arith, ◌==◌, if◌then◌else◌,
  remove, mem, Distinct, Distinct-remove, Bool-cases, inl, inr, ◌⊎◌, subst, ap,
}
use lcore.Proc.Links.{Family, Chain, AreChildren, Chain-frame, mem_ne, remove_links}

module _ (proc par : ℕ) (f : Family) (e : (f.kin proc).parent ≡ par) where
  abbrev younger : ℕ
  younger = (f.kin proc).yptr

  abbrev elder : ℕ
  elder = (f.kin proc).optr

  -- The links afterwards.
  unlinked :
      (x : ℕ)
      → (((remove_links proc f).kin x).parent ≡ (f.kin x).parent)
        × (((remove_links proc f).kin x).yptr
            ≡ (if not (elder == 0) && (x == elder) then younger else (f.kin x).yptr))
        × (((remove_links proc f).kin x).optr
            ≡ (if not (younger == 0) && (x == younger) then elder else (f.kin x).optr))
        × (((remove_links proc f).kin x).cptr
            ≡ (if (younger == 0) && (x == par) then elder else (f.kin x).cptr))
  unfolding remove_links
  unlinked x = elim (Bool-cases (elder == 0)) [
    | inl z ↦ elim (Bool-cases (younger == 0)) [
      | inl w ↦ rw (z, w, e) (ground (arith, e))
      | inr w ↦ rw (z, w) (ground arith)
    ]
    | inr z ↦ rw z (ground (arith, e))
  ]

  next_in :
      (l : List ℕ) (prev first : ℕ)
      → Chain f.kin par prev first l
      → mem proc l ≡ true
      → (elder ≡ 0) ⊎ (mem elder l ≡ true)
  next_in (c ∷ []) prev first h m = ground (arith, h.4, m)
  next_in (c ∷ b ∷ cs) prev first h m = elim (Bool-cases (proc == c)) [
    | inl q ↦ ground (arith, h.4.0, q)
    | inr q ↦ ground (arith, next_in (b ∷ cs) c (f.kin c).optr h.4, m, q)
  ]
  next_in [] prev first h m = ground (arith, m)

  prev_in :
      (l : List ℕ) (prev first : ℕ)
      → Chain f.kin par prev first l
      → mem proc l ≡ true
      → ((first ≡ proc) × (younger ≡ prev)) ⊎ ((first ≢ proc) × (mem younger l ≡ true))
  prev_in [] prev first h m = ground (arith, m)
  prev_in (c ∷ cs) prev first h m = elim (Bool-cases (proc == c)) [
    | inl q ↦ ground (arith, h.0, h.3, q)
    | inr q ↦ ground (arith, prev_in cs c (f.kin c).optr h.4, m, q, h.0)
  ]

  -- The elder ones, where `proc` was the first.
  heirs :
      (cs : List ℕ)
      → mem younger (proc ∷ cs) ≡ false
      → Distinct (proc ∷ cs)
      → Chain f.kin par proc elder cs
      → Chain (remove_links proc f).kin par younger elder cs
  heirs [] m d h = h
  heirs (c ∷ cs) m d h =
      let named : (not (elder == 0) && (c == elder)) ≡ true = ground (arith, h.0, h.1) in
      let other : (not (younger == 0) && (c == younger)) ≡ false = ground (arith, m) in
      (
        h.0,
        h.1,
        (unlinked c).0 ∙ h.2,
        (unlinked c).1 ∙ rw named refl,
        subst (λ o. Chain (remove_links proc f).kin par c o cs)
            (sym ((unlinked c).2 ∙ rw other refl))
            (Chain-frame f.kin (remove_links proc f).kin par c (f.kin c).optr cs
              (λ x k.
                let later : (x == elder) ≡ false = ground (arith, d.1.0, h.0, k, mem_ne c x cs) in
                let apart : (x == younger) ≡ false = ground (arith, m, k, mem_ne younger x cs) in
                (
                  (unlinked x).0,
                  (unlinked x).1 ∙ ground (arith, later),
                  (unlinked x).2 ∙ ground (arith, apart),
                ))
              h.4),
      )

  left_over :
      (l : List ℕ) (prev first : ℕ)
      → mem prev l ≡ false
      → Distinct l
      → Chain f.kin par prev first l
      → mem proc l ≡ true
      → Chain
          (remove_links proc f).kin
          par
          prev
          (if first == proc then elder else first)
          (remove proc l)
  left_over [] prev first p d h m = ground (arith, m)
  left_over (c ∷ cs) prev first p d h m = elim (Bool-cases (proc == c)) [
    | inl q ↦
        let same : proc ≡ c = ground (arith, q) in
        let here : (first == proc) ≡ true = ground (arith, h.0, q) in
        let above : younger ≡ prev = ap (λ x. (f.kin x).yptr) same ∙ h.3 in
        rw (q, here)
          (subst (λ y. Chain (remove_links proc f).kin par y elder cs) above
            (heirs cs
              (subst (λ y. mem y (proc ∷ cs) ≡ false) (sym above)
                (subst (λ x. mem prev (x ∷ cs) ≡ false) (sym same) p))
              (subst (λ x. Distinct (x ∷ cs)) (sym same) d)
              (subst (λ x. Chain f.kin par x (f.kin x).optr cs) (sym same) h.4)))
    | inr q ↦
        let there : mem proc cs ≡ true = ground (arith, m, q) in
        let apart : (first == proc) ≡ false = ground (arith, h.0, q) in
        let rest = left_over cs c (f.kin c).optr d.0 d.1 h.4 there in
        let near : ((remove_links proc f).kin c).optr
            ≡ (if (f.kin c).optr == proc then elder else (f.kin c).optr) =
          (unlinked c).2
          ∙ ground (arith, prev_in cs c (f.kin c).optr h.4 there, d.0, h.1, mem_ne c younger cs) in
        let kept : ((remove_links proc f).kin c).yptr ≡ (f.kin c).yptr =
          (unlinked c).1
          ∙ ground (arith, next_in cs c (f.kin c).optr h.4 there, d.0, mem_ne c elder cs) in
        rw (q, apart)
          (
            h.0,
            h.1,
            (unlinked c).0 ∙ h.2,
            kept ∙ h.3,
            subst (λ o. Chain (remove_links proc f).kin par c o (remove proc cs)) (sym near) rest,
          )
  ]

  no_null : (l : List ℕ) (prev first : ℕ) → Chain f.kin par prev first l → mem 0 l ≡ false
  no_null [] prev first h = refl
  no_null (c ∷ cs) prev first h = ground (arith, h.1, no_null cs c (f.kin c).optr h.4)

  -- When the processes of a list are the children of their parent, from the youngest on, and a
  -- process is one of them, then after remove_links the others are, in the same order.
  pub remove_links-AreChildren :
      (l : List ℕ)
      → mem proc l ≡ true
      → AreChildren par l f
      → AreChildren par (remove proc l) (remove_links proc f)
  remove_links-AreChildren l m h =
      let first = (f.kin par).cptr in
      let null_out = no_null l 0 first h.1 in
      let head : ((remove_links proc f).kin par).cptr ≡ (if first == proc then elder else first) =
        (unlinked par).3 ∙ ground (arith, prev_in l 0 first h.1 m, mem_ne 0 younger l null_out) in
      (
        Distinct-remove proc l h.0,
        subst (λ o. Chain (remove_links proc f).kin par 0 o (remove proc l)) (sym head)
            (left_over l 0 first null_out h.0 h.1 m),
      )
