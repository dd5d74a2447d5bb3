-- ===== src/Text/Move.antt =====
-- `memmove` and `memcpy`: the bytes afterwards.
use lcore.Base.{
  ℕ, zero, suc, ◌+◌, ◌-◌, ◌*◌, ◌/◌, ◌%◌, ◌≤◌, ◌≡◌, ◌∙◌, ◌&&◌, arith, ltb, leb, if◌then◌else◌,
  update, Bool-cases, inl, inr,
}
use lcore.Text.Arch.{movsl, rep_movsl, rep_movsb, rep_movsb_down, arch_memcpy, arch_memmove}
use lcore.Text.Defs.{memmove}

-- The memory with the `n` bytes at `s` copied to `d`.
abbrev pub copied : (ℕ → ℕ) → (d s n : ℕ) → ℕ → ℕ
copied mem d s n x = if leb d x && ltb x (d + n) then mem (s + (x - d)) else mem x

-- Upwards to a lower place, bytes that are copied first are not read again.
copied-copied :
    (mem mem' : ℕ → ℕ) (d s m n x : ℕ)
    → d ≤ s
    → ((y : ℕ) → mem' y ≡ copied mem d s m y)
    → copied mem' (d + m) (s + m) n x ≡ copied mem d s (m + n) x
copied-copied mem mem' d s m n x h same = ground (arith, same x, same (s + m + (x - (d + m))))

movsl-copied : (mem : ℕ → ℕ) (d s x : ℕ) → movsl mem d s x ≡ copied mem d s 4 x
unfolding movsl
movsl-copied mem d s x = ground arith

rep_movsl-copied :
    (n : ℕ) (mem : ℕ → ℕ) (d s x : ℕ) → d ≤ s → rep_movsl mem d s n x ≡ copied mem d s (4 * n) x
unfolding rep_movsl
rep_movsl-copied zero mem d s x h = ground arith
rep_movsl-copied (suc n) mem d s x h =
    rep_movsl-copied n (movsl mem d s) (d + 4) (s + 4) x (omega arith)
    ∙ copied-copied mem (movsl mem d s) d s 4 (4 * n) x h (movsl-copied mem d s)
    ∙ ground arith

rep_movsb-copied :
    (n : ℕ) (mem : ℕ → ℕ) (d s x : ℕ) → d ≤ s → rep_movsb mem d s n x ≡ copied mem d s n x
unfolding rep_movsb
rep_movsb-copied zero mem d s x h = ground arith
rep_movsb-copied (suc n) mem d s x h =
    ground (arith, rep_movsb-copied n (update mem d (mem s)) (d + 1) (s + 1) x)

rep_movsb_down-copied :
    (n : ℕ) (mem : ℕ → ℕ) (d s x : ℕ) → s ≤ d → rep_movsb_down mem d s n x ≡ copied mem d s n x
unfolding rep_movsb_down
rep_movsb_down-copied zero mem d s x h = ground arith
rep_movsb_down-copied (suc n) mem d s x h =
    ground (arith, rep_movsb_down-copied n (update mem (d + n) (mem (s + n))) d s x h)

arch_memcpy-copied :
    (mem : ℕ → ℕ) (d s n x : ℕ) → d ≤ s → arch_memcpy mem d s n x ≡ copied mem d s n x
unfolding arch_memcpy
arch_memcpy-copied mem d s n x h =
    let k = n / 4 in
    let all : 4 * k + n % 4 ≡ n = omega arith in
    rep_movsb-copied (n % 4) (rep_movsl mem d s k) (d + 4 * k) (s + 4 * k) x (omega arith)
    ∙ copied-copied mem (rep_movsl mem d s k) d s (4 * k) (n % 4) x h
        (λ y. rep_movsl-copied k mem d s y h)
    ∙ rw all

-- memmove leaves at the destination the bytes that the source held before, however the two
-- overlap, and every other byte as it was: upwards in words and the bytes that are left over, or
-- downwards in bytes.
pub memmove-copied : (mem : ℕ → ℕ) (d s n x : ℕ) → memmove mem d s n x ≡ copied mem d s n x
unfolding memmove arch_memmove
memmove-copied mem d s n x = elim (Bool-cases (ltb d s)) [
  | inl below ↦ rw below (arch_memcpy-copied mem d s n x (ground arith))
  | inr above ↦ rw above (rep_movsb_down-copied n mem d s x (ground arith))
]
