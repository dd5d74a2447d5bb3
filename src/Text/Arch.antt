-- ===== src/Text/Arch.antt =====
-- libs/x86.h: the string functions that are written in assembly, instruction by instruction. A
-- `char *` that is only read is the sequence of the bytes from it on; reading or writing past the
-- end of the object is `panic`. Those that move bytes work on the whole memory, whose addresses do
-- not wrap around.
use lcore.Base.{
  ℕ, zero, suc, ◌+◌, ◌-◌, ◌*◌, ◌/◌, ◌%◌, ◌^◌, List, [], ◌∷◌, Outcome, ok, panic, ◌>>=◌, ltb, ◌==◌,
  if◌then◌else◌, update,
}

-- From the label `2` on: `sbbl` makes the borrow of the comparison 0 or -1, and `orb` makes 0 a 1.
abbrev pub unequal : (a b : ℕ) → ℕ
unequal a b = if ltb a b then 2 ^ 32 - 1 else 1

-- `__strcmp`: `lodsb` takes the byte `a`, `scasb` compares it with `b`.
unfoldable pub arch_strcmp : List ℕ → List ℕ → Outcome ℕ
arch_strcmp [] t = panic
arch_strcmp (a ∷ s) [] = panic
arch_strcmp (a ∷ s) (b ∷ t) =
    let rest = arch_strcmp s t in
    if a == b then (if a == 0 then ok 0 else rest) else ok (unequal a b)

-- `__strcpy`: `lodsb` takes the byte `c`, `stosb` stores it. Answers the bytes at `dst` afterwards.
unfoldable pub arch_strcpy : (dst src : List ℕ) → Outcome (List ℕ)
arch_strcpy dst [] = panic
arch_strcpy [] (c ∷ s) = panic
arch_strcpy (d ∷ ds) (c ∷ s) =
    let rest = arch_strcpy ds s in if c == 0 then ok (c ∷ ds) else rest >>= λ r. ok (c ∷ r)

-- `__memset` is `rep; stosb` with `n` in the counter.
unfoldable pub arch_memset : (ℕ → ℕ) → (s c n : ℕ) → ℕ → ℕ
arch_memset mem s c zero = mem
arch_memset mem s c (suc n) = arch_memset (update mem s c) (s + 1) c n

-- `rep; movsb` upwards.
unfoldable pub rep_movsb : (ℕ → ℕ) → (d s n : ℕ) → ℕ → ℕ
rep_movsb mem d s zero = mem
rep_movsb mem d s (suc n) = rep_movsb (update mem d (mem s)) (d + 1) (s + 1) n

-- `std; rep; movsb`: from the last byte down, where `d` and `s` are the starts.
unfoldable pub rep_movsb_down : (ℕ → ℕ) → (d s n : ℕ) → ℕ → ℕ
rep_movsb_down mem d s zero = mem
rep_movsb_down mem d s (suc n) = rep_movsb_down (update mem (d + n) (mem (s + n))) d s n

-- One `movsl`: four bytes are read, and then written.
unfoldable pub movsl : (ℕ → ℕ) → (d s : ℕ) → ℕ → ℕ
movsl mem d s =
    update (update (update (update mem d (mem s)) (d + 1) (mem (s + 1))) (d + 2) (mem (s + 2)))
      (d + 3) (mem (s + 3))

unfoldable pub rep_movsl : (ℕ → ℕ) → (d s n : ℕ) → ℕ → ℕ
rep_movsl mem d s zero = mem
rep_movsl mem d s (suc n) = rep_movsl (movsl mem d s) (d + 4) (s + 4) n

-- `__memcpy`: the words, and then the bytes that are left, where the pointers have come to.
unfoldable pub arch_memcpy : (ℕ → ℕ) → (d s n : ℕ) → ℕ → ℕ
arch_memcpy mem d s n =
    rep_movsb (rep_movsl mem d s (n / 4)) (d + 4 * (n / 4)) (s + 4 * (n / 4)) (n % 4)

-- `__memmove`
unfoldable pub arch_memmove : (ℕ → ℕ) → (d s n : ℕ) → ℕ → ℕ
arch_memmove mem d s n = if ltb d s then arch_memcpy mem d s n else rep_movsb_down mem d s n
