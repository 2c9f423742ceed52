-- ===== src/Classic/Perm5.antt =====
-- perm5: the permutation of five bits in the hop selection, by fourteen exchanges that control
-- bits switch on.
pub mod Laws
use codetooth.Prelude.{
  ℕ, zero, suc, ◌+◌, u8, bit_and, ◌<<<◌, ◌>>>◌, ◌==◌, if◌then◌else◌, List, [], ◌∷◌, ◌++◌, get_or,
  set,
}

abbrev pub index1 : List ℕ
index1 = 0 ∷ 2 ∷ 1 ∷ 3 ∷ 0 ∷ 1 ∷ 0 ∷ 3 ∷ 1 ∷ 0 ∷ 2 ∷ 1 ∷ 0 ∷ 1 ∷ []

abbrev pub index2 : List ℕ
index2 = 1 ∷ 3 ∷ 2 ∷ 4 ∷ 4 ∷ 3 ∷ 2 ∷ 4 ∷ 4 ∷ 3 ∷ 4 ∷ 3 ∷ 3 ∷ 2 ∷ []

-- The array of `left` bits of `x` from bit `i` on.
pub bits : (left i x : ℕ) → List ℕ
bits zero i x = []
bits (suc left) i x = bit_and (x >>> i) 1 ∷ bits left (i + 1) x

pub swap : List ℕ → (i j : ℕ) → List ℕ
swap z_bit i j = set (set z_bit i (get_or z_bit j 0)) j (get_or z_bit i 0)

pub butterfly : (p : List ℕ) (i : ℕ) → List ℕ → List ℕ
unfolding swap
butterfly p i z_bit =
    if get_or p i 0 == 0 then z_bit else swap z_bit (get_or index1 i 0) (get_or index2 i 0)

-- `for (i = left - 1; i >= 0; i--)`
pub butterflies : (left : ℕ) (p : List ℕ) → List ℕ → List ℕ
unfolding butterfly
butterflies zero p z_bit = z_bit
butterflies (suc i) p z_bit = butterflies i p (butterfly p i z_bit)

pub pack : (z_bit : List ℕ) (i output : ℕ) → ℕ
pack [] i output = output
pack (b ∷ bs) i output = pack bs (i + 1) (u8 (output + (b <<< i)))

unfoldable pub perm5 : (z p_high p_low : ℕ) → ℕ
unfolding bits butterflies pack
perm5 z p_high p_low =
    let p = bits 9 0 (bit_and p_low 0x1ff) ++ bits 5 0 (bit_and p_high 0x1f) in
    pack (butterflies 14 p (bits 5 0 (bit_and z 0x1f))) 0 0
