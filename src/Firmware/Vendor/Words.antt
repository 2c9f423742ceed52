-- ===== src/Firmware/Vendor/Words.antt =====
-- Words that were split into bytes and are put together again.
use native.Mathlib.Nat.{
  div-add-mod, mod-lt, mul-add-mod_self_left, mod-eq_of_lt, mul-add, mul_left_comm, mul_assoc,
  mul_comm, mul-le-mul_left, mod-one,
}
use codetooth.Le.Reversal.{pow_pos}
use codetooth.Firmware.Sync.Words.{pow-add}
use codetooth.Prelude.{
  ℕ, ◌*◌, ◌/◌, ◌%◌, ◌^◌, ◌<◌, ◌≤◌, zero, suc, bit_or, ◌<<<◌, ◌≡◌, sym, ap, ◌+◌, ◌∙◌, bit_and, ◌>>>◌,
  List, get_or, ◌++◌, arith,
}
use codetooth.Prelude.Bits.{and-mask, or_low}
use codetooth.Firmware.Follow.{le_word32, byte}
use codetooth.Firmware.Follow.Link.{le_word32_lem}
use codetooth.Firmware.Vendor.Control.{Exchange, datum, split_bytes, join_bytes}

-- Byte number i of a word.
abbrev pub byte_of : (w i : ℕ) → ℕ
byte_of w i = w / 2 ^ (8 * i) % 256

pub byte_of_lem : (w i : ℕ) → bit_and (w >>> (8 * i)) 0xff ≡ byte_of w i
byte_of_lem w i = and-mask 8 (w >>> (8 * i))

-- The four bytes of a word of 32 bits, put together.
pub le_word32-split_bytes :
    (w : ℕ) (rest : List ℕ) → w < 2 ^ 32 → le_word32 (split_bytes 4 0 w ++ rest) 0 ≡ w
unfolding split_bytes
le_word32-split_bytes w rest h =
    let packet = split_bytes 4 0 w ++ rest in
    let e0 : byte packet 0 ≡ w % 256 = byte_of_lem w 0 ∙ omega arith in
    let e1 : byte packet 1 ≡ w / 256 % 256 = byte_of_lem w 1 in
    let e2 : byte packet 2 ≡ w / 65536 % 256 = byte_of_lem w 2 in
    let e3 : byte packet 3 ≡ w / 16777216 % 256 = byte_of_lem w 3 in
    le_word32_lem packet 0 (omega arith) (omega arith) (omega arith) ∙ omega arith

-- The low bytes of a word and the byte above them, put together.
low_part : (w m : ℕ) → 0 < m → w % m + w / m % 256 * m ≡ w % (256 * m)
low_part w m h =
    let q = w / m in
    let c = m * (q % 256) + w % m in
    let small : m * (q % 256) ≤ m * 255 = mul-le-mul_left m (omega arith) in
    let rest : w % m < m = mod-lt w h in
    let a = q / 256 in
    let parts : w ≡ 256 * m * a + c =
      sym (div-add-mod w m)
      ∙ ap (λ (t : ℕ). m * t + w % m) (sym (div-add-mod q 256))
      ∙ omega (arith, mul-add m (256 * a) (q % 256), mul_left_comm m 256 a, mul_assoc 256 m a) in
    let kept : w % (256 * m) ≡ c =
      ap (λ (t : ℕ). t % (256 * m)) parts
      ∙ mul-add-mod_self_left (256 * m) a c
      ∙ mod-eq_of_lt (omega arith) in
    omega (arith, kept, mul_comm m (q % 256))

pow_byte : (i : ℕ) → 2 ^ (8 * (i + 1)) ≡ 256 * 2 ^ (8 * i)
pow_byte i =
    ap (λ (t : ℕ). 2 ^ t) (let e : 8 * (i + 1) ≡ 8 + 8 * i = omega arith in e) ∙ pow-add 8 (8 * i)

-- The loop that puts bytes number i and on of a word behind those below.
join_from :
    (w start : ℕ) (x : Exchange)
    → (n i : ℕ) → ((j : ℕ) → j < i + n → datum x (j + start) ≡ byte_of w j)
    → join_bytes n i start (w % 2 ^ (8 * i)) x ≡ w % 2 ^ (8 * (i + n))
unfolding join_bytes
join_from w start x zero i bytes = ap (λ (t : ℕ). w % 2 ^ (8 * t)) (omega arith)
join_from w start x (suc n) i bytes =
    let here : bit_or (w % 2 ^ (8 * i)) (datum x (i + start) <<< (8 * i)) ≡ w % 2 ^ (8 * (i + 1)) =
      ap (λ (t : ℕ). bit_or (w % 2 ^ (8 * i)) (t <<< (8 * i))) (bytes i (omega arith))
      ∙ or_low (8 * i) (w % 2 ^ (8 * i)) (byte_of w i) (mod-lt w (pow_pos (8 * i)))
      ∙ low_part w (2 ^ (8 * i)) (pow_pos (8 * i))
      ∙ ap (λ (t : ℕ). w % t) (sym (pow_byte i)) in
    ap (λ (t : ℕ). join_bytes n (i + 1) start t x) here
    ∙ join_from w start x n (i + 1) (λ j below. bytes j (omega arith))
    ∙ ap (λ (t : ℕ). w % 2 ^ (8 * t)) (omega arith)

-- Eight bytes that a word of 64 bits was split into, put together.
pub join_bytes-split :
    (w start : ℕ) (x : Exchange)
    → w < 2 ^ 64
    → ((j : ℕ) → j < 8 → datum x (j + start) ≡ byte_of w j)
    → join_bytes 8 0 start 0 x ≡ w
join_bytes-split w start x h bytes =
    ap (λ (t : ℕ). join_bytes 8 0 start t x) (sym (mod-one w))
    ∙ join_from w start x 8 0 bytes
    ∙ mod-eq_of_lt h

-- A byte of a word that was split, and the bytes behind it.
pub get_or-split_bytes :
    (w : ℕ) (rest : List ℕ)
    → (n i j : ℕ) → j < n
    → get_or (split_bytes n i w ++ rest) j 0 ≡ byte_of w (j + i)
unfolding split_bytes
get_or-split_bytes w rest zero i j below = absurd (omega arith)
get_or-split_bytes w rest (suc n) i zero below =
    byte_of_lem w i ∙ ap (byte_of w) (let e : i ≡ 0 + i = omega arith in e)
get_or-split_bytes w rest (suc n) i (suc j) below =
    get_or-split_bytes w rest n (i + 1) j (omega arith)
    ∙ ap (byte_of w) (let e : j + (i + 1) ≡ suc j + i = omega arith in e)

pub get_or-behind_split :
    (w : ℕ) (rest : List ℕ) (j : ℕ)
    → (n i : ℕ) → get_or (split_bytes n i w ++ rest) (j + n) 0 ≡ get_or rest j 0
unfolding split_bytes
get_or-behind_split w rest j zero i =
    ap (λ k. get_or rest k 0) (let e : j + 0 ≡ j = omega arith in e)
get_or-behind_split w rest j (suc n) i =
    ap (λ k. get_or (split_bytes (suc n) i w ++ rest) k 0)
      (let e : j + suc n ≡ suc (j + n) = omega arith in e)
    ∙ get_or-behind_split w rest j n (i + 1)
