-- ===== src/Firmware/Transmit/Whitened.antt =====
-- What a byte is when le_transmit has whitened it and turned its bits round.
use codetooth.Prelude.{
  List, drop, ℕ, zero, suc, ◌+◌, ◌-◌, ◌*◌, ◌/◌, ◌%◌, ◌^◌, ◌<◌, ◌≡◌, refl, sym, ap, ◌∙◌, bit_and,
  bit_or, bit_xor, true, get_or, arith, ltb, ltb→lt,
}
use codetooth.Prelude.Bits.{and-mask, or_fields, xor-div, xor-mod, xor-lt}
use codetooth.Prelude.Table.{all_below, all_below_sound}
use codetooth.Le.Tables.{whitening}
use codetooth.Le.Reversal.{reversed, reversed-zero, reversed-suc, bit_field-lt, pow_pos}
use codetooth.Firmware.Transmit.{whiten_all, txbuf_of, address_bytes, whitening_start, whiten}
use native.Mathlib.Nat.{pow-suc}

-- The next `left` bits of the whitening sequence from `idx` on, the first lowest.
unfoldable pub white : (left idx : ℕ) → ℕ
white zero idx = 0
white (suc left) idx = get_or whitening idx 0 + 2 * white left ((idx + 1) % 127)

bits_below : all_below 127 (λ i. ltb (get_or whitening i 0) 2) ≡ true
unfolding all_below
bits_below = refl

white_bit : (idx : ℕ) → idx < 127 → get_or whitening idx 0 < 2
white_bit idx h = ltb→lt _ _ (all_below_sound 127 _ idx bits_below h)

pub white-lt : (left idx : ℕ) → idx < 127 → white left idx < 2 ^ left
unfolding white
white-lt zero idx h = omega arith
white-lt (suc left) idx h =
    omega (arith, white_bit idx h, white-lt left ((idx + 1) % 127) (omega arith), pow-suc 2 left)

-- One bit written below the bits of `q`, with `left` places to go.
bit_written :
    (left q bit : ℕ)
    → bit < 2
    → bit_or (q * 2 ^ suc left) (bit * 2 ^ left) ≡ (q * 2 + bit) * 2 ^ left
bit_written left q bit small =
    let fits : bit * 2 ^ left < 2 ^ suc left =
      rw pow-suc (omega (arith, bit_field-lt bit (2 ^ left) 0 small (pow_pos left))) in
    or_fields (suc left) q (bit * 2 ^ left) fits ∙ rw pow-suc (grind arith)

-- The bit joins those that the rest of the loop writes.
bit_joined :
    (left q x : ℕ)
    → (q * 2 + x % 2) * 2 ^ left + reversed left (x / 2) ≡ q * 2 ^ suc left + reversed (suc left) x
bit_joined left q x = rw (reversed-suc, pow-suc) (grind arith)

xor_bit : (a b : ℕ) → a < 2 → b < 2 → bit_xor a b ≡ (a + b) % 2
xor_bit a b ha hb = omega (arith, xor-mod a b, xor-lt 1 a b ha hb)

module _ (left idx byte : ℕ) (inside : idx < 127) where
  low : bit_xor (bit_and byte 1) (get_or whitening idx 0) ≡ bit_xor byte (white (suc left) idx) % 2
  unfolding white
  low =
      ap (λ b. bit_xor b (get_or whitening idx 0)) (and-mask 1 byte)
      ∙ xor_bit (byte % 2) (get_or whitening idx 0) (omega arith) (white_bit idx inside)
      ∙ omega (arith, xor-mod byte (white (suc left) idx), white_bit idx inside)

  high : bit_xor byte (white (suc left) idx) / 2 ≡ bit_xor (byte / 2) (white left ((idx + 1) % 127))
  unfolding white
  high =
      xor-div byte (white (suc left) idx)
      ∙ ap (bit_xor (byte / 2)) (omega (arith, white_bit idx inside))

whiten_loop :
    (left j idx byte q : ℕ)
    → j + left ≡ 8
    → idx < 127
    → whiten left j idx byte (q * 2 ^ left)
      ≡ q * 2 ^ left + reversed left (bit_xor byte (white left idx))
unfolding whiten
whiten_loop zero j idx byte q h inside =
    omega (arith, reversed-zero (bit_xor byte (white zero idx)))
whiten_loop (suc left) j idx byte q h inside =
    let x = bit_xor byte (white (suc left) idx) in
    let place : 7 - j ≡ left = omega arith in
    let bit : bit_xor (bit_and byte 1) (get_or whitening idx 0) ≡ x % 2 =
      low left idx byte inside in
    let written : bit_or (q * 2 ^ suc left)
          (bit_xor (bit_and byte 1) (get_or whitening idx 0) * 2 ^ (7 - j))
        ≡ (q * 2 + x % 2) * 2 ^ left =
      rw (place, bit) (bit_written left q (x % 2) (omega arith)) in
    ap (whiten left (j + 1) ((idx + 1) % 127) (byte / 2)) written
    ∙ whiten_loop left (j + 1) ((idx + 1) % 127) (byte / 2) (q * 2 + x % 2) (omega arith)
        (omega arith)
    ∙ ap (λ t. (q * 2 + x % 2) * 2 ^ left + reversed left t) (sym (high left idx byte inside))
    ∙ bit_joined left q x

-- A byte whitened from `idx` on is the byte, with eight bits of the sequence added, turned round.
pub whiten_lem :
    (idx byte : ℕ) → idx < 127 → whiten 8 0 idx byte 0 ≡ reversed 8 (bit_xor byte (white 8 idx))
whiten_lem idx byte inside = whiten_loop 8 0 idx byte 0 refl inside ∙ omega arith

-- Behind the address stands the data, whitened.
pub drop-txbuf_of :
    (aa channel : ℕ) (bytes : List ℕ)
    → drop 4 (txbuf_of aa channel bytes) ≡ whiten_all (whitening_start channel) bytes
unfolding txbuf_of address_bytes
drop-txbuf_of aa channel bytes = refl
