-- ===== src/Le/Whitening.antt =====
-- The whitening of Low Energy packets: the tables of bluetooth_le.h against the shift register
-- that the Bluetooth specification defines them by.
pub mod Words
use codetooth.Prelude.{
  ℕ, zero, suc, ◌+◌, ◌*◌, ◌/◌, ◌%◌, ◌<◌, ◌≡◌, refl, bit_xor, true, ◌&&◌, ◌==◌, ==_iff, List, [],
  ◌∷◌, get_or, arith, Bool,
}
use codetooth.Prelude.Table.{all_below, all_below_sound}
use codetooth.Le.Tables.{whitening, whitening_index}
use Words.{whitening_word}

-- The register x^7 + x^4 + 1 of the specification (Vol 6, Part B, 3.2), position 6 in the lowest
-- binary digit and position 0, which holds a one at the start, in the highest. The output is
-- position 6; it is fed back into positions 0 and 4.
pub lfsr_next : ℕ → ℕ
lfsr_next reg = bit_xor (reg / 2) (reg % 2 * 0x44)

pub lfsr_seed : (channel_idx : ℕ) → ℕ
lfsr_seed channel_idx = 64 + channel_idx

-- The word of the next `left` output bits, the first of them lowest.
pub lfsr_word : (left place reg : ℕ) → ℕ
unfolding lfsr_next
lfsr_word zero place reg = 0
lfsr_word (suc n) place reg = reg % 2 * place + lfsr_word n (place * 2) (lfsr_next reg)

pub lfsr_skip : (n reg : ℕ) → ℕ
unfolding lfsr_next
lfsr_skip zero reg = reg
lfsr_skip (suc n) reg = lfsr_skip n (lfsr_next reg)

pub word_at : (channel_idx i : ℕ) → ℕ
word_at channel_idx i = get_or (get_or whitening_word channel_idx []) i 0

pub bit_at : (channel_idx i : ℕ) → ℕ
bit_at channel_idx i = get_or whitening ((get_or whitening_index channel_idx 0 + i) % 127) 0

word_table :
    all_below 40
      (λ c. all_below 12 (λ i. word_at c i == lfsr_word 32 1 (lfsr_skip (32 * i) (lfsr_seed c))))
    ≡ true
unfolding all_below word_at lfsr_word lfsr_skip lfsr_seed
word_table = refl

bit_table :
    all_below 40 (λ c. all_below 127 (λ i. bit_at c i == lfsr_skip i (lfsr_seed c) % 2)) ≡ true
unfolding all_below bit_at lfsr_skip lfsr_seed
bit_table = refl

-- Every word of `whitening_word` holds the 32 output bits of the specification's shift register
-- that whiten the same 32 bits of a packet on that channel, the first of them lowest.
pub whitening_word-lfsr :
    (channel_idx i : ℕ)
    → channel_idx < 40
    → i < 12
    → word_at channel_idx i ≡ lfsr_word 32 1 (lfsr_skip (32 * i) (lfsr_seed channel_idx))
whitening_word-lfsr channel_idx i hc hi =
    (==_iff _ _).0 (all_below_sound 12 _ i (all_below_sound 40 _ channel_idx word_table hc) hi)

-- Read from where `whitening_index` says that a channel starts, and round its end, `whitening` is
-- the output of the specification's shift register for that channel.
pub whitening-lfsr :
    (channel_idx i : ℕ)
    → channel_idx < 40
    → i < 127
    → bit_at channel_idx i ≡ lfsr_skip i (lfsr_seed channel_idx) % 2
whitening-lfsr channel_idx i hc hi =
    (==_iff _ _).0 (all_below_sound 127 _ i (all_below_sound 40 _ channel_idx bit_table hc) hi)
