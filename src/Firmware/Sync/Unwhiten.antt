-- ===== src/Firmware/Sync/Unwhiten.antt =====
-- bt_le_sync takes off the whitening that le_transmit puts on.
use codetooth.Prelude.{
  ℕ, zero, suc, ◌+◌, ◌*◌, ◌/◌, ◌%◌, ◌^◌, ◌<◌, ◌≡◌, refl, ap, ap₂, ◌∙◌, bit_xor, ◌==◌, Bool, true,
  false, ◌&&◌, List, [], ◌∷◌, ◌++◌, get_or, All, length, ltb, ltb→lt, arith,
}
use codetooth.Prelude.Bits.{xor_cancel, xor-lt}
use codetooth.Prelude.Table.{all_below, all_below_sound}
use codetooth.Le.Tables.{whitening_index}
use codetooth.Le.Whitening.Words.{whitening_word}
use codetooth.Le.Reversal.{reversed, reversed-lt, reversed-reversed, rbit, rbit_lem}
use codetooth.Firmware.Promisc.{bytes_of}
use codetooth.Firmware.Transmit.{whiten, whiten_all}
use codetooth.Firmware.Transmit.Whitened.{white, white-lt, whiten_lem}
use codetooth.Firmware.Sync.{be_word, sync_words, words_bytes}
use codetooth.Firmware.Sync.Words.{be_word_lem, reversed_word, xor_parts}

-- A word of the bytes `w0` to `w3`, the first lowest.
abbrev le_sum : (w0 w1 w2 w3 : ℕ) → ℕ
le_sum w0 w1 w2 w3 = ((w3 * 2 ^ 8 + w2) * 2 ^ 8 + w1) * 2 ^ 8 + w0

le_sum-xor :
    (a b c d w0 w1 w2 w3 : ℕ)
    → a < 256
    → b < 256
    → c < 256
    → w0 < 256
    → w1 < 256
    → w2 < 256
    → bit_xor (le_sum a b c d) (le_sum w0 w1 w2 w3)
      ≡ le_sum (bit_xor a w0) (bit_xor b w1) (bit_xor c w2) (bit_xor d w3)
le_sum-xor a b c d w0 w1 w2 w3 ha hb hc h0 h1 h2 =
    xor_parts 8 ((d * 2 ^ 8 + c) * 2 ^ 8 + b) ((w3 * 2 ^ 8 + w2) * 2 ^ 8 + w1) a w0 ha h0
    ∙ ap (λ t. t * 2 ^ 8 + bit_xor a w0)
        (xor_parts 8 (d * 2 ^ 8 + c) (w3 * 2 ^ 8 + w2) b w1 hb h1
          ∙ ap (λ t. t * 2 ^ 8 + bit_xor b w1) (xor_parts 8 d w3 c w2 hc h2))

bytes_of-le_sum :
    (a b c d : ℕ)
    → a < 256
    → b < 256
    → c < 256
    → d < 256
    → bytes_of (le_sum a b c d) ≡ a ∷ b ∷ c ∷ d ∷ []
bytes_of-le_sum a b c d ha hb hc hd =
    let e0 : le_sum a b c d % 256 ≡ a = omega arith in
    let e1 : le_sum a b c d / 256 % 256 ≡ b = omega arith in
    let e2 : le_sum a b c d / 65536 % 256 ≡ c = omega arith in
    let e3 : le_sum a b c d / 16777216 % 256 ≡ d = omega arith in rw (e0, e1, e2, e3) refl

byte_xor-lt : (a b : ℕ) → a < 256 → b < 256 → bit_xor a b < 256
byte_xor-lt a b ha hb = xor-lt 8 a b ha hb

-- One word received.
word_unwhitened :
    (r0 r1 r2 r3 w0 w1 w2 w3 : ℕ)
    → r1 < 256
    → r2 < 256
    → r3 < 256
    → w0 < 256
    → w1 < 256
    → w2 < 256
    → w3 < 256
    → bytes_of (bit_xor (rbit (be_word r0 r1 r2 r3)) (le_sum w0 w1 w2 w3))
      ≡ bit_xor (reversed 8 r0) w0
        ∷ bit_xor (reversed 8 r1) w1
        ∷ bit_xor (reversed 8 r2) w2
        ∷ bit_xor (reversed 8 r3) w3
        ∷ []
word_unwhitened r0 r1 r2 r3 w0 w1 w2 w3 h1 h2 h3 k0 k1 k2 k3 =
    let b0 = reversed-lt 8 r0 in
    let b1 = reversed-lt 8 r1 in
    let b2 = reversed-lt 8 r2 in
    let b3 = reversed-lt 8 r3 in
    let turned : rbit (be_word r0 r1 r2 r3)
        ≡ le_sum (reversed 8 r0) (reversed 8 r1) (reversed 8 r2) (reversed 8 r3) =
      rbit_lem (be_word r0 r1 r2 r3)
      ∙ ap (reversed 32) (be_word_lem r0 r1 r2 r3 h1 h2 h3)
      ∙ reversed_word r0 r1 r2 r3 h1 h2 h3
      ∙ omega arith in
    ap (λ t. bytes_of (bit_xor t (le_sum w0 w1 w2 w3))) turned
    ∙ ap bytes_of (
        le_sum-xor (reversed 8 r0) (reversed 8 r1) (reversed 8 r2) (reversed 8 r3) w0 w1 w2 w3 b0 b1
          b2 k0 k1 k2)
    ∙ bytes_of-le_sum _ _ _ _ (byte_xor-lt _ w0 b0 k0) (byte_xor-lt _ w1 b1 k1)
        (byte_xor-lt _ w2 b2 k2) (byte_xor-lt _ w3 b3 k3)

-- Where the next byte starts in the sequence.
abbrev next : ℕ → ℕ
next idx = (idx + 8) % 127

-- The words of the whitening sequence from `idx` on.
words_white : (n idx : ℕ) → List ℕ
words_white zero idx = []
words_white (suc n) idx =
    le_sum (white 8 idx) (white 8 (next idx)) (white 8 (next (next idx)))
      (white 8 (next (next (next idx))))
    ∷ words_white n (next (next (next (next idx))))

same_words : List ℕ → List ℕ → Bool
same_words [] [] = true
same_words (x ∷ xs) (y ∷ ys) = x == y && same_words xs ys
same_words _ _ = false

same_words_sound : (xs ys : List ℕ) → same_words xs ys ≡ true → xs ≡ ys
unfolding same_words
same_words_sound [] [] e = refl
same_words_sound (x ∷ xs) (y ∷ ys) e = ground (arith, same_words_sound xs ys)
same_words_sound [] (y ∷ ys) e = ground arith
same_words_sound (x ∷ xs) [] e = ground arith

words_table :
    all_below 40
      (λ c. same_words (get_or whitening_word c []) (words_white 12 (get_or whitening_index c 0)))
    ≡ true
unfolding all_below same_words words_white white
words_table = refl

start_table : all_below 40 (λ c. ltb (get_or whitening_index c 0) 127) ≡ true
unfolding all_below
start_table = refl

pub start-lt : (c : ℕ) → c < 40 → get_or whitening_index c 0 < 127
start-lt c h = ltb→lt _ _ (all_below_sound 40 _ c start_table h)

words_of_channel :
    (c : ℕ) → c < 40 → get_or whitening_word c [] ≡ words_white 12 (get_or whitening_index c 0)
words_of_channel c h = same_words_sound _ _ (all_below_sound 40 _ c words_table h)

-- The bytes received from `idx` on, turned round and with the whitening off.
pub unwhiten : (idx : ℕ) → List ℕ → List ℕ
unwhiten idx [] = []
unwhiten idx (r ∷ rs) = bit_xor (reversed 8 r) (white 8 idx) ∷ unwhiten ((idx + 8) % 127) rs

abbrev pub AreBytes : List ℕ → Type 0
AreBytes bytes = All (λ b. b < 256) bytes

sync_words_lem :
    (n idx : ℕ) (rxbuf : List ℕ)
    → idx < 127
    → AreBytes rxbuf
    → length rxbuf ≡ 4 * n
    → words_bytes (sync_words (words_white (suc n) idx) rxbuf) ≡ unwhiten idx rxbuf
unfolding words_bytes sync_words words_white unwhiten
sync_words_lem zero idx [] inside all size = refl
sync_words_lem (suc n) idx (r0 ∷ r1 ∷ r2 ∷ r3 ∷ rxbuf) inside all size =
    ap₂ ◌++◌
      (word_unwhitened r0 r1 r2 r3 (white 8 idx) (white 8 (next idx)) (white 8 (next (next idx)))
        (white 8 (next (next (next idx)))) all.1.0 all.1.1.0 all.1.1.1.0 (white-lt 8 idx inside)
        (white-lt 8 (next idx) (omega arith)) (white-lt 8 (next (next idx)) (omega arith))
        (white-lt 8 (next (next (next idx))) (omega arith)))
      (sync_words_lem n (next (next (next (next idx)))) rxbuf (omega arith) all.1.1.1.1
        (omega arith))
sync_words_lem zero idx (r ∷ rxbuf) inside all size = absurd (omega arith)
sync_words_lem (suc n) idx [] inside all size = absurd (omega arith)
sync_words_lem (suc n) idx (r0 ∷ []) inside all size = absurd (omega arith)
sync_words_lem (suc n) idx (r0 ∷ r1 ∷ []) inside all size = absurd (omega arith)
sync_words_lem (suc n) idx (r0 ∷ r1 ∷ r2 ∷ []) inside all size = absurd (omega arith)

byte_back :
    (idx b : ℕ) → idx < 127 → b < 256 → bit_xor (reversed 8 (whiten 8 0 idx b 0)) (white 8 idx) ≡ b
byte_back idx b inside small =
    ap (λ t. bit_xor (reversed 8 t) (white 8 idx)) (whiten_lem idx b inside)
    ∙ ap (λ t. bit_xor t (white 8 idx))
        (reversed-reversed 8 (bit_xor b (white 8 idx))
          (byte_xor-lt b (white 8 idx) small (white-lt 8 idx inside)))
    ∙ xor_cancel b (white 8 idx)

pub unwhiten-whiten :
    (idx : ℕ) (bytes noise : List ℕ)
    → idx < 127
    → AreBytes bytes
    → unwhiten idx (whiten_all idx bytes ++ noise)
      ≡ bytes ++ unwhiten ((idx + 8 * length bytes) % 127) noise
unfolding unwhiten whiten_all
unwhiten-whiten idx [] noise inside all =
    let e : idx ≡ (idx + 8 * 0) % 127 = omega arith in ap (λ i. unwhiten i noise) e
unwhiten-whiten idx (b ∷ bytes) noise inside all = ap₂ ◌∷◌ (byte_back idx b inside all.0) (
    unwhiten-whiten (next idx) bytes noise (omega arith) all.1
    ∙ ap (λ i. bytes ++ unwhiten i noise) (omega arith))

-- The eleven words of a transfer on the channel of index `c`.
pub received_words :
    (c : ℕ) (rxbuf : List ℕ)
    → c < 40
    → AreBytes rxbuf
    → length rxbuf ≡ 44
    → words_bytes (sync_words (get_or whitening_word c []) rxbuf)
      ≡ unwhiten (get_or whitening_index c 0) rxbuf
received_words c rxbuf low all size =
    ap (λ whit. words_bytes (sync_words whit rxbuf)) (words_of_channel c low)
    ∙ sync_words_lem 11 (get_or whitening_index c 0) rxbuf (start-lt c low) all size
