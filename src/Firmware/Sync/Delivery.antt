-- ===== src/Firmware/Sync/Delivery.antt =====
-- A packet that le_transmit sends with its CRC passes the checks of bt_le_sync.
use codetooth.Prelude.{
  ℕ, zero, suc, ◌+◌, ◌*◌, ◌%◌, ◌<◌, ◌≡◌, bit_xor, refl, ap, ap₂, ◌∙◌, List, [], ◌∷◌, ◌++◌, get_or,
  take, drop, length, length-append, arith,
}
use codetooth.Le.Tables.{whitening_index}
use codetooth.Le.Whitening.Words.{whitening_word}
use codetooth.Le.Channel.{channel_index, channel_index_to_phys}
use codetooth.Le.Reversal.{reversed-lt}
use codetooth.Firmware.Promisc.{bytes_of}
use codetooth.Firmware.Transmit.{index_of, whiten_all, txbuf_of}
use codetooth.Firmware.Transmit.Whitened.{white, whiten_lem, drop-txbuf_of}
use codetooth.Firmware.Sync.{sync_packet, sync_words, words_bytes}
use codetooth.Firmware.Sync.Unwhiten.{AreBytes, unwhiten, unwhiten-whiten, start-lt, received_words}

length-whiten_all : (idx : ℕ) (bytes : List ℕ) → length (whiten_all idx bytes) ≡ length bytes
unfolding whiten_all
length-whiten_all idx [] = refl
length-whiten_all idx (b ∷ bytes) = ap suc (length-whiten_all ((idx + 8) % 127) bytes)

whiten_all-AreBytes : (idx : ℕ) (bytes : List ℕ) → idx < 127 → AreBytes (whiten_all idx bytes)
unfolding whiten_all
whiten_all-AreBytes idx [] inside = tt
whiten_all-AreBytes idx (b ∷ bytes) inside = (
  omega (arith, whiten_lem idx b inside, reversed-lt 8 (bit_xor b (white 8 idx))),
  whiten_all-AreBytes ((idx + 8) % 127) bytes (omega arith),
)

pub append-AreBytes : (xs ys : List ℕ) → AreBytes xs → AreBytes ys → AreBytes (xs ++ ys)
append-AreBytes [] ys hx hy = hy
append-AreBytes (x ∷ xs) ys hx hy = (hx.0, append-AreBytes xs ys hx.1 hy)

pub append_assoc : (xs ys zs : List ℕ) → (xs ++ ys) ++ zs ≡ xs ++ (ys ++ zs)
append_assoc [] ys zs = refl
append_assoc (x ∷ xs) ys zs = ap (λ t. x ∷ t) (append_assoc xs ys zs)

take_whole : (n : ℕ) (xs : List ℕ) → length xs ≡ n → take n xs ≡ xs
take_whole zero [] e = refl
take_whole zero (x ∷ xs) e = absurd (omega arith)
take_whole (suc n) [] e = refl
take_whole (suc n) (x ∷ xs) e = ap (λ t. x ∷ t) (take_whole n xs (omega arith))

index_of-phys : (idx : ℕ) → idx < 40 → index_of (channel_index_to_phys idx) ≡ idx
unfolding channel_index channel_index_to_phys
index_of-phys idx low = ground arith

-- What le_transmit sends on a Low Energy channel, followed by whatever the radio hears until the 44
-- bytes of the transfer are full, comes out of bt_le_sync, tuned to the same channel, as the access
-- address and the data that were handed to le_transmit. The radio itself takes the first four bytes
-- sent, the address.
pub sync_packet-txbuf :
    (idx aa aa' : ℕ) (bytes noise stack : List ℕ)
    → idx < 40
    → AreBytes bytes
    → AreBytes noise
    → length bytes + length noise ≡ 44
    → let channel = channel_index_to_phys idx in
      (tail : List ℕ) × (sync_packet aa channel (drop 4 (txbuf_of aa' channel bytes) ++ noise) stack
        ≡ bytes_of aa ++ (bytes ++ tail))
unfolding sync_packet
sync_packet-txbuf idx aa aa' bytes noise stack low all hears full =
    let start = get_or whitening_index idx 0 in
    let inside = start-lt idx low in
    let rxbuf = whiten_all start bytes ++ noise in
    let size : length rxbuf ≡ 44 =
      length-append (whiten_all start bytes) noise ∙ omega (arith, length-whiten_all start bytes) in
    let are =
      append-AreBytes (whiten_all start bytes) noise (whiten_all-AreBytes start bytes inside)
        hears in
    let tail = unwhiten ((start + 8 * length bytes) % 127) noise in
    let at = index_of-phys idx low in
    (
      tail ++ stack,
      ap₂
            (λ sent c.
              bytes_of aa
              ++ (words_bytes (sync_words (get_or whitening_word c []) (take 44 (sent ++ noise)))
                  ++ stack))
            (drop-txbuf_of aa' (channel_index_to_phys idx) bytes
              ∙ ap (λ c. whiten_all (get_or whitening_index c 0) bytes) at)
            at
          ∙ ap
              (λ buf.
                bytes_of aa
                ++ (words_bytes (sync_words (get_or whitening_word idx []) buf) ++ stack))
              (take_whole 44 rxbuf size)
          ∙ ap (λ out. bytes_of aa ++ (out ++ stack))
              (received_words idx rxbuf low are size ∙ unwhiten-whiten start bytes noise inside all)
          ∙ ap (λ out. bytes_of aa ++ out) (append_assoc bytes tail stack),
    )
