-- ===== src/Firmware/Follow/Link.antt =====
-- What following makes of packets: the parameters of CONNECT_REQ, the channels hopped to, and how
-- a link comes to be connected.
use codetooth.Prelude.{
  ℕ, suc, ◌+◌, ◌*◌, ◌%◌, ◌^◌, ◌<◌, ◌≡◌, refl, sym, ap, ◌∙◌, bit_and, bit_or, true, false, List, [],
  ◌∷◌, ◌++◌, arith, ◌⊎◌, inl, inr, Bool-cases,
}
use codetooth.Prelude.Bits.{and-mask, or_fields, or_low}
use codetooth.Le.State.{LeState, LinkState, listening, conn_pending, connected}
use codetooth.Le.Reversal.{rbit, rbit-24, reverse_bits}
use codetooth.Le.Channel.{channel_index_to_phys, btle_next_hop}
use codetooth.Le.Channel.Laws.{hops, hops_channel}
use codetooth.Firmware.State.{Firmware}
use codetooth.Firmware.Follow.{
  byte, le_word24, le_word32, set_access_address, open_connection, is_connect, follow_by,
  connection_follow_cb,
}

-- The synchronisation word of the radio holds the access address with its bits reversed, the high
-- half in synch and the low half in syncl.
pub set_access_address_words :
    (aa : ℕ) (le : LeState)
    → let le' = set_access_address aa le in
      (le'.access_address ≡ aa) × (le'.synch * 65536 + le'.syncl ≡ rbit aa)
unfolding set_access_address
set_access_address_words aa le = (refl, omega (arith, and-mask 16 (rbit aa)))

module _ (packet : List ℕ) (i : ℕ) where
  -- Bytes of a packet are words in little-endian order.
  pub le_word24_lem :
      byte packet i < 256
      → byte packet (i + 1) < 256
      → le_word24 packet i ≡ byte packet i + 256 * byte packet (i + 1) + 65536 * byte packet (i + 2)
  le_word24_lem h0 h1 =
      ap (λ (t : ℕ). bit_or t (byte packet i)) high
      ∙ or_fields 8 (byte packet (i + 2) * 256 + byte packet (i + 1)) (byte packet i) h0
      ∙ omega arith
    where
      high :
          bit_or (byte packet (i + 2) * 2 ^ 16) (byte packet (i + 1) * 2 ^ 8)
          ≡ (byte packet (i + 2) * 256 + byte packet (i + 1)) * 2 ^ 8
      high =
          or_fields 16 (byte packet (i + 2)) (byte packet (i + 1) * 2 ^ 8) (omega arith)
          ∙ omega arith

  pub le_word32_lem :
      byte packet i < 256
      → byte packet (i + 1) < 256
      → byte packet (i + 2) < 256
      → le_word32 packet i
        ≡ byte packet i
          + 256 * byte packet (i + 1)
          + 65536 * byte packet (i + 2)
          + 16777216 * byte packet (i + 3)
  le_word32_lem h0 h1 h2 =
      ap
        (λ (t : ℕ). bit_or (bit_or t (byte packet (i + 2) * 2 ^ 16)) (byte packet (i + 3) * 2 ^ 24))
        (or_low 8 (byte packet i) (byte packet (i + 1)) h0)
      ∙ ap (λ (t : ℕ). bit_or t (byte packet (i + 3) * 2 ^ 24))
          (or_low 16 (byte packet i + byte packet (i + 1) * 2 ^ 8) (byte packet (i + 2))
            (omega arith))
      ∙ or_low 24 (byte packet i + byte packet (i + 1) * 2 ^ 8 + byte packet (i + 2) * 2 ^ 16)
          (byte packet (i + 3)) (omega arith)
      ∙ omega arith

-- A CONNECT_REQ that is accepted sets the access address and the initial CRC value that its bytes
-- spell, lowest first.
pub open_connection_fields :
    (packet : List ℕ) (le : LeState)
    → ((i : ℕ) → byte packet i < 256)
    → let le' = open_connection packet le in
      (le'.access_address
        ≡ byte packet 18
          + 256 * byte packet 19
          + 65536 * byte packet 20
          + 16777216 * byte packet 21)
      × (le'.crc_init ≡ byte packet 22 + 256 * byte packet 23 + 65536 * byte packet 24)
unfolding open_connection set_access_address
open_connection_fields packet le bytes = (
  le_word32_lem packet 18 (bytes 18) (bytes 19) (bytes 20),
  le_word24_lem packet 22 (bytes 22) (bytes 23),
)

-- The reversed initial CRC value that it sets lies 8 bits too high: btle_crcgen_lut, which keeps
-- the low 24 bits, would start from a value whose low byte is 0.
pub open_connection_reversed :
    (packet : List ℕ) (le : LeState)
    → ((i : ℕ) → byte packet i < 256)
    → (open_connection packet le).crc_init_reversed
      ≡ 256 * reverse_bits 24 (open_connection packet le).crc_init
unfolding open_connection set_access_address
open_connection_reversed packet le bytes =
    rbit-24 (le_word24 packet 22)
      (omega (arith, bytes 22, bytes 23, bytes 24, le_word24_lem packet 22 (bytes 22) (bytes 23)))

-- The n-th hop of a connection that was just opened, counted from 0, tunes to the data channel
-- that the specification gives its n-th event: (n + 1) times the increment, modulo 37.
pub open_connection-hops :
    (packet : List ℕ) (le : LeState) (n : ℕ)
    → (btle_next_hop (hops n (open_connection packet le))).0
      ≡ channel_index_to_phys (suc n * bit_and (byte packet 39) 0x1f % 37)
unfolding open_connection btle_next_hop set_access_address
open_connection-hops packet le n = ap channel_index_to_phys (
    hops_channel n (open_connection packet le) (omega (arith, and-mask 5 (byte packet 39)))
    ∙ ap (λ (t : ℕ). t % 37) {y = suc n * bit_and (byte packet 39) 0x1f} (grind arith))

-- Packets in the order received.
unfoldable pub follow : List (List ℕ) → Firmware → Firmware
follow [] s = s
follow (p ∷ ps) s = follow ps (connection_follow_cb p s)

by_state :
    (p : List ℕ) (s : Firmware) {l : LinkState}
    → s.le.link_state ≡ l
    → connection_follow_cb p s ≡ follow_by l p s
unfolding connection_follow_cb
by_state p s e = ap (λ l. follow_by l p s) e

opened :
    (p : List ℕ) (s : Firmware)
    → is_connect p s.le ≡ true
    → (follow_by listening p s).le.link_state ≡ conn_pending
unfolding follow_by open_connection set_access_address
opened p s w = rw w

ignored : (p : List ℕ) (s : Firmware) → is_connect p s.le ≡ false → follow_by listening p s ≡ s
unfolding follow_by
ignored p s o = rw o

-- To a link that listens, a packet either is a connect packet that its target, if any, takes part
-- in, after which the link waits for the connection's first packet, or it changes nothing.
pub listening_next :
    (p : List ℕ) (s : Firmware)
    → s.le.link_state ≡ listening
    → ((is_connect p s.le ≡ true) × ((connection_follow_cb p s).le.link_state ≡ conn_pending))
      ⊎ (connection_follow_cb p s ≡ s)
listening_next p s e = elim (Bool-cases (is_connect p s.le)) [
  | inl wanted ↦ inl (wanted, ap (λ t. t.le.link_state) (by_state p s e) ∙ opened p s wanted)
  | inr other ↦ inr (by_state p s e ∙ ignored p s other)
]

-- A link that listened and is now connected saw a connect packet that its target, if any, took part
-- in, and at least one more packet after it.
pub connected_after_connect :
    (packets : List (List ℕ)) (s : Firmware)
    → s.le.link_state ≡ listening
    → (follow packets s).le.link_state ≡ connected
    → (before : List (List ℕ)) × (p : List ℕ) × (q : List ℕ) × (after : List (List ℕ)) × (packets
        ≡ before ++ (p ∷ q ∷ after))
      × (is_connect p s.le ≡ true)
unfolding follow
connected_after_connect [] s e h = cc
connected_after_connect (p ∷ ps) s e h = elim (listening_next p s e) [
  | inl (wanted, pending) ↦ two_more ps pending h wanted
  | inr same ↦
      later (connected_after_connect ps s e (sym (ap (λ t. (follow ps t).le.link_state) same) ∙ h))
]
  where
    two_more :
        (rest : List (List ℕ))
        → (connection_follow_cb p s).le.link_state ≡ conn_pending
        → (follow rest (connection_follow_cb p s)).le.link_state ≡ connected
        → is_connect p s.le ≡ true
        → (before : List (List ℕ)) × (p' : List ℕ) × (q : List ℕ) × (after : List (List ℕ)) × (p
              ∷ rest
            ≡ before ++ (p' ∷ q ∷ after))
          × (is_connect p' s.le ≡ true)
    two_more [] pending done wanted = cc
    two_more (q ∷ after) pending done wanted = ([], p, q, after, refl, wanted)

    later :
        (before : List (List ℕ)) × (p' : List ℕ) × (q : List ℕ) × (after : List (List ℕ)) × (ps
            ≡ before ++ (p' ∷ q ∷ after))
          × (is_connect p' s.le ≡ true)
        → (before : List (List ℕ)) × (p' : List ℕ) × (q : List ℕ) × (after : List (List ℕ)) × (p
              ∷ ps
            ≡ before ++ (p' ∷ q ∷ after))
          × (is_connect p' s.le ≡ true)
    later (before, p', q, after, split, wanted) =
        (p ∷ before, p', q, after, ap (◌∷◌ p) split, wanted)
