-- ===== src/Firmware/Sync/Accepted.antt =====
-- A packet with the CRC that btle_calc_crc gives passes the checks of bt_le_sync.
use codetooth.Prelude.{
  ℕ, suc, ◌+◌, ◌/◌, ◌%◌, ◌<◌, ◌≤◌, ◌≡◌, refl, sym, ap, ◌∙◌, bit_and, ◌>>>◌, ==_iff, ltb, Bool, true,
  false, not, ◌&&◌, ◌||◌, if◌then◌else◌, List, ◌∷◌, ◌++◌, get_or, take, drop, length, length-append,
  get_or-append, take-append, arith,
}
use codetooth.Prelude.Bits.{and-mask}
use codetooth.Le.State.{LeState}
use codetooth.Le.Channel.{channel_index_to_phys}
use codetooth.Le.Crc.{calc_crc, crcgen_lut}
use codetooth.Le.Crc.ByTable.{crcgen_lut-eq-calc_crc, calc_crc-lt}
use codetooth.Firmware.State.{Firmware}
use codetooth.Firmware.Follow.{byte, le_word24}
use codetooth.Firmware.Follow.Link.{le_word24_lem}
use codetooth.Firmware.Promisc.{bytes_of}
use codetooth.Firmware.Transmit.{crc_bytes, txbuf_of}
use codetooth.Firmware.Sync.{sync_packet, packet_len, crc_matches, deliver, on_packet}
use codetooth.Firmware.Sync.Unwhiten.{AreBytes}
use codetooth.Firmware.Sync.Delivery.{append_assoc, append-AreBytes, sync_packet-txbuf}

-- A packet as bt_le_sync has it: the address, the header, the length byte, the data, a CRC, and what
-- follows.
abbrev pub framed : (aa header size : ℕ) (payload : List ℕ) (crc : ℕ) (tail : List ℕ) → List ℕ
framed aa header size payload crc tail =
    bytes_of aa ++ (header ∷ size ∷ (payload ++ (crc_bytes crc ++ tail)))

module _ (aa header size : ℕ) (payload tail : List ℕ) (crc : ℕ)
    (sized : length payload ≡ bit_and size 0x3f) where
  framed_len : packet_len (framed aa header size payload crc tail) ≡ suc (suc (length payload))
  framed_len = omega arith

  framed_pdu :
      take
        (packet_len (framed aa header size payload crc tail))
        (drop 4 (framed aa header size payload crc tail))
      ≡ header ∷ size ∷ payload
  framed_pdu =
      ap (λ n. take n (header ∷ size ∷ (payload ++ (crc_bytes crc ++ tail)))) framed_len
      ∙ ap (λ t. header ∷ size ∷ t)
          (take-append payload (crc_bytes crc ++ tail) (length payload) refl)

  crc_byte :
      (i : ℕ)
      → byte
          (framed aa header size payload crc tail)
          (4 + packet_len (framed aa header size payload crc tail) + i)
        ≡ get_or (crc_bytes crc ++ tail) i 0
  crc_byte i =
      get_or-append (bytes_of aa ++ (header ∷ size ∷ payload)) (crc_bytes crc ++ tail) i
        (4 + packet_len (framed aa header size payload crc tail)) 0 (omega arith)

  framed_crc :
      crc < 16777216
      → le_word24
          (framed aa header size payload crc tail)
          (4 + packet_len (framed aa header size payload crc tail))
        ≡ crc
  framed_crc small =
      let p = framed aa header size payload crc tail in
      let at = 4 + packet_len p in
      let b0 : byte p at ≡ crc % 256 =
        ap (byte p) (omega arith) ∙ crc_byte 0 ∙ and-mask 8 (crc >>> 0) ∙ omega arith in
      let b1 : byte p (at + 1) ≡ crc / 256 % 256 = crc_byte 1 ∙ and-mask 8 (crc >>> 8) in
      let b2 : byte p (at + 2) ≡ crc / 65536 % 256 = crc_byte 2 ∙ and-mask 8 (crc >>> 16) in
      le_word24_lem p at (omega (arith, b0)) (omega (arith, b1)) ∙ omega (arith, b0, b1, b2)

-- With the CRC of its header, length and data from the link's initial value, a packet whose length
-- byte gives the number of bytes of data matches.
framed_matches :
    (aa header size : ℕ) (payload tail : List ℕ) (le : LeState)
    → length payload ≡ bit_and size 0x3f
    → AreBytes (header ∷ size ∷ payload)
    → crc_matches le (
        framed aa header size payload
          (calc_crc le.crc_init_reversed (header ∷ size ∷ payload))
          tail)
      ≡ true
unfolding crc_matches
framed_matches aa header size payload tail le sized bytes =
    let crc = calc_crc le.crc_init_reversed (header ∷ size ∷ payload) in
    let pdu = framed_pdu aa header size payload tail crc sized in
    let wire =
      framed_crc aa header size payload tail crc sized
        (calc_crc-lt le.crc_init_reversed (header ∷ size ∷ payload)) in
    (==_iff _ _).1 (
      ap (crcgen_lut le.crc_init_reversed) pdu
      ∙ crcgen_lut-eq-calc_crc le.crc_init_reversed (header ∷ size ∷ payload) bytes
      ∙ sym wire)

passes :
    {A : Type 0} (x y : A) (long verify matches : Bool)
    → long ≡ false
    → matches ≡ true
    → (if long || (verify && not matches) then x else y) ≡ y
passes x y long verify matches e m = ground arith

-- A packet with at most 37 bytes of data, as its length byte says, and the CRC of its header, length
-- and data from the link's initial value is delivered, whether the link verifies CRCs or not.
pub framed_delivered :
    (aa header size : ℕ) (payload tail : List ℕ) (s : Firmware)
    → length payload ≡ bit_and size 0x3f
    → length payload ≤ 37
    → AreBytes (header ∷ size ∷ payload)
    → let packet =
        framed aa header size payload
          (calc_crc s.le.crc_init_reversed (header ∷ size ∷ payload))
          tail in
      on_packet packet s ≡ deliver packet s
unfolding on_packet
framed_delivered aa header size payload tail s sized short bytes =
    let m = framed_matches aa header size payload tail s.le sized bytes in
    passes s _ (ltb 39 (bit_and size 0x3f + 2)) s.le.crc_verify _ (ground arith) m

-- The packet that le_transmit is handed: header, length, data and CRC.
abbrev pub with_crc : (init header size : ℕ) (payload : List ℕ) → List ℕ
with_crc init header size payload =
    header ∷ size ∷ (payload ++ crc_bytes (calc_crc init (header ∷ size ∷ payload)))

low_byte : (n : ℕ) → bit_and n 255 < 256
low_byte n = omega (arith, and-mask 8 n)

crc_bytes-AreBytes : (crc : ℕ) → AreBytes (crc_bytes crc)
crc_bytes-AreBytes crc = (low_byte (crc >>> 0), (low_byte (crc >>> 8), (low_byte (crc >>> 16), tt)))

-- A packet of at most 37 bytes of data, with the CRC from the initial value that the receiver has,
-- sent by le_transmit on a Low Energy channel and received by bt_le_sync tuned to the same channel
-- (44 bytes in all, whatever follows the packet), is delivered with the address of the receiver's
-- link and the bytes sent in front.
pub transmitted_delivered :
    (idx aa header size : ℕ) (payload noise stack : List ℕ) (s : Firmware)
    → idx < 40
    → length payload ≡ bit_and size 0x3f
    → length payload ≤ 37
    → AreBytes (header ∷ size ∷ payload)
    → AreBytes noise
    → length payload + 5 + length noise ≡ 44
    → let channel = channel_index_to_phys idx in
      let sent = with_crc s.le.crc_init_reversed header size payload in
      let packet =
        sync_packet s.le.access_address channel
          (drop 4 (txbuf_of aa channel sent) ++ noise)
          stack in
      (tail : List ℕ) × (packet ≡ bytes_of s.le.access_address ++ (sent ++ tail))
      × (on_packet packet s ≡ deliver packet s)
transmitted_delivered idx aa header size payload noise stack s low sized short bytes hears full =
    let crc = calc_crc s.le.crc_init_reversed (header ∷ size ∷ payload) in
    let sent = with_crc s.le.crc_init_reversed header size payload in
    let (tail, e) =
      sync_packet-txbuf idx s.le.access_address aa sent noise stack low
        (append-AreBytes (header ∷ size ∷ payload) (crc_bytes crc) bytes (crc_bytes-AreBytes crc))
        hears (omega (arith, length-append payload (crc_bytes crc))) in
    let f =
      e
      ∙ ap (λ t. bytes_of s.le.access_address ++ (header ∷ size ∷ t))
          (append_assoc payload (crc_bytes crc) tail) in
    (
      tail,
      e,
      ap (λ p. on_packet p s) f
          ∙ framed_delivered s.le.access_address header size payload tail s sized short bytes
          ∙ ap (λ p. deliver p s) (sym f),
    )
