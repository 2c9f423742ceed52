-- ===== src/Firmware/Symbols/Heard.antt =====
-- What cb_le_promisc makes of the symbols: each packet that it finds is an empty data packet, and an
-- empty data packet on the air is found, with the address before it.
use codetooth.Prelude.{
  drop-add, take, ◌++◌, ◌-◌, ℕ, zero, suc, ◌+◌, ◌%◌, ◌≤◌, ◌<◌, ◌≡◌, ◌⊎◌, inl, inr, refl, sym, ap,
  ap₂, ◌∙◌, bit_and, bit_or, bit_xor, ◌<<<◌, ==_iff, true, Bool-cases, List, [], ◌∷◌, get_or, drop,
  length, length-drop, All, arith,
}
use codetooth.Usb.Packet.{Packet, le_packet}
use codetooth.Usb.Queue.Refine.{IsValid, contents}
use codetooth.Firmware.Enqueue.{stamp}
use codetooth.Firmware.Enqueue.Laws.{stale, enqueue-Queued}
use codetooth.Firmware.Promisc.{see_aa}
use codetooth.Firmware.Sync.{be_word}
use codetooth.Prelude.Bits.{xor_cancel}
use codetooth.Le.Tables.{whitening}
use codetooth.Firmware.State.{Firmware}
use codetooth.Firmware.Follow.{byte}
use codetooth.Firmware.Symbols.{gather, gather_white, gather_plain_bytes, gather_white_bytes}
use codetooth.Firmware.Symbols.Empty.{
  desired, whiten_bits, whiten_desired, starts_with, any_match, empty_packet, see_packet, look_at,
}
use codetooth.Firmware.Symbols.Spelled.{spelled, gather_spells}

drop_later {ℓ} : {A : Type ℓ} (n : ℕ) (xs : List A) → drop n (drop 1 xs) ≡ drop (suc n) xs
drop_later zero [] = refl
drop_later (suc n) [] = refl
drop_later zero (x ∷ xs) = refl
drop_later (suc n) (x ∷ xs) = refl

-- Symbols that start with whitened bits.
module _ (idx : ℕ) (symbols : List ℕ) (bit : ℕ) (bits : List ℕ)
    (starts : starts_with symbols (whiten_bits idx (bit ∷ bits)) ≡ true) where
  first_symbol : get_or symbols 0 0 ≡ bit_xor bit (get_or whitening idx 0)
  unfolding starts_with whiten_bits
  first_symbol = (==_iff _ _).0 (ground (arith, starts))

  other_symbols : starts_with (drop 1 symbols) (whiten_bits ((idx + 1) % 127) bits) ≡ true
  unfolding starts_with whiten_bits
  other_symbols = ground (arith, starts)

-- The whitening comes off again.
gather_white-starts :
    (left k idx b : ℕ) (symbols bits : List ℕ)
    → left ≤ length bits
    → starts_with symbols (whiten_bits idx bits) ≡ true
    → gather_white left k idx b symbols ≡ gather left k b bits
unfolding gather_white gather
gather_white-starts zero k idx b symbols bits h starts = refl
gather_white-starts (suc left) k idx b symbols [] h starts = absurd (omega arith)
gather_white-starts (suc left) k idx b symbols (bit ∷ bits) h starts =
    let w = get_or whitening idx 0 in
    let off : bit_xor (get_or symbols 0 0) w ≡ bit =
      ap (λ (t : ℕ). bit_xor t w) (first_symbol idx symbols bit bits starts) ∙ xor_cancel bit w in
    ap
      (λ (t : ℕ). gather_white left (k + 1) ((idx + 1) % 127) (bit_or b (t <<< k)) (drop 1 symbols))
      off
    ∙ gather_white-starts left (k + 1) ((idx + 1) % 127) (bit_or b (bit <<< k)) (drop 1 symbols)
        bits (omega arith) (other_symbols idx symbols bit bits starts)

starts_nil : (idx : ℕ) (symbols : List ℕ) → starts_with symbols (whiten_bits idx []) ≡ true
unfolding starts_with whiten_bits
starts_nil idx symbols = refl

starts_behind :
    (n idx : ℕ) (symbols bits : List ℕ)
    → idx < 127
    → starts_with symbols (whiten_bits idx bits) ≡ true
    → starts_with (drop n symbols) (whiten_bits ((idx + n) % 127) (drop n bits)) ≡ true
starts_behind zero idx symbols bits h starts =
    let same : (idx + 0) % 127 ≡ idx = omega arith in rw same starts
starts_behind (suc n) idx symbols [] h starts =
    starts_nil ((idx + suc n) % 127) (drop (suc n) symbols)
starts_behind (suc n) idx symbols (bit ∷ bits) h starts =
    let later : ((idx + 1) % 127 + n) % 127 ≡ (idx + suc n) % 127 = omega arith in
    ap₂ (λ xs (i : ℕ). starts_with xs (whiten_bits i (drop n bits))) (sym (drop_later n symbols))
      (sym later)
    ∙ starts_behind n ((idx + 1) % 127) (drop 1 symbols) bits (omega arith)
        (other_symbols idx symbols bit bits starts)

-- The header of a packet of Low Energy data without data, whatever its bits NESN and SN.
abbrev pub IsEmptyData : List ℕ → Type 0
IsEmptyData packet = (bit_and (byte packet 4) 0xf3 ≡ 1) × (byte packet 5 ≡ 0)

-- Sixteen bits that spell such a header.
abbrev SpellsEmpty : List ℕ → Type 0
SpellsEmpty bits =
    (length bits ≡ 16) × (bit_and (gather 8 0 0 bits) 0xf3 ≡ 1) × (gather 8 0 0 (drop 8 bits) ≡ 0)

desired-SpellsEmpty : All SpellsEmpty desired
unfolding gather
desired-SpellsEmpty =
    ((refl, refl, refl), ((refl, refl, refl), ((refl, refl, refl), ((refl, refl, refl), tt))))

module _ (idx i : ℕ) (unpacked idle_rxbuf : List ℕ) (inside : idx < 127) where
  -- The two bytes of the header are those of the bits that the symbols start with.
  header :
      (bits : List ℕ)
      → length bits ≡ 16
      → starts_with (drop i unpacked) (whiten_bits idx bits) ≡ true
      → let packet = empty_packet idx i unpacked idle_rxbuf in
        (byte packet 4 ≡ gather 8 0 0 bits) × (byte packet 5 ≡ gather 8 0 0 (drop 8 bits))
  unfolding empty_packet gather_plain_bytes gather_white_bytes
  header bits size starts = (
    gather_white-starts 8 0 idx 0 (drop i unpacked) bits (omega arith) starts,
    gather_white-starts 8 0 ((idx + 8) % 127) 0 (drop 8 (drop i unpacked)) (drop 8 bits)
        (omega (arith, length-drop 8 bits, size))
        (starts_behind 8 idx (drop i unpacked) bits inside starts),
  )

  matched :
      (patterns : List (List ℕ))
      → All SpellsEmpty patterns
      → any_match (drop i unpacked) (whiten_desired idx patterns) ≡ true
      → IsEmptyData (empty_packet idx i unpacked idle_rxbuf)
  unfolding any_match whiten_desired
  matched [] all found = cc found
  matched (bits ∷ others) (good, all) found =
      elim (Bool-cases (starts_with (drop i unpacked) (whiten_bits idx bits))) [
        | inl starts ↦
            let e = header bits good.0 starts in
            (ap (λ (t : ℕ). bit_and t 0xf3) e.0 ∙ good.1, e.1 ∙ good.2)
        | inr no_match ↦ matched others all (ground (arith, found, no_match))
      ]

module _ (idx place : ℕ) (unpacked idle_rxbuf : List ℕ) (inside : idx < 127) where
  abbrev found : List ℕ
  found = empty_packet idx (place + 32) unpacked idle_rxbuf

  word_before :
      All (λ x. x < 2) unpacked
      → take 4 found
        ≡ spelled unpacked place
          ∷ spelled unpacked (place + 8)
          ∷ spelled unpacked (place + 8 + 8)
          ∷ spelled unpacked (place + 8 + 8 + 8)
          ∷ []
  unfolding empty_packet gather_plain_bytes
  word_before all =
      let start : place + 32 - 32 ≡ place = omega arith in
      rw
        (
          start,
          ← drop-add place 8 unpacked,
          ← drop-add (place + 8) 8 unpacked,
          ← drop-add (place + 8 + 8) 8 unpacked,
          gather_spells place unpacked all,
          gather_spells (place + 8) unpacked all,
          gather_spells (place + 8 + 8) unpacked all,
          gather_spells (place + 8 + 8 + 8) unpacked all,
        )
        refl

  -- Where the symbols are zeros and ones, the index into the whitening is below 127 and the ring
  -- of packets has room, in each round the search either changes nothing, or it queues one packet,
  -- whose first four bytes are those that the 32 symbols before this place spell, and whose header
  -- is that of an empty data packet.
  pub look_at-Empty :
      (s : Firmware)
      → All (λ x. x < 2) unpacked
      → IsValid s.queue
      → length (contents s.queue) < 127
      → let r = look_at idx (place + 32) unpacked (idle_rxbuf, s) in
        (r ≡ (idle_rxbuf, s))
        ⊎ ((p : Packet) × (contents r.1.queue ≡ contents s.queue ++ (p ∷ []))
            × (take 4 p.payload
                ≡ spelled unpacked place
                  ∷ spelled unpacked (place + 8)
                  ∷ spelled unpacked (place + 16)
                  ∷ spelled unpacked (place + 24)
                  ∷ [])
            × IsEmptyData p.payload)
  unfolding look_at see_packet stamp empty_packet gather_plain_bytes gather_white_bytes
  look_at-Empty s all valid room =
      elim (Bool-cases (any_match (drop (place + 32) unpacked) (whiten_desired idx desired))) [
        | inl heard ↦
            let aa = be_word (byte found 3) (byte found 2) (byte found 1) (byte found 0) in
            let counted : Firmware = record s {
              promisc = record (s.promisc) { active_aa = see_aa aa s.promisc.active_aa };
            } in
            let q = enqueue-Queued le_packet found counted valid room in
            let third : place + 8 + 8 ≡ place + 16 = omega arith in
            let last : place + 8 + 8 + 8 ≡ place + 24 = omega arith in
            rw heard (
              inr (
                stamp counted le_packet found (stale s.queue),
                q.held,
                word_before all
                    ∙ ap₂
                        (λ (m n : ℕ).
                          spelled unpacked place
                          ∷ spelled unpacked (place + 8)
                          ∷ spelled unpacked m
                          ∷ spelled unpacked n
                          ∷ [])
                        third last,
                matched idx (place + 32) unpacked idle_rxbuf inside desired desired-SpellsEmpty
                    heard,
              ))
        | inr nothing ↦ rw nothing (inl refl)
      ]
