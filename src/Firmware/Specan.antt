-- ===== src/Firmware/Specan.antt =====
-- specan: the signal strengths of a band, three bytes for each, sixteen to a packet; and led_specan at
-- the end. The radio's reading is an argument; the handle_usb that follows each packet is that of
-- Usb/Send.
use codetooth.Prelude.Int.{ℤ, ltb_ℤ, signed}
use codetooth.Prelude.{
  Bool, Option, none, some, ◌%◌, ℕ, ◌+◌, ◌*◌, u8, u16, bit_and, ◌>>>◌, ◌==◌, if◌then◌else◌, List,
  [], ◌∷◌, set,
}
use codetooth.Usb.Packet.{specan}
use codetooth.Firmware.State.{Firmware}
use codetooth.Firmware.Enqueue.{enqueue}

-- `i` and `buf` of specan, which last from one sweep of the band to the next.
pub record Scan : Type 0 where
  pub fw : Firmware
  pub i : ℕ
  pub buf : List ℕ

-- The three bytes for the frequency `f`. `reading` is the register RSSI.
unfoldable pub write_level : (i f reading : ℕ) → List ℕ → List ℕ
write_level i f reading buf =
    let first = set buf (3 * i) (bit_and (f >>> 8) 0xff) in
    let second = set first (3 * i + 1) (bit_and f 0xff) in
    set second (3 * i + 2) (u8 (reading >>> 8))

unfoldable pub note_level : (f reading : ℕ) → Scan → Scan
unfolding write_level
note_level f reading s =
    let written = record s { i = u8 (s.i + 1); buf = write_level s.i f reading s.buf } in
    if written.i == 16
    then record written { i = 0; fw = (enqueue specan written.buf s.fw).1 }
    else written

-- The frequencies that the loops pass, each with its reading.
unfoldable pub note_levels : List (ℕ × ℕ) → Scan → Scan
unfolding note_level
note_levels [] s = s
note_levels ((f, reading) ∷ levels) s = note_levels levels (note_level f reading s)

-- The inner loop, from the frequency `f` on; a reading for each.
unfoldable pub passed : (f : ℕ) → (readings : List ℕ) → List (ℕ × ℕ)
passed f [] = []
passed f (reading ∷ readings) = (f, reading) ∷ passed (u16 (f + 1)) readings

unfoldable pub scan_band : (f : ℕ) → (readings : List ℕ) → Scan → Scan
unfolding note_levels passed
scan_band f readings s = note_levels (passed f readings) s

-- A round of led_specan: the LED that it sets or clears, and the next of its three channels.
pub data Led : Type 0 where
  txled rxled usrled : Led

unfoldable pub led_of : (i : ℕ) → Option Led
led_of i =
    if i == 0
    then some txled
    else if i == 1
    then some rxled
    else if i == 2
    then some usrled
    else none

-- `(int8_t)(reading >> 8)`
abbrev pub level_read : (reading : ℕ) → ℤ
level_read reading = signed 256 (reading >>> 8)

unfoldable pub led_round : (rssi_threshold : ℤ) (reading i : ℕ) → (Option Led × Bool) × ℕ
unfolding led_of
led_round rssi_threshold reading i =
    ((led_of i, ltb_ℤ rssi_threshold (level_read reading)), (i + 1) % 3)
