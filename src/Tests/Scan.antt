-- ===== src/Tests/Scan.antt =====
-- A piece of the band, scanned and printed, and a hop with the squelch.
use codetooth.Prelude.{ℕ, refl, false, Bool, true, List, [], ◌∷◌, replicate, All, arith}
use codetooth.Prelude.Int.{pos}
use codetooth.Usb.Packet.{Packet}
use codetooth.Usb.Queue.{blank}
use codetooth.Usb.Queue.Refine.{length-contents}
use codetooth.Firmware.Specan.{Scan}
use codetooth.Host.RingBuffer.{RingBuffer, ringbuffer_add}
use codetooth.Host.RingBuffer.Laws.{IsRing}
use codetooth.Host.Specan.{cb_specan}
use codetooth.Host.Specan.Carried.{IsFrequency, Shown, note_levels-cb_specan}
use codetooth.Firmware.State.{Firmware, hop_sweep}
use codetooth.Firmware.Squelch.{Squelch}
use codetooth.Tests.Ring.{idle_ring, idle_ring-IsValid}
use codetooth.Tests.Receive.{device}

abbrev levels : List (ℕ × ℕ)
levels =
    (2402, 0xc400)
    ∷ (2403, 0xc500)
    ∷ (2404, 0xc600)
    ∷ (2405, 0xc700)
    ∷ (2406, 0xc800)
    ∷ (2407, 0xc900)
    ∷ (2408, 0xca00)
    ∷ (2409, 0xcb00)
    ∷ (2410, 0xcc00)
    ∷ (2411, 0xcd00)
    ∷ (2412, 0xce00)
    ∷ (2413, 0xcf00)
    ∷ (2414, 0xd000)
    ∷ (2415, 0xd100)
    ∷ (2416, 0xd200)
    ∷ (2417, 0xd300)
    ∷ []

levels-All : All IsFrequency levels
levels-All = ground arith

abbrev scan : Scan
scan = record { fw = device; i = 0; buf = replicate 50 0 }

abbrev packets : RingBuffer
packets = record { current_bank = 9; usb = replicate 10 blank; bt = replicate 10 [] }

packets-IsRing : IsRing packets
packets-IsRing = record { range = omega arith; usb_banks = refl; bt_banks = refl }

abbrev takes : ℕ → Bool
takes j = true

-- The standard output, for a band that ends at 2480 MHz.
abbrev args : List ℕ
args = 0xb0 ∷ 0x09 ∷ 0 ∷ []

note_levels-cb_specan_example :
    (p : Packet) × Shown levels scan (λ p. cb_specan takes args (ringbuffer_add packets p)) p
note_levels-cb_specan_example =
    note_levels-cb_specan levels scan packets takes args refl levels-All refl refl idle_ring-IsValid
      (omega (arith, length-contents idle_ring)) packets-IsRing refl

-- A hop of the sweeping mode, with a request for 5 above the average.
abbrev tunes : Firmware
tunes = record device { radio = record (device.radio) { hop_mode = hop_sweep } }

abbrev tuned : Firmware
tuned = record tunes {
  radio = record (tunes.radio) {
    do_hop = false;
    last_hop = 2304;
    channel = 2434;
    dma_discard = true;
  };
}

abbrev above_average : Squelch
above_average = record {
  cs_threshold_req = pos 5;
  cs_threshold_cur = pos 0;
  cs_no_squelch = false;
  rssi_register = 0;
}
