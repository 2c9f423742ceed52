-- ===== src/Firmware/Enqueue.antt =====
-- enqueue and enqueue_with_ts: a packet with its time, channel and signal strength into the ring.
pub mod Laws
use codetooth.Prelude.{
  ℕ, ◌+◌, ◌-◌, u8, bit_and, bit_or, ◌>>>◌, if◌then◌else◌, Bool, true, false, Option, none, some,
  List, get_or, take,
}
use codetooth.Prelude.Int.{pos, ◌+ℤ◌, quotient, wrap}
use codetooth.Usb.Packet.{Packet, PacketType, type_code, specan}
use codetooth.Usb.Queue.{Queue, blank, usb_enqueue, write_slot}
use codetooth.Firmware.State.{Firmware, Rssi, is_hop_none, clk100ns_of}

abbrev pub fifo_overflow : ℕ
fifo_overflow = 0x04

-- `(int8_t)((rssi_iir[i] + 128) / 256)`, as the byte stored.
abbrev pub iir_byte : Rssi → ℕ → ℕ
iir_byte r i = wrap 256 (quotient (get_or r.rssi_iir i (pos 0) +ℤ pos 128) 256)

abbrev pub is_specan : PacketType → Bool
is_specan specan = true
is_specan _ = false

-- The fields that enqueue writes into a slot. Those that it leaves alone keep what the slot held.
unfoldable pub stamp : Firmware → PacketType → List ℕ → Packet → Packet
stamp s type buf old =
    if is_specan type
    then record old {
      pkt_type = type_code type;
      clkn_high = bit_and (s.clock.clkn >>> 20) 0xff;
      clk100ns = clk100ns_of s.clock;
      payload = take 50 buf;
      status = s.status;
    }
    else record {
      pkt_type = type_code type;
      status = s.status;
      channel = u8 (s.idle_buf.channel + 65536 - 2402);
      clkn_high = s.idle_buf.clkn_high;
      clk100ns = s.idle_buf.clk100ns;
      rssi_max = wrap 256 s.rssi.rssi_max;
      rssi_min = wrap 256 s.rssi.rssi_min;
      rssi_avg =
          (if is_hop_none s.radio.hop_mode
            then iir_byte s.rssi 0
            else iir_byte s.rssi (s.idle_buf.channel - 2402));
      rssi_count = s.rssi.rssi_count;
      payload = take 50 buf;
    }

-- The slot is written with what it held before at hand; DMA_SIZE bytes of `buf` are copied.
abbrev pub put_in : Firmware → (Packet → Packet) → Option ℕ × Queue → Bool × Firmware
put_in s fields (none, q) = (false, record s { queue = q; status = bit_or s.status fifo_overflow })
put_in s fields (some slot, q) =
    (true, record s { queue = write_slot q slot (fields (get_or q.fifo slot blank)); status = 0 })

unfoldable pub enqueue : PacketType → List ℕ → Firmware → Bool × Firmware
unfolding stamp
enqueue type buf s = put_in s (stamp s type buf) (usb_enqueue s.queue)

-- enqueue_with_ts, whose first parameter, the type, the body does not use.
pub stamp_with_ts : Firmware → List ℕ → (ts : ℕ) → Packet → Packet
stamp_with_ts s buf ts old = record old {
  clkn_high = 0;
  clk100ns = ts;
  channel = u8 (s.radio.channel + 65536 - 2402);
  rssi_avg = 0;
  rssi_count = 0;
  payload = take 50 buf;
  status = s.status;
}

unfoldable pub enqueue_with_ts : PacketType → List ℕ → (ts : ℕ) → Firmware → Bool × Firmware
unfolding stamp_with_ts
enqueue_with_ts type buf ts s = put_in s (stamp_with_ts s buf ts) (usb_enqueue s.queue)
