-- ===== src/Firmware/Sync.antt =====
-- bt_le_sync: one round of its loop, from a transfer of the DMA to the next channel. The strobes of
-- the radio, the waits for them, and the LEDs are not state.
pub mod Words
pub mod Unwhiten
pub mod Delivery
pub mod Accepted
pub mod Timeout
pub mod Round
use codetooth.Prelude.{
  ℕ, ◌+◌, u32, sub32, bit_and, bit_or, bit_xor, ◌<<<◌, ltb, ◌==◌, if◌then◌else◌, Bool, true, false,
  not, ◌&&◌, ◌||◌, List, [], ◌∷◌, ◌++◌, get_or, take, drop,
}
use codetooth.Prelude.Int.{ℤ}
use codetooth.Usb.Packet.{le_packet}
use codetooth.Le.State.{LeState, LinkState, inactive, listening, conn_pending, connected}
use codetooth.Le.Reversal.{rbit}
use codetooth.Le.Whitening.Words.{whitening_word}
use codetooth.Le.Crc.{crcgen_lut}
use codetooth.Firmware.State.{
  Firmware, Mode, PacketCb, no_cb, connection_follow, promisc_follow, recover_hop_interval,
  recover_hop_increment, clk100ns_of, jam_none,
}
use codetooth.Firmware.Enqueue.{enqueue}
use codetooth.Firmware.Follow.{byte, le_word24, reset_le, connection_follow_cb}
use codetooth.Firmware.Transmit.{index_of}
use codetooth.Firmware.Promisc.{
  bytes_of, promisc_follow_cb, promisc_recover_hop_interval, promisc_recover_hop_increment,
}

-- `rxbuf1[i+0] << 24 | rxbuf1[i+1] << 16 | rxbuf1[i+2] << 8 | rxbuf1[i+3] << 0`
abbrev pub be_word : (r0 r1 r2 r3 : ℕ) → ℕ
be_word r0 r1 r2 r3 = bit_or (bit_or (bit_or (r0 <<< 24) (r1 <<< 16)) (r2 <<< 8)) (r3 <<< 0)

-- The two loops that turn each word round and take the whitening off, for the words received.
pub sync_words : (whit rxbuf : List ℕ) → List ℕ
sync_words (w ∷ whit) (r0 ∷ r1 ∷ r2 ∷ r3 ∷ rxbuf) =
    bit_xor (rbit (be_word r0 r1 r2 r3)) w ∷ sync_words whit rxbuf
sync_words _ _ = []

-- The bytes of words in memory.
pub words_bytes : List ℕ → List ℕ
words_bytes [] = []
words_bytes (w ∷ ws) = bytes_of w ++ words_bytes ws

-- `packet`, of 13 words: the address, the 44 bytes of the DMA, and a word that nothing writes,
-- whose bytes are `stack`.
unfoldable pub sync_packet : (aa channel : ℕ) (rxbuf stack : List ℕ) → List ℕ
unfolding sync_words words_bytes
sync_packet aa channel rxbuf stack =
    bytes_of aa
    ++ (words_bytes (sync_words (get_or whitening_word (index_of channel) []) (take 44 rxbuf))
        ++ stack)

-- `(p[5] & 0x3f) + 2`
abbrev pub packet_len : List ℕ → ℕ
packet_len packet = bit_and (byte packet 5) 0x3f + 2

unfoldable pub crc_matches : LeState → List ℕ → Bool
crc_matches le packet =
    let len = packet_len packet in
    crcgen_lut le.crc_init_reversed (take len (drop 4 packet)) == le_word24 packet (4 + len)

-- The call through `packet_cb`. A null pointer is never called.
unfoldable pub call_packet_cb : PacketCb → List ℕ → Firmware → Firmware
call_packet_cb no_cb packet s = s
call_packet_cb connection_follow packet s = connection_follow_cb packet s
call_packet_cb promisc_follow packet s = promisc_follow_cb packet s
call_packet_cb recover_hop_interval packet s = promisc_recover_hop_interval s
call_packet_cb recover_hop_increment packet s = promisc_recover_hop_increment s

-- A packet that passed the checks.
unfoldable pub deliver : List ℕ → Firmware → Firmware
unfolding call_packet_cb
deliver packet s =
    let queued = (enqueue le_packet packet (call_packet_cb s.packet_cb packet s)).1 in
    record queued { le = record (queued.le) { last_packet = clk100ns_of queued.clock } }

-- From the packet to `rx_flush`.
unfoldable pub on_packet : List ℕ → Firmware → Firmware
unfolding crc_matches deliver
on_packet packet s =
    if ltb 39 (packet_len packet) || (s.le.crc_verify && not (crc_matches s.le packet))
    then s
    else deliver packet s

-- The tests after `rx_flush`: no packet of a connection for five seconds, or the end of jamming.
abbrev pub is_linked : LinkState → Bool
is_linked connected = true
is_linked conn_pending = true
is_linked _ = false

abbrev pub rolled_over : (now last : ℕ) → ℕ
rolled_over now last = if ltb now last then u32 (now + 3276800000) else now

unfoldable pub timed_out : Firmware → Bool
timed_out s =
    let last = s.le.last_packet in
    is_linked s.le.link_state && ltb 50000000 (sub32 (rolled_over (clk100ns_of s.clock) last) last)
    || s.le_jam_count == 1

abbrev pub jam_once : ℕ
jam_once = 1

abbrev pub is_promisc_mode : Mode → Bool
is_promisc_mode Mode.bt_promisc_le = true
is_promisc_mode _ = false

-- What the loop does next: `leaves` is `goto cleanup`, `restarts` sets restart_jamming.
pub data Turn : Type 0 where
  goes_on restarts leaves : Turn

unfoldable pub give_up : (active_mode : Mode) (saved_request : ℕ) → Firmware → Turn × Firmware
give_up active_mode saved_request s =
    let fresh = record (reset_le s) { le_jam_count = 0 } in
    if s.jam_mode == jam_once
    then (Turn.leaves, record fresh { jam_mode = jam_none; requested_mode = Mode.idle })
    else if is_promisc_mode active_mode
    then (Turn.leaves, fresh)
    else (
      Turn.restarts,
      record fresh {
        le = record (fresh.le) { link_state = listening };
        radio = record (fresh.radio) {
          channel = (if saved_request == 0 then 2402 else saved_request);
        };
      },
    )

unfoldable pub check_timeout : (active_mode : Mode) (saved_request : ℕ) → Firmware → Turn × Firmware
unfolding timed_out give_up
check_timeout active_mode saved_request s =
    if timed_out s then give_up active_mode saved_request s else (Turn.goes_on, s)
