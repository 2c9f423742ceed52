-- ===== src/Lib.antt =====
-- A verification development of the Ubertooth firmware, with part of the host's library.
--
-- The firmware receives packets of a radio, follows a Bluetooth connection as it hops from channel to
-- channel, and hands what it hears to a host over USB. Its parts, and the files that model them:
--
--   Le        firmware/bluetooth_rxtx/bluetooth_le.c and bluetooth_le.h: the state of a link
--             (Le/State), channel indices and frequencies (Le/Channel), the CRC computed a bit at
--             a time, by a table, and backwards (Le/Crc), and the whitening tables (Le/Whitening).
--             Le/Reversal has the reversal of bits, also for rbit of firmware/common/ubertooth.c.
--   Usb       firmware/bluetooth_rxtx/ubertooth_usb.c: the ring of packets for the host
--             (Usb/Queue: queue_init, usb_enqueue, dequeue), the queue that it promises to be
--             (Usb/Fifo), and what leaves through the endpoint (Usb/Send: dequeue_send,
--             handle_usb). Usb/Packet is usb_pkt_rx of
--             host/libubertooth/src/ubertooth_interface.h.
--   Firmware  firmware/bluetooth_rxtx/bluetooth_rxtx.c: the globals (Firmware/State), enqueue
--             and enqueue_with_ts (Firmware/Enqueue), connection_follow_cb and the resets
--             (Firmware/Follow), TIMER0_IRQHandler (Firmware/Timer), the callbacks of promiscuous
--             mode with see_aa (Firmware/Promisc), the choice of the next channel in hop
--             (Firmware/Hop) and its squelch level (Hop/Sensed), rssi_add and its neighbours (Firmware/Rssi), cs_threshold_set and
--             cs_threshold_calc_and_set (Firmware/Squelch), the bytes that le_transmit and
--             bt_slave_le send (Firmware/Transmit), what bt_le_sync makes of the bytes received and
--             of silence (Firmware/Sync) and the rounds of its loop (Sync/Round), the DMA
--             interrupt with the rounds of bt_stream_rx and bt_generic_le (Firmware/Stream), specan
--             and led_specan (Firmware/Specan), and the packets that cb_follow_le finds in unpacked
--             symbols (Firmware/Symbols), and the empty ones that cb_le_promisc finds there
--             (Symbols/Empty). vendor_request_handler (Firmware/Vendor) is in four parts of its
--             switch, Board, Tuning, Piconet and Le, each of which hands on the requests that it
--             does not have; Firmware/Device is the state that the requests reach,
--             Vendor/Commands the enumeration of their numbers, Vendor/Control the transfer of a
--             request, and Vendor/Transport its way from the USB stack
--             (firmware/bluetooth_rxtx/ubertooth_usb.c). Firmware/Ego is
--             firmware/bluetooth_rxtx/ego.c: its state machines and their timers.
--   Classic   firmware/bluetooth_rxtx/bluetooth.c and bluetooth.h: count_bits (Classic/CountBits),
--             perm5 (Classic/Perm5), precalc and next_hop (Classic/NextHop), and find_access_code
--             (Classic/AccessCode).
--   Host      host/libubertooth/src: the last packets that the host received, ubertooth_ringbuffer.c
--             (Host/RingBuffer), their strength and time, ubertooth_callback.c (Host/Callback), and
--             the requests that it sends, ubertooth_control.c (Host/Control: those for modes in
--             Requests, for pins, levels and the board in Settings, for links in Links). libusb is a
--             parameter (Libusb of Control/Transfer). Control/Carried says what it and the USB stack
--             of the firmware are taken to do with a transfer, so that the theorems of Control go
--             from a function of the host through vendor_request_handler and back. Host/Specan is
--             cb_specan of host/ubertooth-tools/src/ubertooth-specan.c.
--   Prelude   shared helpers: tests, lists, integers of a width, bits, signed integers.
--   Tests     runs at concrete inputs.
--
-- A function that changes globals takes the state and returns the state after, with what it
-- returns. Integers are natural numbers below 2^w; where the source's type wraps round, the model
-- takes the remainder (u8, u16, u32 of Prelude/Word). A pointer to a packet of the ring is the index
-- of its slot. Loops over bytes and bits are recursion on a list or on the number of rounds. Three
-- loops have fuel: that of count_bits 64 rounds, each of which clears a bit of a number of 64, the
-- sweeps of hop 79, in which a sweep passes every channel of the band, and the pieces of
-- Firmware/Transmit one for each byte, which Transmit/Pieces shows to be enough.
--
-- What the radio chip and the boot ROM answer to a request, and the strings and options of the build,
-- are arguments (Hardware and Build of Firmware/Device); what is written to the radio is a list. A
-- buffer is the list of its bytes: a reply overwrites its front. The bytes of the stack that bt_le_sync
-- copies without having written them are an argument too, and so is what interrupts do to the state
-- while a receiving loop waits. What the source reads where it leaves an array (rssi_iir and afh_map, for a
-- channel outside the band) is a field of the state that nothing is known of. SET_ISP and FLASH restart the
-- processor: their cases do not return (leave of Vendor/Control), and what the host then gets is left open.
--
-- Interrupts are calls made one after another. Usb/Queue/Race has the one interleaving that matters
-- to the ring. USBHwISR of the USB library is a parameter of handle_usb, the status of its endpoint
-- an argument, and the packets that it is given a list in the state.
--
-- Not modelled: registers of the radio and of the processor, apart from those read back (the timer's
-- counter and match value, and FSDIV), the loops that only poll them, the set-up of the modes,
-- the interrupt of the carrier sense, the range test, the callbacks of asynchronous transfers and
-- print_serial of the host's library, the rest of that library, and the rest of the tools.
pub mod Prelude
pub mod Le
pub mod Usb
pub mod Firmware
pub mod Classic
pub mod Host
pub mod Tests
