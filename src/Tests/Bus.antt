-- ===== src/Tests/Bus.antt =====
-- A host and a device on one bus.
use codetooth.Prelude.{
  ℕ, ◌%◌, ◌*◌, ◌+◌, ◌^◌, ◌≡◌, refl, min, take, drop, length, [], ◌∷◌, ◌++◌, ◌∙◌, ap, replicate, All,
  arith,
}
use codetooth.Usb.Packet.{Packet, le_packet}
use codetooth.Usb.Queue.Refine.{IsValid, contents, contents_of_zero}
use codetooth.Firmware.State.{hop_none}
use codetooth.Firmware.Device.{Device}
use codetooth.Firmware.Enqueue.{enqueue, stamp}
use codetooth.Firmware.Enqueue.Laws.{Queued, stale, enqueue-Queued}
use codetooth.Host.Control.Transfer.{value, error, pipe, done, show_libusb_error}
use codetooth.Host.Control.Carried.{direct, direct-Carries}
use codetooth.Host.Control.Requests.{cmd_specan}
use codetooth.Host.Control.Settings.{cmd_set_channel, cmd_get_channel, cmd_get_rev_num, bytes_text}
use codetooth.Host.Control.Links.{cmd_set_clock, cmd_get_clock, cmd_set_bdaddr, cmd_poll}
use codetooth.Host.Control.Roundtrip.{cmd_set_clock-cmd_get_clock}
use codetooth.Host.Control.Address.{cmd_set_bdaddr-Held}
use codetooth.Host.Control.Readings.{cmd_get_rev_num-Read}
use codetooth.Host.Control.Tuned.{cmd_set_channel-cmd_get_channel, cmd_specan_lem}
use codetooth.Host.Control.Polled.{host_reads, cmd_poll_lem}
use codetooth.Tests.Ring.{idle_ring-IsValid}
use codetooth.Tests.Vendor.{plain, chips, gadget}

cmd_set_clock-cmd_get_clock_example :
    let set = cmd_set_clock (direct plain chips) 123456789 gadget in
    (set.result ≡ value 0)
    × ((cmd_get_clock (direct plain chips) (7 ∷ 7 ∷ 7 ∷ 7 ∷ []) set.world).result ≡ 123456789)
cmd_set_clock-cmd_get_clock_example =
    cmd_set_clock-cmd_get_clock plain chips (direct plain chips) (direct-Carries plain chips)
      123456789 (7 ∷ 7 ∷ 7 ∷ 7 ∷ []) gadget (omega arith)

-- A stand-in for btbb_gen_syncword, which spreads the address over 64 bits.
abbrev spread : ℕ → ℕ
spread lap = lap * 2 ^ 40 + 11

cmd_set_bdaddr-Held_example :
    let set = cmd_set_bdaddr (direct plain chips) spread 0x112233445566 gadget in
    (set.result ≡ value 0)
    × (set.world.classic.address ≡ 0x112233445566)
    × (set.world.classic.access_code ≡ spread (0x112233445566 % 2 ^ 24))
cmd_set_bdaddr-Held_example =
    cmd_set_bdaddr-Held plain chips (direct plain chips) (direct-Carries plain chips) spread
      0x112233445566 gadget (omega arith) (omega arith)

cmd_get_rev_num-Read_example :
    cmd_get_rev_num (direct plain chips) [] 20 gadget
    ≡ done (bytes_text (take (min 19 40) (replicate 40 97))) [] gadget
cmd_get_rev_num-Read_example =
    cmd_get_rev_num-Read plain chips (direct plain chips) (direct-Carries plain chips) [] 20 gadget
      (omega arith) (omega arith)

cmd_set_channel-cmd_get_channel_example :
    let set = cmd_set_channel (direct plain chips) 2000 gadget in
    (set.result ≡ value 0)
    × (set.world.fw.radio.hop_mode ≡ hop_none)
    × ((cmd_get_channel (direct plain chips) [] set.world).result ≡ value 2268)
cmd_set_channel-cmd_get_channel_example =
    cmd_set_channel-cmd_get_channel plain chips (direct plain chips) (direct-Carries plain chips)
      2000 [] gadget refl

-- A band upside down.
cmd_specan_lem_example :
    cmd_specan (direct plain chips) 2480 2402 gadget
    ≡ done (error pipe) (show_libusb_error (error pipe) ∷ []) gadget
cmd_specan_lem_example =
    cmd_specan_lem plain chips (direct plain chips) (direct-Carries plain chips) 2480 2402 gadget

-- A device with a packet for the host.
abbrev loaded : Device
loaded = record (gadget) { fw = (enqueue le_packet (replicate 50 9) gadget.fw).1 }

no_packets : contents gadget.fw.queue ≡ []
no_packets = contents_of_zero gadget.fw.queue refl

abbrev letter : Packet
letter = stamp gadget.fw le_packet (replicate 50 9) (stale gadget.fw.queue)

loaded-Queued : Queued gadget.fw letter (enqueue le_packet (replicate 50 9) gadget.fw)
loaded-Queued =
    enqueue-Queued le_packet (replicate 50 9) gadget.fw idle_ring-IsValid
      (omega (arith, ap length no_packets))

loaded-IsValid : IsValid loaded.fw.queue
loaded-IsValid = loaded-Queued.valid

one_packet : contents loaded.fw.queue ≡ letter ∷ []
one_packet = loaded-Queued.held ∙ ap (λ packets. packets ++ (letter ∷ [])) no_packets

loaded_whole : All (λ p. length p.payload ≡ 50) (contents loaded.fw.queue)
unfolding stamp
loaded_whole = rw one_packet (refl, tt)

cmd_poll_lem_example :
    let polled = cmd_poll (direct plain chips) [] loaded in
    (polled.result ≡ host_reads (contents loaded.fw.queue) [])
    × (contents polled.world.fw.queue ≡ drop 1 (contents loaded.fw.queue))
    × IsValid polled.world.fw.queue
cmd_poll_lem_example =
    cmd_poll_lem plain chips (direct plain chips) (direct-Carries plain chips) [] loaded
      loaded-IsValid loaded_whole
