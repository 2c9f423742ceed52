-- ===== src/Firmware/Vendor/Le.antt =====
-- The last part of the switch of vendor_request_handler: Low Energy, the registers of the radio, the
-- queue, and jamming.
use codetooth.Prelude.{
  ℕ, u8, bit_and, ◌>>>◌, ◌==◌, if◌then◌else◌, Bool, true, false, not, ◌&&◌, Option, none, some,
  List, [], ◌∷◌, ◌++◌, take,
}
use codetooth.Usb.Packet.{Packet}
use codetooth.Usb.Queue.{Queue, queue_init, dequeue, read_slot}
use codetooth.Firmware.State.{Mode, hop_none, hop_btle}
use codetooth.Firmware.Follow.{set_access_address, le_word32}
use codetooth.Firmware.Device.{Device, Build, Hardware, set_squelch}
use codetooth.Firmware.Vendor.Commands.{Request}
use codetooth.Firmware.Vendor.Control.{
  Exchange, Answer, accept, refuse, built_with, reply, resize, param, datum, split_bytes,
  packet_bytes,
}

abbrev pub bit_of : Bool → ℕ
bit_of true = 1
bit_of false = 0

abbrev pub nonzero : ℕ → Bool
nonzero n = not (n == 0)

-- BTLE_SNIFFING and BTLE_PROMISC after their hopping and mode are set.
unfoldable pub restart_queue : Device → Device
unfolding queue_init
restart_queue d = set_squelch (record d { fw = record (d.fw) { queue = queue_init } })

abbrev pub to_sniffing : Device → Device
to_sniffing d = record d {
  fw = record (d.fw) {
    radio = record (d.fw.radio) { do_hop = false; hop_mode = hop_btle };
    requested_mode = Mode.bt_follow_le;
  };
}

abbrev pub to_promisc : Device → Device
to_promisc d = record d {
  fw = record (d.fw) {
    radio = record (d.fw.radio) { hop_mode = hop_none };
    requested_mode = Mode.bt_promisc_le;
  };
}

-- The reply of UBERTOOTH_POLL to what dequeue returned.
abbrev pub polled : Option Packet → Exchange → Exchange
polled none x = reply (0 ∷ []) x
polled (some p) x = reply (packet_bytes p) x

abbrev pub slot_packet : Queue → Option ℕ → Option Packet
slot_packet q none = none
slot_packet q (some slot) = read_slot q slot

abbrev pub poll : Exchange → Device → Answer
poll x d =
    let taken = dequeue d.fw.queue in
    accept (polled (slot_packet d.fw.queue taken.0) x)
      (record d { fw = record (d.fw) { queue = taken.1 } })

abbrev pub set_target : Exchange → Device → Device
set_target x d = record d {
  fw = record (d.fw) {
    le = record (d.fw.le) {
      target = datum x 5 ∷ datum x 4 ∷ datum x 3 ∷ datum x 2 ∷ datum x 1 ∷ datum x 0 ∷ [];
      target_set = true;
    };
  };
}

abbrev pub set_aa : Exchange → Device → Device
set_aa x d = record d {
  fw = record (d.fw) {
    le = record (set_access_address (le_word32 x.bytes 0) d.fw.le) { target_set = true };
  };
}

-- EGO_JAM of firmware/bluetooth_rxtx/ego.h.
abbrev pub ego_jam : ℕ
ego_jam = 2

-- The test under `#ifndef TX_ENABLE` is of the mode before.
abbrev pub set_ego : Build → List ℕ → Exchange → Device → Answer
set_ego b request_params x d =
    if not b.tx_enable && d.ego_mode == ego_jam
    then refuse x d
    else accept x (record d {
      fw = record (d.fw) { requested_mode = Mode.ego };
      ego_mode = u8 (param request_params 0);
    })

unfoldable pub le_requests : Build → Hardware → Request → List ℕ → Exchange → Device → Answer
unfolding restart_queue split_bytes
le_requests b h Request.btle_sniffing ps x d = accept (resize 0 x) (restart_queue (to_sniffing d))
le_requests b h Request.get_access_address ps x d =
    accept (reply (split_bytes 4 0 d.fw.le.access_address) x) d
le_requests b h Request.set_access_address ps x d = accept x (set_aa x d)
le_requests b h Request.do_something ps x d = accept x d
le_requests b h Request.do_something_reply ps x d = accept (reply (0x13 ∷ 0x37 ∷ []) x) d
le_requests b h Request.get_crc_verify ps x d = accept (reply (bit_of d.fw.le.crc_verify ∷ []) x) d
le_requests b h Request.set_crc_verify ps x d = accept x (record d {
  fw = record (d.fw) { le = record (d.fw.le) { crc_verify = nonzero (param ps 0) } };
})
le_requests b h Request.poll ps x d = poll x d
le_requests b h Request.btle_promisc ps x d = accept (resize 0 x) (restart_queue (to_promisc d))
le_requests b h Request.read_register ps x d =
    let reg_val = h.cc2400_get (u8 (param ps 0)) in
    accept (reply (bit_and (reg_val >>> 8) 0xff ∷ bit_and reg_val 0xff ∷ []) x) d
le_requests b h Request.write_register ps x d =
    accept x
      (record d { radio_writes = d.radio_writes ++ ((bit_and (param ps 0) 0xff, param ps 1) ∷ []) })
le_requests b h Request.btle_slave ps x d = accept x (record d {
  slave_mac_address = take 6 x.bytes;
  fw = record (d.fw) { requested_mode = Mode.bt_slave_le };
})
le_requests b h Request.btle_set_target ps x d = accept x (set_target x d)
le_requests b h Request.jam_mode ps x d =
    built_with b.tx_enable x d
      (accept x (record d { fw = record (d.fw) { jam_mode = u8 (param ps 0) } }))
le_requests b h Request.ego ps x d = set_ego b ps x d
le_requests b h _ ps x d = refuse x d
