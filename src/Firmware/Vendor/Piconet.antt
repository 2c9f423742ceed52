-- ===== src/Firmware/Vendor/Piconet.antt =====
-- The part of the switch of vendor_request_handler for classic Bluetooth: the address, hopping, its
-- channel map, and the clocks.
use codetooth.Prelude.{ℕ, ◌+◌, u16, bit_or, ◌<<<◌, true, false, List, replicate, take}
use codetooth.Firmware.State.{Mode, hop_bluetooth, hop_afh}
use codetooth.Firmware.Follow.{le_word32}
use codetooth.Classic.NextHop.{precalc}
use codetooth.Firmware.Device.{Device, Build, Hardware, set_squelch}
use codetooth.Firmware.Vendor.Commands.{Request}
use codetooth.Firmware.Vendor.Control.{
  Exchange, Answer, accept, reply, resize, datum, split_bytes, join_bytes, join_high_first,
}
use codetooth.Firmware.Vendor.Le.{le_requests}

unfoldable pub set_bdaddr : Exchange → Device → Device
unfolding join_bytes
set_bdaddr x d = record d {
  classic =
      precalc
        (record (d.classic) { address = join_bytes 8 0 0 0 x; access_code = join_bytes 8 0 8 0 x });
}

-- `(data[i] << 8) | (data[i+1] << 0)`, kept in clk100ns_offset.
abbrev pub be_word16 : Exchange → ℕ → ℕ
be_word16 x i = u16 (bit_or (datum x i <<< 8) (datum x (i + 1)))

unfoldable pub start_hopping : Exchange → Device → Device
unfolding join_high_first
start_hopping x d = record d {
  fw = record (d.fw) {
    clock = record (d.fw.clock) {
      clkn_offset = join_high_first 4 0 0 x;
      clk100ns_offset = be_word16 x 4;
    };
    radio = record (d.fw.radio) { hop_mode = hop_bluetooth; dma_discard = true };
    requested_mode = Mode.bt_follow;
  };
}

abbrev pub start_afh : Device → Device
start_afh d = record d {
  fw = record (d.fw) {
    radio = record (d.fw.radio) { hop_mode = hop_afh };
    requested_mode = Mode.afh;
  };
  classic = record (d.classic) { afh_map = replicate 10 0; used_channels = 0; afh_enabled = true };
}

unfoldable pub set_clock : Exchange → Device → Device
set_clock x d =
    set_squelch (record d {
      fw = record (d.fw) { clock = record (d.fw.clock) { clkn = le_word32 x.bytes 0 } };
    })

unfoldable pub piconet_requests : Build → Hardware → Request → List ℕ → Exchange → Device → Answer
unfolding split_bytes
piconet_requests b h Request.set_bdaddr ps x d = accept x (set_bdaddr x d)
piconet_requests b h Request.start_hopping ps x d = accept x (start_hopping x d)
piconet_requests b h Request.afh ps x d = accept x (start_afh d)
piconet_requests b h Request.hop ps x d =
    accept x (record d { fw = record (d.fw) { radio = record (d.fw.radio) { do_hop = true } } })
piconet_requests b h Request.set_clock ps x d = accept x (set_clock x d)
piconet_requests b h Request.set_afhmap ps x d =
    accept (resize 10 x)
      (record d { classic = record (d.classic) { afh_map = take 10 x.bytes; afh_enabled = true } })
piconet_requests b h Request.clear_afhmap ps x d =
    accept (resize 10 x)
      (record d { classic = record (d.classic) { afh_map = replicate 10 0; afh_enabled = false } })
piconet_requests b h Request.get_clock ps x d = accept (reply (split_bytes 4 0 d.fw.clock.clkn) x) d
piconet_requests b h Request.trim_clock ps x d = accept x (record d {
  fw = record (d.fw) { clock = record (d.fw.clock) { clk100ns_offset = be_word16 x 0 } };
})
piconet_requests b h request ps x d = le_requests b h request ps x d
