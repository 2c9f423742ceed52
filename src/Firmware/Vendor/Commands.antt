-- ===== src/Firmware/Vendor/Commands.antt =====
-- enum ubertooth_usb_commands of host/libubertooth/src/ubertooth_interface.h.
use codetooth.Prelude.{ℕ, Option, some, ◌≡◌, refl, List, [], ◌∷◌, get_elem?}

pub data Request : Type 0 where
  ping rx_symbols tx_symbols get_usrled set_usrled get_rxled set_rxled get_txled set_txled get_1v8
        set_1v8 get_channel set_channel reset get_serial get_partnum get_paen set_paen get_hgm
        set_hgm tx_test stop get_mod set_mod set_isp flash bootloader_flash specan get_palevel
        set_palevel repeater range_test range_check get_rev_num led_specan get_board_id set_squelch
        get_squelch set_bdaddr start_hopping set_clock get_clock btle_sniffing get_access_address
        set_access_address do_something do_something_reply get_crc_verify set_crc_verify poll
        btle_promisc set_afhmap clear_afhmap read_register btle_slave get_compile_info
        btle_set_target btle_phy write_register jam_mode ego afh hop trim_clock :
      Request

-- In the order of the numbers, which go from 0 up without a gap.
abbrev pub commands : List Request
commands =
    Request.ping ∷ Request.rx_symbols ∷ Request.tx_symbols ∷ Request.get_usrled ∷ Request.set_usrled
    ∷ Request.get_rxled ∷ Request.set_rxled ∷ Request.get_txled ∷ Request.set_txled
    ∷ Request.get_1v8 ∷ Request.set_1v8 ∷ Request.get_channel ∷ Request.set_channel ∷ Request.reset
    ∷ Request.get_serial ∷ Request.get_partnum ∷ Request.get_paen ∷ Request.set_paen
    ∷ Request.get_hgm ∷ Request.set_hgm ∷ Request.tx_test ∷ Request.stop ∷ Request.get_mod
    ∷ Request.set_mod ∷ Request.set_isp ∷ Request.flash ∷ Request.bootloader_flash ∷ Request.specan
    ∷ Request.get_palevel ∷ Request.set_palevel ∷ Request.repeater ∷ Request.range_test
    ∷ Request.range_check ∷ Request.get_rev_num ∷ Request.led_specan ∷ Request.get_board_id
    ∷ Request.set_squelch ∷ Request.get_squelch ∷ Request.set_bdaddr ∷ Request.start_hopping
    ∷ Request.set_clock ∷ Request.get_clock ∷ Request.btle_sniffing ∷ Request.get_access_address
    ∷ Request.set_access_address ∷ Request.do_something ∷ Request.do_something_reply
    ∷ Request.get_crc_verify ∷ Request.set_crc_verify ∷ Request.poll ∷ Request.btle_promisc
    ∷ Request.set_afhmap ∷ Request.clear_afhmap ∷ Request.read_register ∷ Request.btle_slave
    ∷ Request.get_compile_info ∷ Request.btle_set_target ∷ Request.btle_phy ∷ Request.write_register
    ∷ Request.jam_mode ∷ Request.ego ∷ Request.afh ∷ Request.hop ∷ Request.trim_clock ∷ []

abbrev pub request_of : ℕ → Option Request
request_of code = get_elem? commands code

-- The number of a request, as the host sends it.
abbrev pub number : Request → ℕ
number Request.ping = 0
number Request.rx_symbols = 1
number Request.tx_symbols = 2
number Request.get_usrled = 3
number Request.set_usrled = 4
number Request.get_rxled = 5
number Request.set_rxled = 6
number Request.get_txled = 7
number Request.set_txled = 8
number Request.get_1v8 = 9
number Request.set_1v8 = 10
number Request.get_channel = 11
number Request.set_channel = 12
number Request.reset = 13
number Request.get_serial = 14
number Request.get_partnum = 15
number Request.get_paen = 16
number Request.set_paen = 17
number Request.get_hgm = 18
number Request.set_hgm = 19
number Request.tx_test = 20
number Request.stop = 21
number Request.get_mod = 22
number Request.set_mod = 23
number Request.set_isp = 24
number Request.flash = 25
number Request.bootloader_flash = 26
number Request.specan = 27
number Request.get_palevel = 28
number Request.set_palevel = 29
number Request.repeater = 30
number Request.range_test = 31
number Request.range_check = 32
number Request.get_rev_num = 33
number Request.led_specan = 34
number Request.get_board_id = 35
number Request.set_squelch = 36
number Request.get_squelch = 37
number Request.set_bdaddr = 38
number Request.start_hopping = 39
number Request.set_clock = 40
number Request.get_clock = 41
number Request.btle_sniffing = 42
number Request.get_access_address = 43
number Request.set_access_address = 44
number Request.do_something = 45
number Request.do_something_reply = 46
number Request.get_crc_verify = 47
number Request.set_crc_verify = 48
number Request.poll = 49
number Request.btle_promisc = 50
number Request.set_afhmap = 51
number Request.clear_afhmap = 52
number Request.read_register = 53
number Request.btle_slave = 54
number Request.get_compile_info = 55
number Request.btle_set_target = 56
number Request.btle_phy = 57
number Request.write_register = 58
number Request.jam_mode = 59
number Request.ego = 60
number Request.afh = 61
number Request.hop = 62
number Request.trim_clock = 63

pub request_of-number : (r : Request) → request_of (number r) ≡ some r
request_of-number Request.ping = refl
request_of-number _ = refl
