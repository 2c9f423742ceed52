-- ===== src/Host/Control/Address.antt =====
-- The address and sync word of a piconet, from the host to the firmware.
use codetooth.Prelude.{ℕ, ◌+◌, ◌%◌, ◌^◌, ◌<◌, ◌≡◌, refl, ap, ◌∙◌, bit_and, List, [], ◌++◌, arith}
use codetooth.Prelude.Bits.{and-mask}
use codetooth.Classic.State.{Classic}
use codetooth.Classic.NextHop.{precalc, precalc_afh}
use codetooth.Firmware.Device.{Device, Build, Hardware}
use codetooth.Firmware.Vendor.Control.{Exchange, split_bytes, join_bytes}
use codetooth.Firmware.Vendor.Piconet.{piconet_requests, set_bdaddr}
use codetooth.Firmware.Vendor.Tuning.{tuning_requests}
use codetooth.Firmware.Vendor.Board.{board_requests}
use codetooth.Firmware.Vendor.{vendor_request_handler}
use codetooth.Firmware.Vendor.Commands.{Request}
use codetooth.Firmware.Vendor.Words.{
  byte_of, join_bytes-split, get_or-split_bytes, get_or-behind_split,
}
use codetooth.Firmware.Vendor.Transport.{usb_vendor_request_handler}
use codetooth.Host.Control.Transfer.{Code, value, Libusb, Done, done}
use codetooth.Host.Control.Requests.{out_request}
use codetooth.Host.Control.Links.{cmd_set_bdaddr, all_transferred}
use codetooth.Host.Control.Carried.{Carries, after}

-- The 16 bytes of SET_BDADDR.
abbrev address_bytes : (address syncword : ℕ) → List ℕ
address_bytes address syncword = split_bytes 8 0 address ++ split_bytes 8 0 syncword

precalc_keeps_address :
    (s : Classic) → ((precalc s).address ≡ s.address) × ((precalc s).access_code ≡ s.access_code)
unfolding precalc precalc_afh
precalc_keeps_address s = ground arith

-- Put together again, in the buffer that they were sent to.
joined_address :
    (address syncword : ℕ) (stale : List ℕ) (n : ℕ) (d : Device)
    → address < 2 ^ 64
    → syncword < 2 ^ 64
    → let e =
        set_bdaddr (record { bytes = address_bytes address syncword ++ stale; data_len = n }) d in
      (e.classic.address ≡ address) × (e.classic.access_code ≡ syncword)
unfolding set_bdaddr split_bytes
joined_address address syncword stale n d h1 h2 =
    let x : Exchange = record { bytes = address_bytes address syncword ++ stale; data_len = n } in
    let kept =
      precalc_keeps_address (record (d.classic) {
        address = join_bytes 8 0 0 0 x;
        access_code = join_bytes 8 0 8 0 x;
      }) in
    (
      kept.0
          ∙ join_bytes-split address 0 x h1 (λ j below.
            get_or-split_bytes address (split_bytes 8 0 syncword ++ stale) 8 0 (j + 0) (omega arith)
            ∙ ap (byte_of address) (let e : j + 0 + 0 ≡ j = omega arith in e)),
      kept.1
          ∙ join_bytes-split syncword 8 x h2 (λ j below.
            get_or-behind_split address (split_bytes 8 0 syncword ++ stale) j 8 0
            ∙ get_or-split_bytes syncword stale 8 0 j below
            ∙ ap (byte_of syncword) (let e : j + 0 ≡ j = omega arith in e)),
    )

module _ (b : Build) (h : Hardware) (usb : Libusb Device) (c : Carries b h usb) where
  cmd_set_bdaddr-eq :
      (btbb_gen_syncword : ℕ → ℕ) (address : ℕ) (d : Device)
      → cmd_set_bdaddr usb btbb_gen_syncword address d
        ≡ done (value 0) [] (
            after b h c Request.set_bdaddr
              (address_bytes address (btbb_gen_syncword (bit_and address 0xffffff)))
              d)
  unfolding cmd_set_bdaddr usb_vendor_request_handler vendor_request_handler board_requests
      tuning_requests piconet_requests split_bytes
  cmd_set_bdaddr-eq btbb_gen_syncword address d = ap all_transferred (
      c.sends
        (out_request Request.set_bdaddr 0 0
          (address_bytes address (btbb_gen_syncword (bit_and address 0xffffff))) 1000)
        d refl refl (omega arith) refl)

  both_held :
      (address syncword : ℕ) (d : Device)
      → address < 2 ^ 64
      → syncword < 2 ^ 64
      → let e = after b h c Request.set_bdaddr (address_bytes address syncword) d in
        (e.classic.address ≡ address) × (e.classic.access_code ≡ syncword)
  unfolding usb_vendor_request_handler vendor_request_handler board_requests tuning_requests
      piconet_requests split_bytes
  both_held address syncword d h1 h2 =
      let t = out_request Request.set_bdaddr 0 0 (address_bytes address syncword) 1000 in
      joined_address address syncword (c.stale t d) 16 d h1 h2

  -- On a bus that carries every transfer, where the host sets an address of 64 bits and the sync word
  -- that libbtbb makes of its low 24 bits has no more than 64, the setting succeeds, and the firmware
  -- holds the address, and that sync word as the access code that it looks for.
  pub cmd_set_bdaddr-Held :
      (btbb_gen_syncword : ℕ → ℕ) (address : ℕ) (d : Device)
      → address < 2 ^ 64
      → btbb_gen_syncword (address % 2 ^ 24) < 2 ^ 64
      → let set = cmd_set_bdaddr usb btbb_gen_syncword address d in
        (set.result ≡ value 0)
        × (set.world.classic.address ≡ address)
        × (set.world.classic.access_code ≡ btbb_gen_syncword (address % 2 ^ 24))
  cmd_set_bdaddr-Held btbb_gen_syncword address d h1 h2 =
      let low : bit_and address 0xffffff ≡ address % 2 ^ 24 = and-mask 24 address in
      let e = cmd_set_bdaddr-eq btbb_gen_syncword address d in
      let k = both_held address (btbb_gen_syncword (bit_and address 0xffffff)) d h1 (rw low h2) in
      (
        ap (λ (a : Done Device Code). a.result) e,
        ap (λ (a : Done Device Code). a.world.classic.address) e ∙ k.0,
        ap (λ (a : Done Device Code). a.world.classic.access_code) e
            ∙ k.1
            ∙ ap btbb_gen_syncword low,
      )
