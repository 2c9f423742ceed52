-- ===== src/Tests/Symbols.antt =====
-- Empty data packets on the air.
use codetooth.Prelude.{All, ◌<◌, ◌+◌, List, ℕ, ◌≡◌, ◌⊎◌, [], ◌∷◌, ◌++◌, take, replicate, arith}
use codetooth.Usb.Packet.{Packet}
use codetooth.Usb.Queue.Refine.{contents, length-contents}
use codetooth.Tests.Ring.{idle_ring, idle_ring-IsValid}
use codetooth.Firmware.Promisc.{see_aa}
use codetooth.Firmware.Symbols.Empty.{whiten_bits, look_at, cb_le_promisc}
use codetooth.Firmware.Symbols.Spelled.{spelled}
use codetooth.Firmware.Symbols.Heard.{IsEmptyData, look_at-Empty}
use codetooth.Firmware.Symbols.Found.{air, look_at-finds}
use codetooth.Firmware.Symbols.Chosen.{searched, ListensOn, Follows, cb_le_promisc_lem}
use codetooth.Tests.Receive.{device}

abbrev overheard : List ℕ
overheard = replicate 10 1 ++ air 5 (0 ∷ 0 ∷ []) 0x78 0x56 0x34 0x12 2

look_at-finds_example :
    let r = look_at 5 42 overheard ([], device) in
    (p : Packet) × (contents r.1.queue ≡ contents idle_ring ++ (p ∷ []))
    × (take 4 p.payload ≡ 0x78 ∷ 0x56 ∷ 0x34 ∷ 0x12 ∷ [])
    × (r.1.promisc.active_aa ≡ see_aa 0x12345678 device.promisc.active_aa)
look_at-finds_example =
    look_at-finds 5 (replicate 10 1) (0 ∷ 0 ∷ []) [] 0x78 0x56 0x34 0x12 2 device (omega arith)
      (omega arith) (omega arith) (omega arith) (omega arith) idle_ring-IsValid
      (omega (arith, length-contents idle_ring))

overheard-All : All (λ x. x < 2) overheard
unfolding whiten_bits
overheard-All = ground arith

-- The packet of `overheard` is found.
look_at-Empty_example :
    let r = look_at 5 (10 + 32) overheard (replicate 50 0, device) in
    (r ≡ (replicate 50 0, device))
    ⊎ ((p : Packet) × (contents r.1.queue ≡ contents idle_ring ++ (p ∷ []))
        × (take 4 p.payload
            ≡ spelled overheard 10
              ∷ spelled overheard (10 + 8)
              ∷ spelled overheard (10 + 16)
              ∷ spelled overheard (10 + 24)
              ∷ [])
        × IsEmptyData p.payload)
look_at-Empty_example =
    look_at-Empty 5 10 overheard (replicate 50 0) (omega arith) device overheard-All
      idle_ring-IsValid (omega (arith, length-contents idle_ring))

cb_le_promisc_lem_example :
    let found = searched (replicate 800 0) (replicate 50 0) device in
    let l = cb_le_promisc (replicate 800 0) (replicate 50 0) device in
    ListensOn found l ⊎ ((aa : ℕ) × Follows found aa l)
cb_le_promisc_lem_example = cb_le_promisc_lem (replicate 800 0) (replicate 50 0) device
