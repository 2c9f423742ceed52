-- ===== src/Tests/Sweeping.antt =====
-- Sweeps restricted by a map with the channels 2402 to 2409 MHz, and 2480 MHz left out.
use codetooth.Prelude.{ℕ, ◌-◌, ◌≡◌, refl, true, false, some, ◌∷◌, replicate, arith}
use codetooth.Classic.State.{Classic}
use codetooth.Firmware.State.{Firmware, hop_sweep, hop_afh}
use codetooth.Firmware.Hop.{in_map, hop}
use codetooth.Firmware.Hop.Sweep.{InBand, tuned_to, hop_sweep_used, hop_afh_unused}
use codetooth.Tests.Piconet.{piconet}
use codetooth.Tests.Receive.{device}

abbrev few : Classic
few = record piconet { afh_enabled = true; used_channels = 8; afh_map = 255 ∷ replicate 9 0 }

abbrev sweeping : Firmware
sweeping = record device { radio = record (device.radio) { channel = 2405; hop_mode = hop_sweep } }

abbrev detecting : Firmware
detecting = record device { radio = record (device.radio) { channel = 2405; hop_mode = hop_afh } }

hop_sweep_used_example :
    (channel : ℕ) × (hop 2404 few sweeping ≡ some (channel - 1, tuned_to channel sweeping))
    × (in_map few channel ≡ true)
    × InBand channel
unfolding in_map
hop_sweep_used_example =
    hop_sweep_used 2404 2409 few sweeping refl (record { low = omega arith; high = omega arith })
      refl (omega arith) (record { low = omega arith; high = omega arith }) refl

hop_afh_unused_example :
    (channel : ℕ) × (hop 2404 few detecting ≡ some (channel - 1, tuned_to channel detecting))
    × (in_map few channel ≡ false)
    × InBand channel
unfolding in_map
hop_afh_unused_example =
    hop_afh_unused 2404 2480 few detecting refl (record { low = omega arith; high = omega arith })
      (omega arith) (record { low = omega arith; high = omega arith }) refl
