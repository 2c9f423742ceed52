-- ===== src/Tests/Piconet.antt =====
-- A piconet of classic Bluetooth: bits, hops and its access code.
use codetooth.Prelude.{
  All, take, drop, ◌-◌, ℕ, ◌<◌, ◌≡◌, ◌≢◌, refl, bit_xor, false, some, List, [], ◌∷◌, ◌++◌,
  replicate, arith,
}
use codetooth.Classic.State.{Classic}
use codetooth.Classic.CountBits.{count_bits, ones, count_bits_lem}
use codetooth.Classic.NextHop.{precalc, next_hop}
use codetooth.Classic.NextHop.Distinct.{next_hop_distinct}
use codetooth.Classic.AccessCode.{find_access_code}
use codetooth.Classic.AccessCode.Window
use codetooth.Classic.AccessCode.Window.{window, big_endian, find_access_code_finds}

-- An address and its access code, before precalc.
abbrev pub piconet : Classic
piconet = record {
  address = 0x2a96ef25;
  access_code = 0xcc7b7268ff614e1b;
  syncword = 0;
  afh_enabled = false;
  afh_map = replicate 10 0;
  beyond_map = λ channel. false;
  used_channels = 0;
  a1 = 0;
  b = 0;
  c1 = 0;
  d1 = 0;
  e = 0;
  bank = replicate 79 0;
  afh_bank = replicate 79 0;
}

count_bits_lem_example : count_bits 0xcc7b7268ff614e1b ≡ ones 64 0xcc7b7268ff614e1b
count_bits_lem_example = count_bits_lem 0xcc7b7268ff614e1b (omega arith)

next_hop_distinct_example : next_hop 1280 (precalc piconet) ≢ next_hop 1284 (precalc piconet)
next_hop_distinct_example = next_hop_distinct 1280 1284 piconet refl refl refl (omega arith)

-- The access code at the start of a buffer, with one error.
abbrev symbols : List ℕ
symbols = (0xcc ∷ 0x7b ∷ 0x72 ∷ 0x68 ∷ 0xff ∷ 0x61 ∷ 0x4e ∷ 0x1a ∷ []) ++ replicate 42 0

abbrev matched : Classic
matched = record piconet { syncword = 0xcc7b7268ff614e1a }

found_there : find_access_code symbols piconet ≡ (some 64, matched)
unfolding find_access_code count_bits
found_there = refl

symbols-All : All (λ b. b < 256) symbols
symbols-All = ground arith

find_access_code_finds_example :
    (64 < 336)
    × (count_bits (bit_xor 0xcc7b7268ff614e1a 0xcc7b7268ff614e1b) < 5)
    × (0xcc7b7268ff614e1a
        ≡ window (64 - 64) (Window.symbols (drop 9 symbols)) (big_endian (take 8 symbols) 0))
find_access_code_finds_example =
    find_access_code_finds symbols piconet matched 64 refl symbols-All found_there
