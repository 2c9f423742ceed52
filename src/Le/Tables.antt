-- ===== src/Le/Tables.antt =====
-- The tables of bluetooth_le.h: the whitening sequence as bits, where each channel starts in it,
-- the same sequence as 12 words for each channel, and hop increments by channels hopped.
use codetooth.Prelude.{ℕ, List, [], ◌∷◌}

abbrev pub whitening : List ℕ
whitening =
    1 ∷ 1 ∷ 1 ∷ 1 ∷ 0 ∷ 1 ∷ 0 ∷ 1 ∷ 0 ∷ 1 ∷ 0 ∷ 0 ∷ 0 ∷ 0 ∷ 1 ∷ 0 ∷ 1 ∷ 1 ∷ 0 ∷ 1 ∷ 1 ∷ 1 ∷ 1 ∷ 0
    ∷ 0 ∷ 1 ∷ 1 ∷ 1 ∷ 0 ∷ 0 ∷ 1 ∷ 0 ∷ 1 ∷ 0 ∷ 1 ∷ 1 ∷ 0 ∷ 0 ∷ 1 ∷ 1 ∷ 0 ∷ 0 ∷ 0 ∷ 0 ∷ 0 ∷ 1 ∷ 1 ∷ 0
    ∷ 1 ∷ 1 ∷ 0 ∷ 1 ∷ 0 ∷ 1 ∷ 1 ∷ 1 ∷ 0 ∷ 1 ∷ 0 ∷ 0 ∷ 0 ∷ 1 ∷ 1 ∷ 0 ∷ 0 ∷ 1 ∷ 0 ∷ 0 ∷ 0 ∷ 1 ∷ 0 ∷ 0
    ∷ 0 ∷ 0 ∷ 0 ∷ 0 ∷ 1 ∷ 0 ∷ 0 ∷ 1 ∷ 0 ∷ 0 ∷ 1 ∷ 1 ∷ 0 ∷ 1 ∷ 0 ∷ 0 ∷ 1 ∷ 1 ∷ 1 ∷ 1 ∷ 0 ∷ 1 ∷ 1 ∷ 1
    ∷ 0 ∷ 0 ∷ 0 ∷ 0 ∷ 1 ∷ 1 ∷ 1 ∷ 1 ∷ 1 ∷ 1 ∷ 1 ∷ 0 ∷ 0 ∷ 0 ∷ 1 ∷ 1 ∷ 1 ∷ 0 ∷ 1 ∷ 1 ∷ 0 ∷ 0 ∷ 0 ∷ 1
    ∷ 0 ∷ 1 ∷ 0 ∷ 0 ∷ 1 ∷ 0 ∷ 1 ∷ []

abbrev pub whitening_index : List ℕ
whitening_index =
    70 ∷ 62 ∷ 120 ∷ 111 ∷ 77 ∷ 46 ∷ 15 ∷ 101 ∷ 66 ∷ 39 ∷ 31 ∷ 26 ∷ 80 ∷ 83 ∷ 125 ∷ 89 ∷ 10 ∷ 35 ∷ 8
    ∷ 54 ∷ 122 ∷ 17 ∷ 33 ∷ 0 ∷ 58 ∷ 115 ∷ 6 ∷ 94 ∷ 86 ∷ 49 ∷ 52 ∷ 20 ∷ 40 ∷ 27 ∷ 84 ∷ 90 ∷ 63 ∷ 112
    ∷ 47 ∷ 102 ∷ []

abbrev pub hop_interval_lut : List ℕ
hop_interval_lut =
    0 ∷ 1 ∷ 19 ∷ 25 ∷ 28 ∷ 15 ∷ 31 ∷ 16 ∷ 14 ∷ 33 ∷ 26 ∷ 27 ∷ 34 ∷ 20 ∷ 8 ∷ 5 ∷ 7 ∷ 24 ∷ 35 ∷ 2 ∷ 13
    ∷ 30 ∷ 32 ∷ 29 ∷ 17 ∷ 3 ∷ 10 ∷ 11 ∷ 4 ∷ 23 ∷ 21 ∷ 6 ∷ 22 ∷ 9 ∷ 12 ∷ 18 ∷ 36 ∷ []
