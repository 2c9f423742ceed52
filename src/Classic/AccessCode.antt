-- ===== src/Classic/AccessCode.antt =====
-- find_access_code: the search of a buffer of symbols for the access code of the target.
pub mod Laws
pub mod Window
use codetooth.Prelude.{
  ℕ, zero, suc, ◌+◌, ◌-◌, ◌*◌, ◌%◌, ◌^◌, u8, bit_and, bit_or, bit_xor, ◌<<<◌, ◌>>>◌, ltb, ◌==◌,
  if◌then◌else◌, Option, none, some, List, [], ◌∷◌, get_or, take,
}
use codetooth.Classic.State.{Classic}
use codetooth.Classic.CountBits.{count_bits}

abbrev pub u64 : ℕ → ℕ
u64 x = x % 2 ^ 64

abbrev pub max_syncword_errs : ℕ
max_syncword_errs = 5

-- `(8 * DMA_SIZE) - 64`
abbrev pub last_start : ℕ
last_start = 336

-- The loop that fills an empty `syncword` from the first eight bytes.
pub fill_syncword : (bytes : List ℕ) (syncword : ℕ) → ℕ
fill_syncword [] w = w
fill_syncword (byte ∷ bytes) w =
    fill_syncword bytes (bit_or (bit_and (u64 (w <<< 8)) 0xffffffffffffff00) byte)

pub shift_in : (syncword curr_buf : ℕ) → ℕ
shift_in w curr_buf =
    bit_or (bit_and (u64 (w <<< 1)) 0xfffffffffffffffe) (bit_and curr_buf 0x80 >>> 7)

-- The loop, with `left` rounds before `last_start`: the value to return, `none` for -1, and
-- `syncword` after. A buffer has DMA_SIZE bytes, and the loop reads no more than 43 of them.
pub search : (left count i curr_buf syncword access_code : ℕ) (idle_rxbuf : List ℕ) → Option ℕ × ℕ
unfolding shift_in
search zero count i curr_buf w ac buf = (none, w)
search (suc left) count i curr_buf w ac buf =
    let next = if count % 8 == 0 then suc i else i in
    let curr = if count % 8 == 0 then get_or buf (suc i) 0 else curr_buf in
    let rest = search left (count + 1) next (u8 (curr <<< 1)) (shift_in w curr) ac buf in
    if ltb (count_bits (bit_xor w ac)) max_syncword_errs then (some count, w) else rest

-- The search from the start of a buffer: an empty `syncword` is filled first.
pub scan : (idle_rxbuf : List ℕ) → Classic → Option ℕ × ℕ
unfolding fill_syncword search
scan buf s =
    if s.syncword == 0
    then search (last_start - 64) 64 8 (get_or buf 8 0) (fill_syncword (take 8 buf) s.syncword)
        s.access_code buf
    else search last_start 0 0 (get_or buf 0 0) s.syncword s.access_code buf

unfoldable pub find_access_code : (idle_rxbuf : List ℕ) → Classic → Option ℕ × Classic
unfolding scan
find_access_code buf s = let (found, w) = scan buf s in (found, record s { syncword = w })
