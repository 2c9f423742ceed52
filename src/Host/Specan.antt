-- ===== src/Host/Specan.antt =====
-- cb_specan of host/ubertooth-tools/src/ubertooth-specan.c: what is printed of a packet of levels.
pub mod Carried
use codetooth.Prelude.{
  ℕ, zero, suc, ◌+◌, u16, bit_or, ◌<<<◌, ◌==◌, if◌then◌else◌, Bool, List, [], ◌∷◌, ◌++◌, get_or,
  take, drop,
}
use codetooth.Usb.Packet.{Packet}
use codetooth.Host.RingBuffer.{RingBuffer, ringbuffer_get_usb}

-- enum specan_modes, as the byte of the arguments.
abbrev pub specan_stdout : ℕ
specan_stdout = 0

abbrev pub specan_gnuplot_normal : ℕ
specan_gnuplot_normal = 1

abbrev pub specan_gnuplot_3d : ℕ
specan_gnuplot_3d = 2

abbrev pub specan_file : ℕ
specan_file = 3

-- What is written: a line with the time of the packet (which the source divides by 10000000), the
-- frequency and the level, for the standard output and for a plot; a line without the time; an
-- empty line; three bytes in the file; and the two errors.
pub data Output : Type 0 where
  row timed_point : (clk100ns frequency level : ℕ) → Output
  point : (frequency level : ℕ) → Output
  blank_line : Output
  raw : List ℕ → Output
  write_error : Output
  unknown_mode : (output_mode : ℕ) → Output

-- A block of three bytes goes on to the next, or cb_specan returns.
pub data Block : Type 0 where
  goes_on returns : List Output → Block

-- The empty line after the last frequency of the band.
abbrev pub then_blank : (frequency high_freq : ℕ) → Output → List Output
then_blank frequency high_freq line =
    if frequency == high_freq then line ∷ blank_line ∷ [] else line ∷ []

unfoldable pub frequency_at : (bytes : List ℕ) (j : ℕ) → ℕ
frequency_at bytes j = u16 (bit_or (get_or bytes j 0 <<< 8) (get_or bytes (j + 1) 0))

-- `takes` says whether the file takes all of the bytes.
abbrev pub print_block : (takes : Bool) (high_freq output_mode : ℕ) → Packet → (j : ℕ) → Block
print_block takes high_freq output_mode rx j =
    let frequency = frequency_at rx.payload j in
    let level = get_or rx.payload (j + 2) 0 in
    let written =
      if takes
      then goes_on (raw (take 3 (drop j rx.payload)) ∷ [])
      else returns (write_error ∷ []) in
    if output_mode == specan_file
    then written
    else if output_mode == specan_stdout
    then goes_on (row rx.clk100ns frequency level ∷ [])
    else if output_mode == specan_gnuplot_normal
    then goes_on (then_blank frequency high_freq (point frequency level))
    else if output_mode == specan_gnuplot_3d
    then goes_on (then_blank frequency high_freq (timed_point rx.clk100ns frequency level))
    else returns (unknown_mode output_mode ∷ [])

abbrev pub and_then : Block → List Output → List Output
and_then (goes_on written) rest = written ++ rest
and_then (returns written) rest = written

-- `left` blocks from `j` on.
unfoldable pub print_blocks :
    (left : ℕ) (takes : ℕ → Bool) (high_freq output_mode : ℕ) → Packet → (j : ℕ) → List Output
print_blocks zero takes high_freq output_mode rx j = []
print_blocks (suc left) takes high_freq output_mode rx j =
    and_then (print_block (takes j) high_freq output_mode rx j)
      (print_blocks left takes high_freq output_mode rx (j + 3))

-- `args` is the highest frequency, low byte first, and the output mode. `j` stays below
-- DMA_SIZE - 2, which is 48.
unfoldable pub cb_specan : (takes : ℕ → Bool) (args : List ℕ) → RingBuffer → List Output
unfolding print_blocks
cb_specan takes args packets =
    let high_freq = u16 (bit_or (get_or args 0 0) (get_or args 1 0 <<< 8)) in
    print_blocks 16 takes high_freq (get_or args 2 0) (ringbuffer_get_usb packets 9) 0
