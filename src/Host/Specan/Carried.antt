-- ===== src/Host/Specan/Carried.antt =====
-- The levels of a band on their way from specan to cb_specan.
use codetooth.Prelude.{
  ℕ, ◌+◌, ◌*◌, ◌/◌, ◌%◌, ◌<◌, ◌≤◌, ◌≡◌, refl, sym, ap, ◌∙◌, u8, u16, bit_and, bit_or, ◌<<<◌, ◌>>>◌,
  ◌==◌, Bool, false, List, [], ◌∷◌, ◌++◌, map, length, length-append, set, get_or, get_or-append,
  All, arith, set-append, take_whole, length-set,
}
use mathlib.Core.List.{append_assoc}
use codetooth.Prelude.Bits.{and-mask, or_fields}
use codetooth.Usb.Packet.{Packet, specan}
use codetooth.Usb.Queue.Refine.{IsValid, contents}
use codetooth.Firmware.State.{clk100ns_of}
use codetooth.Firmware.Enqueue.{stamp, enqueue}
use codetooth.Firmware.Enqueue.Laws.{stale, enqueue-Queued}
use codetooth.Firmware.Specan.{Scan, write_level, note_level, note_levels}
use codetooth.Host.RingBuffer.{RingBuffer, ringbuffer_add}
use codetooth.Host.RingBuffer.Laws.{IsRing, ringbuffer_add_shifts}
use codetooth.Host.Specan.{Output, row, specan_stdout, print_blocks, frequency_at, cb_specan}

-- The three bytes of each level.
abbrev cells : List (ℕ × ℕ) → List ℕ
cells [] = []
cells ((f, reading) ∷ levels) =
    bit_and (f >>> 8) 0xff ∷ bit_and f 0xff ∷ u8 (reading >>> 8) ∷ cells levels

write_level-append :
    (i f reading : ℕ) (pre : List ℕ) (a b c : ℕ) (rest : List ℕ)
    → length pre ≡ 3 * i
    → write_level i f reading (pre ++ (a ∷ b ∷ c ∷ rest))
      ≡ pre ++ (cells ((f, reading) ∷ []) ++ rest)
unfolding write_level
write_level-append i f reading pre a b c rest e =
    let hi = bit_and (f >>> 8) 0xff in
    let lo = bit_and f 0xff in
    let level = u8 (reading >>> 8) in
    rw
      (
        set-append pre (a ∷ b ∷ c ∷ rest) (3 * i) 0 hi (omega arith),
        set-append pre (hi ∷ b ∷ c ∷ rest) (3 * i + 1) 1 lo (omega arith),
      )
      (set-append pre (hi ∷ lo ∷ c ∷ rest) (3 * i + 2) 2 level (omega arith))

length-write_level :
    (i f reading : ℕ) (buf : List ℕ) → length (write_level i f reading buf) ≡ length buf
unfolding write_level
length-write_level i f reading buf =
    let hi = bit_and (f >>> 8) 0xff in
    let first = set buf (3 * i) hi in
    let second = set first (3 * i + 1) (bit_and f 0xff) in
    length-set second (3 * i + 2) (u8 (reading >>> 8))
    ∙ length-set first (3 * i + 1) (bit_and f 0xff)
    ∙ length-set buf (3 * i) hi

-- A buffer that the levels have filled behind what was there, and that was queued.
record Full (levels : List (ℕ × ℕ)) (s : Scan) (pre : List ℕ) : Type 0 where
  buf : List ℕ
  rest : List ℕ
  queued : note_levels levels s ≡ record s { i = 0; buf = buf; fw = (enqueue specan buf s.fw).1 }
  holds : buf ≡ pre ++ (cells levels ++ rest)
  long : length buf ≡ length s.buf

module _ (f reading : ℕ) (s : Scan) where
  abbrev written : List ℕ
  written = write_level s.i f reading s.buf

  note_last :
      s.i + 1 ≡ 16
      → note_level f reading s
        ≡ record s { i = 0; buf = written; fw = (enqueue specan written s.fw).1 }
  unfolding note_level
  note_last last = rw last refl

  note_more : s.i + 1 < 16 → note_level f reading s ≡ record s { i = s.i + 1; buf = written }
  unfolding note_level
  note_more more =
      let e : u8 (s.i + 1) ≡ s.i + 1 = omega arith in
      let ne : ((s.i + 1) == 16) ≡ false = ground arith in rw (e, ne) refl

fill :
    (levels : List (ℕ × ℕ)) (s : Scan) (pre rest : List ℕ)
    → s.buf ≡ pre ++ rest
    → length pre ≡ 3 * s.i
    → s.i + length levels ≡ 16
    → s.i < 16
    → 3 * length levels ≤ length rest
    → Full levels s pre
unfolding note_levels
fill [] s pre rest hb hp full more long = absurd (omega arith)
fill (l ∷ levels) s pre [] hb hp full more long = absurd (omega arith)
fill (l ∷ levels) s pre (a ∷ []) hb hp full more long = absurd (omega arith)
fill (l ∷ levels) s pre (a ∷ b ∷ []) hb hp full more long = absurd (omega arith)
fill ((f, reading) ∷ []) s pre (a ∷ b ∷ c ∷ rest) hb hp full more long = record {
  buf = written f reading s;
  rest = rest;
  queued = note_last f reading s (omega arith);
  holds = ap (write_level s.i f reading) hb ∙ write_level-append s.i f reading pre a b c rest hp;
  long = length-write_level s.i f reading s.buf;
}
fill ((f, reading) ∷ l ∷ levels) s pre (a ∷ b ∷ c ∷ rest) hb hp full more long =
    let cell = cells ((f, reading) ∷ []) in
    let s' = record s { i = s.i + 1; buf = written f reading s } in
    let hb' : s'.buf ≡ (pre ++ cell) ++ rest =
      ap (write_level s.i f reading) hb
      ∙ write_level-append s.i f reading pre a b c rest hp
      ∙ sym (append_assoc pre cell rest) in
    let hp' : length (pre ++ cell) ≡ 3 * (s.i + 1) = omega (arith, length-append pre cell) in
    let next =
      fill (l ∷ levels) s' (pre ++ cell) rest hb' hp' (omega arith) (omega arith) (omega arith) in
    record {
      buf = next.buf;
      rest = next.rest;
      queued = ap (note_levels (l ∷ levels)) (note_more f reading s (omega arith)) ∙ next.queued;
      holds = next.holds ∙ append_assoc pre cell (cells (l ∷ levels) ++ next.rest);
      long = next.long ∙ length-write_level s.i f reading s.buf;
    }

-- The line for a level, read at its own frequency.
abbrev pub row_of : (clk100ns : ℕ) → ℕ × ℕ → Output
row_of clk100ns (f, reading) = row clk100ns f (u8 (reading >>> 8))

abbrev pub IsFrequency : ℕ × ℕ → Type 0
IsFrequency l = l.0 < 65536

two_bytes : (f : ℕ) → f < 65536 → u16 (bit_or (bit_and (f >>> 8) 0xff <<< 8) (bit_and f 0xff)) ≡ f
two_bytes f h =
    let lo : bit_and f 255 ≡ f % 256 = and-mask 8 f in
    let hi : bit_and (f >>> 8) 255 ≡ f / 256 = and-mask 8 (f >>> 8) ∙ omega arith in
    let joined = or_fields 8 (f / 256) (f % 256) (omega arith) in
    rw (hi, lo) (ap u16 joined ∙ omega arith)

-- The level at the place `j` of a payload.
module _ (pre : List ℕ) (f reading j : ℕ) (rest : List ℕ) (here : length pre ≡ j) where
  abbrev bytes : List ℕ
  bytes = pre ++ (cells ((f, reading) ∷ []) ++ rest)

  read_back : f < 65536 → (frequency_at bytes j ≡ f) × (get_or bytes (j + 2) 0 ≡ u8 (reading >>> 8))
  unfolding frequency_at
  read_back h =
      let behind = cells ((f, reading) ∷ []) ++ rest in
      let hi : get_or bytes j 0 ≡ bit_and (f >>> 8) 0xff =
        ap (λ (k : ℕ). get_or bytes k 0) (omega arith) ∙ get_or-append pre behind 0 j 0 here in
      (
        rw (hi, get_or-append pre behind 1 j 0 here) (two_bytes f h),
        get_or-append pre behind 2 j 0 here,
      )

print_rows :
    (levels : List (ℕ × ℕ)) (takes : ℕ → Bool) (high_freq : ℕ) (p : Packet) (pre rest : List ℕ)
    (j : ℕ)
    → All IsFrequency levels
    → p.payload ≡ pre ++ (cells levels ++ rest)
    → length pre ≡ j
    → print_blocks (length levels) takes high_freq 0 p j ≡ map (row_of p.clk100ns) levels
unfolding print_blocks
print_rows [] takes high_freq p pre rest j ok held here = refl
print_rows ((f, reading) ∷ levels) takes high_freq p pre rest j (h, ok) held here =
    let cell = cells ((f, reading) ∷ []) in
    let behind = cells levels ++ rest in
    let read = read_back pre f reading j behind here h in
    let frequency : frequency_at p.payload j ≡ f = rw held read.0 in
    let level : get_or p.payload (j + 2) 0 ≡ u8 (reading >>> 8) = rw held read.1 in
    let next =
      print_rows levels takes high_freq p (pre ++ cell) rest (j + 3) ok
        (held ∙ sym (append_assoc pre cell behind)) (omega (arith, length-append pre cell)) in
    rw (frequency, level, next) refl

-- What becomes of the packet that sixteen levels fill.
pub record Shown (levels : List (ℕ × ℕ)) (s : Scan) (lines : Packet → List Output) (p : Packet)
    : Type 0 where
  pub queued : contents (note_levels levels s).fw.queue ≡ contents s.fw.queue ++ (p ∷ [])
  pub starts_again : (note_levels levels s).i ≡ 0
  pub shown : lines p ≡ map (row_of (clk100ns_of s.fw.clock)) levels

module _ (levels : List (ℕ × ℕ)) (s : Scan) (packets : RingBuffer) (takes : ℕ → Bool) where
  -- From the start of a buffer, where the ring of packets has room, sixteen levels of a band are
  -- queued as one packet, and scanning starts on the next buffer. Where the host adds that packet to
  -- its last ones and prints to the standard output, it prints the sixteen levels in their order, each
  -- with the time of the packet, its own frequency and the high byte that was read.
  pub note_levels-cb_specan :
      (args : List ℕ)
      → length levels ≡ 16
      → All IsFrequency levels
      → s.i ≡ 0
      → length s.buf ≡ 50
      → IsValid s.fw.queue
      → length (contents s.fw.queue) < 127
      → IsRing packets
      → get_or args 2 0 ≡ specan_stdout
      → (p : Packet) × Shown levels s (λ p. cb_specan takes args (ringbuffer_add packets p)) p
  unfolding stamp cb_specan
  note_levels-cb_specan args sixteen ok start long valid room ring to_stdout =
      let full =
        fill levels s [] s.buf refl (omega arith) (omega arith) (omega arith) (omega arith) in
      let q = enqueue-Queued specan full.buf s.fw valid room in
      let p = stamp s.fw specan full.buf (stale s.fw.queue) in
      let held : p.payload ≡ cells levels ++ full.rest =
        take_whole 50 full.buf (omega (arith, full.long)) ∙ full.holds in
      let high = u16 (bit_or (get_or args 0 0) (get_or args 1 0 <<< 8)) in
      let rows = print_rows levels takes high p [] full.rest 0 ok held refl in
      let top = (ringbuffer_add_shifts packets p 0 ring (omega arith)).0 in
      (
        p,
        record {
          queued = ap (λ (t : Scan). contents t.fw.queue) full.queued ∙ q.held;
          starts_again = ap (λ (t : Scan). t.i) full.queued;
          shown =
              rw (top, to_stdout)
                (ap (λ (n : ℕ). print_blocks n takes high 0 p 0) (sym sixteen) ∙ rows);
        },
      )
