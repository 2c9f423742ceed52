-- ===== src/Firmware/Symbols/Found.antt =====
-- An empty data packet on the air, as cb_le_promisc hears it.
use codetooth.Prelude.{
  ℕ, zero, suc, ◌+◌, ◌-◌, ◌*◌, ◌/◌, ◌%◌, ◌<◌, ◌≡◌, refl, ap, ◌∙◌, ◌==◌, ==_iff, true, List, [], ◌∷◌,
  ◌++◌, get_or, take, drop, length, arith,
}
use codetooth.Prelude.Table.{all_below, all_below_sound}
use codetooth.Usb.Packet.{Packet, le_packet}
use codetooth.Usb.Queue.Refine.{IsValid, contents}
use codetooth.Firmware.Enqueue.{stamp}
use codetooth.Firmware.State.{Firmware, Promisc}
use codetooth.Firmware.Promisc.{see_aa}
use codetooth.Firmware.Enqueue.Laws.{stale, enqueue-Queued, enqueue-Untouched}
use codetooth.Firmware.Sync.{be_word}
use codetooth.Firmware.Sync.Words.{be_word_lem}
use codetooth.Firmware.Symbols.{gather, gather_plain_bytes}
use codetooth.Firmware.Symbols.Empty.{
  desired, whiten_bits, whiten_desired, starts_with, any_match, empty_packet, see_packet, look_at,
}
use native.Mathlib.Nat.{suc-add, zero-add}

-- The symbols of a byte on the air, the lowest bit first, before others.
abbrev pub symbols_of : (b : ℕ) → List ℕ → List ℕ
symbols_of b rest =
    b % 2
    ∷ b / 2 % 2
    ∷ b / 4 % 2
    ∷ b / 8 % 2
    ∷ b / 16 % 2
    ∷ b / 32 % 2
    ∷ b / 64 % 2
    ∷ b / 128 % 2
    ∷ rest

symbols_table : all_below 256 (λ b. gather 8 0 0 (symbols_of b []) == b) ≡ true
unfolding all_below gather
symbols_table = refl

pub gather-symbols_of : (b : ℕ) (rest : List ℕ) → b < 256 → gather 8 0 0 (symbols_of b rest) ≡ b
unfolding gather
gather-symbols_of b rest h = (==_iff _ b).0 (all_below_sound 256 _ b symbols_table h)

drop-append {ℓ} :
    {A : Type ℓ} (xs ys : List A) (n : ℕ) → drop (length xs + n) (xs ++ ys) ≡ drop n ys
drop-append [] ys n = ap (λ k. drop k ys) (zero-add n)
drop-append (x ∷ xs) ys n =
    ap (λ k. drop k (x ∷ (xs ++ ys))) (suc-add (length xs) n) ∙ drop-append xs ys n

starts_with-append : (bits rest : List ℕ) → starts_with (bits ++ rest) bits ≡ true
unfolding starts_with
starts_with-append [] rest = refl
starts_with-append (bit ∷ bits) rest =
    let same : (bit == bit) ≡ true = (==_iff bit bit).1 refl in
    rw (same) (starts_with-append bits rest)

-- One of the patterns is what the symbols start with.
any_match-one :
    (idx : ℕ) (symbols : List ℕ) (patterns : List (List ℕ)) (j : ℕ)
    → j < length patterns
    → starts_with symbols (whiten_bits idx (get_or patterns j [])) ≡ true
    → any_match symbols (whiten_desired idx patterns) ≡ true
unfolding any_match whiten_desired
any_match-one idx symbols [] j below starts = absurd (omega arith)
any_match-one idx symbols (bits ∷ others) zero below starts = ground (arith, starts)
any_match-one idx symbols (bits ∷ others) (suc j) below starts =
    ground (arith, any_match-one idx symbols others j)

-- The symbols of an address and of a whitened header, and then anything.
abbrev pub air : (idx : ℕ) (rest : List ℕ) (b0 b1 b2 b3 j : ℕ) → List ℕ
air idx rest b0 b1 b2 b3 j =
    symbols_of b0 (
      symbols_of b1 (symbols_of b2 (symbols_of b3 (whiten_bits idx (get_or desired j []) ++ rest))))

module _ (idx : ℕ) (before rest idle_rxbuf : List ℕ) (b0 b1 b2 b3 j : ℕ) (s : Firmware)
    (h0 : b0 < 256) (h1 : b1 < 256) (h2 : b2 < 256) (h3 : b3 < 256) (known : j < 4) where
  at_header :
      drop (length before + 32) (before ++ (air idx rest b0 b1 b2 b3 j))
      ≡ whiten_bits idx (get_or desired j []) ++ rest
  at_header = drop-append before (air idx rest b0 b1 b2 b3 j) 32

  at_address :
      drop (length before + 32 - 32) (before ++ (air idx rest b0 b1 b2 b3 j))
      ≡ air idx rest b0 b1 b2 b3 j
  at_address =
      ap (λ k. drop k (before ++ (air idx rest b0 b1 b2 b3 j)))
        (let e : length before + 32 - 32 ≡ length before + 0 = omega arith in e)
      ∙ drop-append before (air idx rest b0 b1 b2 b3 j) 0

  heard :
      any_match
        (drop (length before + 32) (before ++ (air idx rest b0 b1 b2 b3 j)))
        (whiten_desired idx desired)
      ≡ true
  heard =
      any_match-one idx (drop (length before + 32) (before ++ (air idx rest b0 b1 b2 b3 j))) desired
        j (omega arith)
        (rw at_header (starts_with-append (whiten_bits idx (get_or desired j [])) rest))

  spelled_by : take 4 (gather_plain_bytes 4 (air idx rest b0 b1 b2 b3 j)) ≡ b0 ∷ b1 ∷ b2 ∷ b3 ∷ []
  unfolding gather_plain_bytes
  spelled_by i =
      gather-symbols_of b0 [] h0 i
      ∷ gather-symbols_of b1 [] h1 i
      ∷ gather-symbols_of b2 [] h2 i
      ∷ gather-symbols_of b3 [] h3 i
      ∷ []

  abbrev found : List ℕ
  found = empty_packet idx (length before + 32) (before ++ (air idx rest b0 b1 b2 b3 j)) idle_rxbuf

  spelled : take 4 found ≡ b0 ∷ b1 ∷ b2 ∷ b3 ∷ []
  unfolding empty_packet gather_plain_bytes
  spelled = ap (λ symbols. take 4 (gather_plain_bytes 4 symbols)) at_address ∙ spelled_by

  address_found :
      be_word (get_or found 3 0) (get_or found 2 0) (get_or found 1 0) (get_or found 0 0)
      ≡ b0 + 256 * b1 + 65536 * b2 + 16777216 * b3
  unfolding empty_packet gather_plain_bytes
  address_found =
      ap
        (λ (front : List ℕ).
          be_word (get_or front 3 0) (get_or front 2 0) (get_or front 1 0) (get_or front 0 0))
        spelled
      ∙ be_word_lem b3 b2 b1 b0 h2 h1 h0
      ∙ omega arith

  table_counts :
      (packet : List ℕ) (aa : ℕ)
      → be_word (get_or packet 3 0) (get_or packet 2 0) (get_or packet 1 0) (get_or packet 0 0) ≡ aa
      → (see_packet packet s).promisc.active_aa ≡ see_aa aa s.promisc.active_aa
  unfolding see_packet
  table_counts packet aa e =
      let seen =
        be_word (get_or packet 3 0) (get_or packet 2 0) (get_or packet 1 0) (get_or packet 0 0) in
      let counted : Firmware = record s {
        promisc = record (s.promisc) { active_aa = see_aa seen s.promisc.active_aa };
      } in
      ap (λ (p : Promisc). p.active_aa) (enqueue-Untouched le_packet packet counted).promisc
      ∙ ap (λ (a : ℕ). see_aa a s.promisc.active_aa) e

  -- Where the ring of packets has room, and the symbols are those of a word of four bytes and then,
  -- whitened as on this channel, the header of an empty data packet with any NESN and SN, the search at
  -- that header counts that word as an access address, and queues one packet, whose payload starts with
  -- the four bytes.
  pub look_at-finds :
      IsValid s.queue
      → length (contents s.queue) < 127
      → let r =
          look_at idx
            (length before + 32)
            (before ++ (air idx rest b0 b1 b2 b3 j))
            (idle_rxbuf, s) in
        (p : Packet) × (contents r.1.queue ≡ contents s.queue ++ (p ∷ []))
        × (take 4 p.payload ≡ b0 ∷ b1 ∷ b2 ∷ b3 ∷ [])
        × (r.1.promisc.active_aa
            ≡ see_aa (b0 + 256 * b1 + 65536 * b2 + 16777216 * b3) s.promisc.active_aa)
  unfolding look_at see_packet stamp empty_packet gather_plain_bytes
  look_at-finds valid room =
      let seen =
        be_word (get_or found 3 0) (get_or found 2 0) (get_or found 1 0) (get_or found 0 0) in
      let counted : Firmware = record s {
        promisc = record (s.promisc) { active_aa = see_aa seen s.promisc.active_aa };
      } in
      let q = enqueue-Queued le_packet found counted valid room in
      rw heard (
        stamp counted le_packet found (stale s.queue),
        q.held,
        spelled,
        table_counts found _ address_found,
      )
