-- ===== src/Host/Control/Readings.antt =====
-- What the host reads of the device: the channel, the revision of the firmware, the squelch, and the
-- packets that it polls.
use codetooth.Prelude.{
  ℕ, zero, suc, min, ◌==◌, ◌+◌, ◌-◌, ◌≤◌, ◌<◌, ◌≡◌, refl, ap, ◌∙◌, u8, false, List, [], ◌∷◌, ◌++◌,
  length, length-take, take-append, take, drop, arith,
}
use codetooth.Firmware.Device.{Device, Build, Hardware}
use codetooth.Firmware.Vendor.Control.{reply}
use codetooth.Firmware.Vendor.Tuning.{tuning_requests, counted_string}
use codetooth.Firmware.Vendor.Board.{board_requests}
use codetooth.Firmware.Vendor.{vendor_request_handler}
use codetooth.Firmware.Vendor.Commands.{Request}
use codetooth.Firmware.Vendor.Transport.{usb_vendor_request_handler}
use codetooth.Host.Control.Transfer.{value, Outcome, Libusb, done}
use codetooth.Host.Control.Requests.{in_request}
use codetooth.Host.Control.Settings.{bytes_text, text_len, rev_text, cmd_get_rev_num}
use codetooth.Host.Control.Carried.{Carries}

-- Where the transfer is at least as long as its header and the string of the caller holds from 1 to
-- 255 bytes, the number of bytes that are copied is the smallest of those that came, those that are
-- counted, and those that leave room for a 0 behind them.
pub text_len_lem :
    (header r len counted : ℕ)
    → header ≤ r
    → 0 < len
    → len < 256
    → text_len header r len counted ≡ min (r - header) (min (len - 1) counted)
unfolding text_len
text_len_lem header r len counted h1 h2 h3 = ground arith

-- Where a transfer ends within the header, 253 bytes at least are copied, whatever the string holds.
pub text_len-short :
    (header r len counted : ℕ) → header ≤ 3 → r < header → 253 ≤ text_len header r len counted
unfolding text_len
text_len-short header r len counted h1 h2 = ground arith

-- The first `m` of more that were copied, with anything behind them.
take-take-append {ℓ} :
    {A : Type ℓ} (xs ys : List A)
    → (m k : ℕ) → m ≤ k
    → k ≤ length xs
    → take m (take k xs ++ ys) ≡ take m xs
take-take-append xs ys zero k h1 h2 = refl
take-take-append xs ys (suc m) zero h1 h2 = absurd (omega arith)
take-take-append [] ys (suc m) (suc k) h1 h2 = absurd (omega arith)
take-take-append (x ∷ xs) ys (suc m) (suc k) h1 h2 =
    ap (λ r. x ∷ r) (take-take-append xs ys m k (omega arith) (omega arith))

-- A reply of GET_REV_NUM with `k` letters of the revision, copied to the string.
copied :
    (revision stack : List ℕ) (len k : ℕ) (d : Device)
    → 0 < len
    → len < 256
    → k < 256
    → k ≤ length revision
    → rev_text len (
      record { r = value (3 + k); buffer = (0 ∷ 0 ∷ k ∷ take k revision) ++ drop (3 + k) stack },
      d,
    )
      ≡ done (bytes_text (take (min (len - 1) k) revision)) [] d
unfolding rev_text
copied revision stack len k d h1 h2 h3 h4 =
    let n : text_len 3 (3 + k) len k ≡ min (len - 1) k =
      text_len_lem 3 (3 + k) len k (omega arith) h1 h2 ∙ ground arith in
    let not_old : (3 + k == 2) ≡ false = ground arith in
    rw (not_old, n)
      (ap (λ (xs : List ℕ). done (bytes_text xs) [] d)
        (take-take-append revision (drop (3 + k) stack) (min (len - 1) k) k (ground arith) h4))

-- The outcome of a transfer that asks for 258 bytes and gets `k` letters behind their number.
replied_letters :
    (letters behind stack : List ℕ) (k : ℕ) (d : Device)
    → length letters ≡ k
    → k < 256
    → let head : List ℕ = 0 ∷ 0 ∷ k ∷ letters in
      let n = min 258 (length head) in
      ◌≡◌ {A = Outcome × Device}
        (record { r = value n; buffer = take n (head ++ behind) ++ drop n stack }, d)
        (record { r = value (3 + k); buffer = head ++ drop (3 + k) stack }, d)
replied_letters letters behind stack k d e small =
    let head : List ℕ = 0 ∷ 0 ∷ k ∷ letters in
    let size : length head ≡ 3 + k = omega (arith, e) in
    let whole : min 258 (length head) ≡ 3 + k = ground (arith, size) in
    ap
      (λ (n : ℕ).
        let o : Outcome × Device =
          (record { r = value n; buffer = take n (head ++ behind) ++ drop n stack }, d) in
        o)
      whole
    ∙ ap
        (λ (front : List ℕ).
          let o : Outcome × Device =
            (record { r = value (3 + k); buffer = front ++ drop (3 + k) stack }, d) in
          o)
        (take-append head behind (3 + k) size)

module _ (b : Build) (h : Hardware) (usb : Libusb Device) (c : Carries b h usb) where
  abbrev letters_sent : ℕ
  letters_sent = u8 (length b.git_revision)

  letters_cut : length (take letters_sent b.git_revision) ≡ letters_sent
  letters_cut = length-take letters_sent b.git_revision ∙ ground arith

  rev_reply :
      (stack : List ℕ) (d : Device)
      → usb.control_transfer (in_request Request.get_rev_num 0 stack 258 1000) d ≡ (
        record {
          r = value (3 + letters_sent);
          buffer =
              (0 ∷ 0 ∷ letters_sent ∷ take letters_sent b.git_revision)
              ++ drop (3 + letters_sent) stack;
        },
        d,
      )
  unfolding usb_vendor_request_handler vendor_request_handler board_requests tuning_requests
      counted_string reply
  rev_reply stack d =
      let t = in_request Request.get_rev_num 0 stack 258 1000 in
      let letters = take letters_sent b.git_revision in
      c.asks t d refl refl
      ∙ replied_letters letters (drop (suc (suc (suc (length letters)))) (c.stale t d)) stack
          letters_sent d letters_cut (omega arith)

  -- On a bus that carries every transfer, the string of 1 to 255 bytes that the host fills with the
  -- revision of the firmware holds as much of its beginning as leaves room for a 0, and no more than
  -- the length of the revision modulo 256.
  pub cmd_get_rev_num-Read :
      (stack : List ℕ) (len : ℕ) (d : Device)
      → 0 < len
      → len < 256
      → cmd_get_rev_num usb stack len d
        ≡ done (bytes_text (take (min (len - 1) (u8 (length b.git_revision))) b.git_revision)) [] d
  unfolding cmd_get_rev_num
  cmd_get_rev_num-Read stack len d h1 h2 =
      ap (rev_text len) (rev_reply stack d)
      ∙ copied b.git_revision stack len letters_sent d h1 h2 (omega arith) (ground arith)
