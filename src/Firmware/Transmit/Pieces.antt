-- ===== src/Firmware/Transmit/Pieces.antt =====
-- The pieces in which le_transmit fills the buffer of the radio.
use codetooth.Prelude.{
  ℕ, zero, suc, ◌≤◌, ◌≡◌, refl, ap, ◌∙◌, List, [], ◌∷◌, ◌++◌, take, drop, length, length-drop,
  length-take, take-append-drop, All, arith,
}
use codetooth.Firmware.Transmit.{fifo_pieces}

pub joined : List (List ℕ) → List ℕ
joined [] = []
joined (p ∷ ps) = p ++ joined ps

-- With as many rounds as there are bytes or more, the pieces have at most 16 bytes each and make up
-- the buffer, in order.
pub fifo_pieces_whole :
    (fuel : ℕ) (buf : List ℕ)
    → length buf ≤ fuel
    → (joined (fifo_pieces fuel buf) ≡ buf) × All (λ p. length p ≤ 16) (fifo_pieces fuel buf)
unfolding fifo_pieces joined
fifo_pieces_whole zero [] enough = (refl, tt)
fifo_pieces_whole zero (b ∷ buf) enough = absurd (omega arith)
fifo_pieces_whole (suc fuel) [] enough = (refl, tt)
fifo_pieces_whole (suc fuel) (b ∷ buf) enough =
    let rest =
      fifo_pieces_whole fuel (drop 16 (b ∷ buf)) (omega (arith, length-drop 16 (b ∷ buf))) in
    (
      ap (λ l. take 16 (b ∷ buf) ++ l) rest.0 ∙ take-append-drop 16 (b ∷ buf),
      (omega (arith, length-take 16 (b ∷ buf)), rest.1),
    )
