-- ===== src/Host/RingBuffer/Laws.antt =====
-- The ring keeps the last packets in order.
use codetooth.Prelude.{
  ℕ, ◌+◌, ◌%◌, ◌<◌, ◌≡◌, ap, ◌∙◌, [], arith, length, get_or, get_or-set_self, get_or-set_ne,
}
use codetooth.Usb.Packet.{Packet}
use codetooth.Usb.Queue.{blank}
use codetooth.Host.RingBuffer.{
  RingBuffer, bank, unpack_symbols, ringbuffer_get_usb, ringbuffer_get_bt, ringbuffer_add,
}

pub record IsRing (rb : RingBuffer) : Type 0 where
  pub range : rb.current_bank < 10
  pub usb_banks : length rb.usb ≡ 10
  pub bt_banks : length rb.bt ≡ 10

-- After ringbuffer_add the top is the packet added, with its symbols unpacked, and every other
-- packet is where its successor was.
pub ringbuffer_add_shifts :
    (rb : RingBuffer) (rx : Packet) (i : ℕ)
    → IsRing rb
    → i < 9
    → let rb' = ringbuffer_add rb rx in
      (ringbuffer_get_usb rb' 9 ≡ rx)
      × (ringbuffer_get_bt rb' 9 ≡ unpack_symbols rx.payload)
      × (ringbuffer_get_usb rb' i ≡ ringbuffer_get_usb rb (i + 1))
      × (ringbuffer_get_bt rb' i ≡ ringbuffer_get_bt rb (i + 1))
unfolding ringbuffer_add ringbuffer_get_usb ringbuffer_get_bt
ringbuffer_add_shifts rb rx i h small = (
  get_or-set_self rb.usb top rx blank (omega arith),
  get_or-set_self rb.bt top (unpack_symbols rx.payload) [] (omega arith),
  get_or-set_ne rb.usb top _ rx blank (λ e. omega arith)
      ∙ ap (λ (k : ℕ). get_or rb.usb k blank) next,
  get_or-set_ne rb.bt top _ (unpack_symbols rx.payload) [] (λ e. omega arith)
      ∙ ap (λ (k : ℕ). get_or rb.bt k []) next,
)
  where
    new_bank : ℕ
    new_bank = (rb.current_bank + 1) % 10

    top : ℕ
    top = (new_bank + 1 + 9) % 10

    next : (new_bank + 1 + i) % 10 ≡ bank rb (i + 1)
    next = omega arith
