-- ===== src/Host/RingBuffer.antt =====
-- ubertooth_ringbuffer.c: the last ten packets received, and their symbols.
pub mod Laws
use codetooth.Prelude.{
  ℕ, zero, suc, ◌+◌, ◌%◌, bit_and, ◌<<<◌, ◌>>>◌, List, [], ◌∷◌, ◌++◌, get_or, set,
}
use codetooth.Usb.Packet.{Packet}
use codetooth.Usb.Queue.{blank}

abbrev pub num_banks : ℕ
num_banks = 10

-- `usb` and `bt` have `num_banks` entries each.
pub record RingBuffer : Type 0 where
  pub current_bank : ℕ
  pub usb : List Packet
  pub bt : List (List ℕ)

-- One byte for each symbol of a byte, the highest bit first.
pub unpack_byte : (left j byte : ℕ) → List ℕ
unpack_byte zero j byte = []
unpack_byte (suc left) j byte = bit_and (byte <<< j) 0x80 >>> 7 ∷ unpack_byte left (j + 1) byte

pub unpack_symbols : (buf : List ℕ) → List ℕ
unfolding unpack_byte
unpack_symbols [] = []
unpack_symbols (byte ∷ bytes) = unpack_byte 8 0 byte ++ unpack_symbols bytes

-- What malloc hands out is `memory`.
unfoldable pub ringbuffer_init : (memory : RingBuffer) → RingBuffer
ringbuffer_init memory = record memory { current_bank = 0 }

abbrev pub bank : RingBuffer → ℕ → ℕ
bank rb index = (rb.current_bank + 1 + index) % num_banks

unfoldable pub ringbuffer_get_usb : RingBuffer → (index : ℕ) → Packet
ringbuffer_get_usb rb index = get_or rb.usb (bank rb index) blank

unfoldable pub ringbuffer_get_bt : RingBuffer → (index : ℕ) → List ℕ
ringbuffer_get_bt rb index = get_or rb.bt (bank rb index) []

-- The packet is copied to the top bank, and unpacked from there.
unfoldable pub ringbuffer_add : RingBuffer → Packet → RingBuffer
unfolding unpack_symbols
ringbuffer_add rb rx =
    let moved = record rb { current_bank = (rb.current_bank + 1) % num_banks } in
    record moved {
      usb = set rb.usb (bank moved 9) rx;
      bt = set rb.bt (bank moved 9) (unpack_symbols rx.payload);
    }
