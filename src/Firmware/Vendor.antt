-- ===== src/Firmware/Vendor.antt =====
-- vendor_request_handler: what each request of the host does. The switch is modelled in four parts,
-- each of which hands a request that it does not have to the next.
pub mod Commands
pub mod Control
pub mod Le
pub mod Piconet
pub mod Tuning
pub mod Board
pub mod Refusal
pub mod Reply
pub mod Invariant
pub mod Silent
pub mod Roundtrip
pub mod Transport
pub mod Words
use codetooth.Prelude.{ℕ, Option, none, some, List, [], ◌∷◌}
use codetooth.Firmware.Device.{Device, Build, Hardware}
use codetooth.Firmware.Vendor.Commands.{Request, request_of}
use codetooth.Firmware.Vendor.Control.{Exchange, Answer, refuse}
use codetooth.Firmware.Vendor.Board.{board_requests}

-- `default: return 0` for a number beyond the enumeration.
abbrev pub answer_to : Build → Hardware → Option Request → List ℕ → Exchange → Device → Answer
answer_to b h none ps x d = refuse x d
answer_to b h (some request) ps x d = board_requests b h request ps x d

unfoldable pub vendor_request_handler :
    Build → Hardware → (request : ℕ) (request_params : List ℕ) → Exchange → Device → Answer
vendor_request_handler b h request request_params x d =
    answer_to b h (request_of request) request_params x d
