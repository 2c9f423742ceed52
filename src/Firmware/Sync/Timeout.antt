-- ===== src/Firmware/Sync/Timeout.antt =====
-- When bt_le_sync gives a connection up.
use codetooth.Prelude.{
  ℕ, ◌+◌, ◌%◌, ◌<◌, ◌≡◌, refl, sub32, ltb, ◌==◌, if◌then◌else◌, Bool, true, false, ◌&&◌, ◌||◌,
  arith,
}
use codetooth.Le.State.{listening}
use codetooth.Firmware.State.{Firmware, Mode, clk100ns_of}
use codetooth.Firmware.Follow.{set_access_address, reset_le}
use codetooth.Firmware.Sync.{
  Turn, is_linked, is_promisc_mode, jam_once, rolled_over, timed_out, give_up, check_timeout,
}

-- The period of CLK100NS.
abbrev pub clk_period : ℕ
clk_period = 3276800000

pub elapsed_lem :
    (t e : ℕ)
    → e < clk_period
    → let last = t % clk_period in
      let now = (t + e) % clk_period in sub32 (rolled_over now last) last ≡ e
elapsed_lem t e small = ground arith

-- Where the last packet was received at the time t and it is e later, in units of 100 ns and less
-- than a period of CLK100NS, the loop gives up exactly when the link is connected or about to be and
-- e is more than five seconds, or when jamming has counted down to 1: a reading of CLK100NS that
-- started again in between makes no difference.
pub timed_out_lem :
    (t e : ℕ) (s : Firmware)
    → e < clk_period
    → s.le.last_packet ≡ t % clk_period
    → clk100ns_of s.clock ≡ (t + e) % clk_period
    → timed_out s ≡ (is_linked s.le.link_state && ltb 50000000 e || s.le_jam_count == 1)
unfolding timed_out
timed_out_lem t e s small last now = rw (last, now, elapsed_lem t e small) refl

-- What a turn of the loop leaves: the same state, or a link that is reset to advertising, with the
-- jamming over.
pub record Given (up : Bool) (active_mode : Mode) (saved : ℕ) (s t : Firmware) (turn : Turn)
    : Type 0 where
  pub stays : up ≡ false → (turn ≡ Turn.goes_on) × (t ≡ s)
  pub readdressed : up ≡ true → t.le.access_address ≡ 0x8e89bed6
  pub hops_no_more : up ≡ true → t.radio.do_hop ≡ false
  pub jammed : up ≡ true → t.le_jam_count ≡ 0
  pub listens :
      turn ≡ Turn.restarts
      → (t.le.link_state ≡ listening)
        × (t.radio.channel ≡ (if saved == 0 then 2402 else saved))
        × (t.requested_mode ≡ s.requested_mode)
  pub ends_once :
      up ≡ true → s.jam_mode ≡ jam_once → (turn ≡ Turn.leaves) × (t.requested_mode ≡ Mode.idle)
  pub goes_on_listening :
      up ≡ true
      → (s.jam_mode == jam_once) ≡ false
      → is_promisc_mode active_mode ≡ false
      → turn ≡ Turn.restarts
  pub back_to_promisc : up ≡ true → is_promisc_mode active_mode ≡ true → turn ≡ Turn.leaves

-- check_timeout changes nothing unless the loop gives up. Then the link has the access address of
-- advertising, no hop is due and no jamming left; after jamming once the mode asked for is idle and the loop ends;
-- in promiscuous mode it ends; otherwise it goes on listening, on the channel that the host asked
-- for or else 2402, in the same mode.
pub check_timeout-Given :
    (active_mode : Mode) (saved : ℕ) (s : Firmware)
    → let after = check_timeout active_mode saved s in
      Given (timed_out s) active_mode saved s after.1 after.0
unfolding check_timeout give_up reset_le set_access_address
check_timeout-Given active_mode saved s = ground arith
