-- ===== src/Soem/Errors.antt =====
-- soem/ethercatmain.c: the ring buffer of errors and the flag `ecaterror`, up to
-- `ecx_mbxemergencyerror`.
pub mod Queue
mod Tests
use bharatiya_beagle_bone.Common.{
  ℕ, ◌+◌, ◌%◌, Bool, true, false, ltb, ◌==◌, not, if◌then◌else◌, List, get_or, set, u8,
}

abbrev pub ec_maxelist : ℕ
ec_maxelist = 64

-- ec_err_type
pub data ErrType : Type 0 where
  sdo_error emergency packet_error sdoinfo_error foe_error foe_buf2small foe_packetnumber soe_error
        mbx_error foe_file_notfound eoe_invalid_rx_data :
      ErrType

-- The union of ec_errort: an abort code, or the codes of a packet and of an emergency message.
pub data Detail : Type 0 where
  abort_code : ℕ → Detail
  codes : (error_code error_reg b1 w1 w2 : ℕ) → Detail

-- ec_errort
pub record ErrorEntry : Type 0 where
  pub time : ℕ
  pub signal : Bool
  pub slave : ℕ
  pub index : ℕ
  pub subidx : ℕ
  pub etype : ErrType
  pub detail : Detail

-- A cell that `memset` has cleared.
abbrev pub no_error : ErrorEntry
no_error = record {
  time = 0;
  signal = false;
  slave = 0;
  index = 0;
  subidx = 0;
  etype = sdo_error;
  detail = abort_code 0;
}

-- ec_eringt, and `*ecaterror`
pub record ErrorList : Type 0 where
  pub head : ℕ
  pub tail : ℕ
  pub cells : List ErrorEntry
  pub ecaterror : Bool

-- One place on, and back to the start behind the last.
unfoldable pub ring_next : ℕ → ℕ
ring_next i = if ltb ec_maxelist (i + 1) then 0 else i + 1

abbrev pub signalled : Bool → ErrorEntry → ErrorEntry
signalled b e = record e { signal = b }

unfoldable pub pusherror : ErrorEntry → ErrorList → ErrorList
unfolding ring_next
pusherror e l =
    let head = ring_next l.head in
    let tail = if head == l.tail then l.tail + 1 else l.tail in
    record {
      head = head;
      tail = if ltb ec_maxelist tail then 0 else tail;
      cells = set l.cells l.head (signalled true e);
      ecaterror = true;
    }

unfoldable pub iserror : ErrorList → Bool
iserror l = not (l.head == l.tail)

-- The result, the error that is copied out, and the list.
unfoldable pub poperror : ErrorList → Bool × ErrorEntry × ErrorList
unfolding iserror ring_next
poperror l =
    let e = get_or l.cells l.tail no_error in
    let cells = set l.cells l.tail (signalled false e) in
    (
      iserror l,
      e,
      if iserror l
          then record l { cells = cells; tail = ring_next l.tail }
          else record l { cells = cells; ecaterror = false },
    )

-- The three ways in which the library reports an error, at the time of the clock.
unfoldable pub packeterror : ℕ → ℕ → ℕ → ℕ → ℕ → ErrorList → ErrorList
unfolding pusherror
packeterror now slave index subidx error_code l =
    pusherror
      (record {
        time = now;
        signal = false;
        slave = slave;
        index = index;
        subidx = subidx;
        etype = packet_error;
        detail = codes error_code 0 0 0 0;
      })
      (record l { ecaterror = true })

unfoldable pub mbxerror : ℕ → ℕ → ℕ → ErrorList → ErrorList
unfolding pusherror
mbxerror now slave error_detail l =
    pusherror
      (record {
        time = now;
        signal = false;
        slave = slave;
        index = 0;
        subidx = 0;
        etype = mbx_error;
        detail = codes error_detail 0 0 0 0;
      })
      l

unfoldable pub mbxemergencyerror : ℕ → ℕ → ℕ → ℕ → ℕ → ℕ → ℕ → ErrorList → ErrorList
unfolding pusherror
mbxemergencyerror now slave error_code error_reg b1 w1 w2 l =
    pusherror
      (record {
        time = now;
        signal = false;
        slave = slave;
        index = 0;
        subidx = 0;
        etype = emergency;
        detail = codes error_code (u8 error_reg) b1 w1 w2;
      })
      l
