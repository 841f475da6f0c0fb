-- ===== src/Ota/Progress.antt =====
-- The reservation of the update worker and its progress (firmware/streamline/src/update/progress.rs), and
-- the restart of firmware/streamline/src/restart.rs. The atomics and the locked texts are fields;
-- `begin_load` and `begin_exchange` are the two atomic operations of the loop in `begin`.
pub mod Reservation
use esp32_streamline.Prelude.{
  ℕ, Bool, true, false, Option, none, some, Result, ok, err, List, [], ◌∷◌, ◌==◌, ◌||◌,
  if◌then◌else◌,
}
use esp32_streamline.Prelude.Bytes.{Text, bytes}

pub data Phase : Type 0 where
  idle checking up_to_date downloading verifying installed failed update_available : Phase

abbrev pub is_busy : Phase → Bool
is_busy checking = true
is_busy downloading = true
is_busy verifying = true
is_busy installed = true
is_busy _ = false

-- `phase as u8`.
abbrev to_u8 : Phase → ℕ
to_u8 idle = 0
to_u8 checking = 1
to_u8 up_to_date = 2
to_u8 downloading = 3
to_u8 verifying = 4
to_u8 installed = 5
to_u8 failed = 6
to_u8 update_available = 7

pub from_u8 : ℕ → Phase
from_u8 value =
    if value == 1
    then checking
    else (if value == 2
        then up_to_date
        else (if value == 3
            then downloading
            else (if value == 4
                then verifying
                else (if value == 5
                    then installed
                    else (if value == 6
                        then failed
                        else (if value == 7 then update_available else idle))))))

pub record OtaProgress : Type 0 where
  pub phase : ℕ
  pub written : ℕ
  pub total : ℕ
  latest_version : Text
  message : Text

abbrev pub new_progress : OtaProgress
new_progress = record { phase = 0; written = 0; total = 0; latest_version = []; message = [] }

pub record OtaSnapshot : Type 0 where
  pub phase : Phase
  bytes_written : ℕ
  bytes_total : ℕ
  latest_version : Text
  message : Text
  pub busy : Bool

pub snapshot : OtaProgress → OtaSnapshot
unfolding from_u8
snapshot p = record {
  phase = from_u8 p.phase;
  bytes_written = p.written;
  bytes_total = p.total;
  latest_version = p.latest_version;
  message = p.message;
  busy = is_busy (from_u8 p.phase);
}

-- Where a call of `begin` stands: the value that it read last, or its answer.
pub data Begin : Type 0 where
  read : ℕ → Begin
  answered : Bool → Begin

-- The check at the head of the loop.
pub begin_check : ℕ → Begin
unfolding from_u8
begin_check current = if is_busy (from_u8 current) then answered false else read current

pub begin_load : OtaProgress → Begin
unfolding begin_check
begin_load p = begin_check p.phase

-- The four stores after the exchange.
clear : OtaProgress → OtaProgress
clear p = record p { written = 0; total = 0; message = []; latest_version = [] }

-- `compare_exchange(current, Checking)`: on success the phase is taken, and on failure the loop goes on
-- with the value found.
pub begin_exchange : OtaProgress → ℕ → OtaProgress × Begin
unfolding begin_check
begin_exchange p current =
    if p.phase == current
    then (record p { phase = to_u8 checking }, answered true)
    else (p, begin_check p.phase)

pub set_phase : OtaProgress → Phase → OtaProgress
set_phase p phase = record p { phase = to_u8 phase }

unfoldable set_progress : OtaProgress → ℕ → ℕ → OtaProgress
set_progress p written total = record p { written = written; total = total }

unfoldable set_latest : OtaProgress → Text → OtaProgress
set_latest p version = record p { latest_version = version }

set_message : OtaProgress → Text → OtaProgress
set_message p message = record p { message = message }

fail : OtaProgress → Text → OtaProgress
unfolding set_phase set_message
fail p message = set_phase (set_message p message) failed

-- `begin` with no other caller in between: the first exchange succeeds.
begun : OtaProgress → Begin → OtaProgress × Bool
unfolding begin_exchange clear
begun p (answered granted) = (p, granted)
begun p (read current) = (clear (begin_exchange p current).0, true)

begin : OtaProgress → OtaProgress × Bool
unfolding begun begin_load
begin p = begun p (begin_load p)

-- `E` is `MutationError`, with its constructor and its text; the worker's start is the answer of the
-- closure.
module _ {E : Type 0} (conflict : Text → E) (to_text : E → Text) where
  abbrev pub start : OtaProgress → Result E (Unit {0}) → OtaProgress × Result E (Unit {0})
  unfolding begin fail
  start p started =
      let (p', granted) = begin p in
      if granted
      then elim started [ err e ↦ (fail p' (to_text e), err e) | ok _ ↦ (p', ok tt) ]
      else (p', err (conflict (bytes "an update is already in progress")))

-- `Restart.pending`.
pub record Restart : Type 0 where
  pub pending : Bool

unfoldable pub request : Restart → Restart
request r = record r { pending = true }

-- `prepare` is the answer of the closure; the control mutex is held throughout.
unfoldable request_when_idle :
    {E : Type 0} → Restart → OtaProgress → Result E (Unit {0}) → Restart × Result E Bool
unfolding snapshot request
request_when_idle r p prepared =
    if r.pending || (snapshot p).busy
    then (r, ok false)
    else elim prepared [ err e ↦ (r, err e) | ok _ ↦ (request r, ok true) ]
