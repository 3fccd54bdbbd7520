-- ===== src/Core/Modbus/Link.antt =====
-- packages/core/src/core/adapters/modbus_tcp.py: the link of the adapter to its device, with its
-- health and the backoff of its reconnections. Whether the client is connected and how an attempt
-- to connect ends are arguments, and so are the clocks.
pub mod Backoff
mod Tests
use edge_ems.Prelude.{Bool, true, false, ◌&&◌, Option, none, some, ℕ, suc, String, if◌then◌else◌}
use edge_ems.Float.{Float, ◌+◌, ◌*◌, ltb, min}

-- how `connect` ends; a failure has the text of its exception
pub data Attempt : Type 0 where
  joined : Attempt
  failed : String → Attempt

pub record AdapterHealth (F : Type 0) : Type 0 where
  pub connected : Bool
  pub consecutive_failures : ℕ
  pub last_ok_ts : Option F
  pub last_error : Option String

pub record Link (F : Type 0) : Type 0 where
  pub has_client : Bool
  pub health : AdapterHealth F
  pub backoff : F
  pub max_backoff : F
  pub next_attempt : F

module _ {F : Type 0} ⦃d : Float F⦄ where
  unfoldable pub new : F → Link F
  new max_backoff = record {
    has_client = false;
    health = record {
      connected = false;
      consecutive_failures = 0;
      last_ok_ts = none;
      last_error = none;
    };
    backoff = d.one;
    max_backoff = max_backoff;
    next_attempt = d.nought;
  }

  unfoldable pub record_ok : Link F → F → Link F
  record_ok l clock = record l {
    health = record (l.health) {
      connected = true;
      consecutive_failures = 0;
      last_ok_ts = some clock;
    };
  }

  unfoldable pub record_failure : Link F → String → Link F
  record_failure l error = record l {
    health = record (l.health) {
      connected = false;
      consecutive_failures = suc l.health.consecutive_failures;
      last_error = some error;
    };
  }

  -- The client is there from the first attempt on, whether it connects or not.
  unfoldable pub connect : Link F → Attempt → Link F × Attempt
  connect l joined =
      (record l { has_client = true; health = record (l.health) { connected = true } }, joined)
  connect l (failed error) = (record l { has_client = true }, failed error)

  unfoldable pub disconnect : Link F → Link F
  disconnect l = record l { has_client = false; health = record (l.health) { connected = false } }

  -- an attempt of `_ensure_connected`
  abbrev pub retry : Link F × Attempt → F → Link F × Bool
  retry (l, joined) now = (record l { backoff = d.one }, true)
  retry (l, failed error) now = (
    record (record_failure l error) {
      next_attempt = now + l.backoff;
      backoff = min (l.backoff * d.dec 2 0) l.max_backoff;
    },
    false,
  )

  unfoldable pub ensure_connected : Link F → Bool → F → Attempt → Link F × Bool
  ensure_connected l alive now attempt =
      if l.has_client && alive
      then (l, true)
      else if ltb now l.next_attempt
      then (l, false)
      else retry (connect l attempt) now
