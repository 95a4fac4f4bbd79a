-- ===== src/TicketStore.antt =====
-- ticketstore.go: what the stores and the server share.
use lottery_search_system.Prelude.{ℕ, Bool, true, false}

pub data Status : Type 0 where
  available reserved sold : Status

pub data StoreError : Type 0 where
  not_held lease_expired ticket_not_found : StoreError

-- What Confirm and Release return: a nil error, one of the three, or an error of the database behind
-- them.
pub data Answer : Type 0 where
  done : Answer
  failed : StoreError → Answer
  troubled : Answer

-- Times are counted in the clock's ticks.
pub record Reservation : Type 0 where
  pub ticket_id : ℕ
  pub number : ℕ
  pub lease_until : ℕ

abbrev pub is_reserved : Status → Bool
is_reserved available = false
is_reserved reserved = true
is_reserved sold = false

abbrev pub is_sold : Status → Bool
is_sold available = false
is_sold reserved = false
is_sold sold = true
