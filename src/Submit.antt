-- ===== src/Submit.antt =====
-- src/stratum_rpc.cpp: the table of the shares that were sent and not yet answered, by the id of the
-- request. Every operation holds submit_lock while it reads or writes the table, so a run is a
-- sequence of these functions. A share's difficulty is a double that is stored and handed back, never
-- computed with here: its type is a parameter.
pub mod Slots
pub mod Table
pub mod Ledger
pub mod Trace
pub mod Send
mod Tests
use primo_arm_miner.Prelude.{
  ℕ, ◌+◌, ◌-◌, ◌%◌, Bool, true, false, not, ◌&&◌, ◌||◌, Option, none, some, List, [], ◌∷◌, ltb, leb,
  ◌==◌, if◌then◌else◌, replicate,
}
use primo_arm_miner.Prelude.Int.{ℤ, pos}

-- include/miner.h
pub record PendingSubmit (D : Type 0) : Type 0 where
  pub id : ℕ
  pub sharediff : D
  pub thread_id : ℤ
  pub queued_at : ℕ
  pub used : Bool

abbrev pub max_pending_submits : ℕ
max_pending_submits = 256

-- What these functions use of a struct stratum_ctx; `shut_down` says that the socket was shut down.
pub record SubmitState (D : Type 0) : Type 0 where
  pub next_submit_id : ℕ
  pub pending_submits : List (PendingSubmit D)
  pub reconnect_requested : Bool
  pub connected : Bool
  pub shut_down : Bool

-- `(int)d < timeout` for a timeout that is not negative: a `d` beyond INT_MAX counts as negative.
abbrev pub int_lt : ℕ → ℕ → Bool
int_lt d timeout = leb 2147483648 (d % 4294967296) || ltb (d % 4294967296) timeout

-- `timeout > 0 ? timeout : 1`, of the pool's timeout.
pub submit_id_timeout_seconds : ℕ → ℕ
submit_id_timeout_seconds timeout = if ltb 0 timeout then timeout else 1

module _ {D : Type 0} where
  -- `used = false; queued_at = 0`.
  abbrev pub vacate : PendingSubmit D → PendingSubmit D
  vacate p = record p { used = false; queued_at = 0 }

  -- `used && id == ...`.
  abbrev pub holds : ℕ → PendingSubmit D → Bool
  holds id p = p.used && p.id == id

  -- The body of stratum_submit_id_next, on a 32-bit counter.
  unfoldable pub stratum_submit_id_next : SubmitState D → SubmitState D × ℕ
  stratum_submit_id_next s =
      let id = if ltb s.next_submit_id 10 then 10 else s.next_submit_id in
      (record s { next_submit_id = (id + 1) % 4294967296 }, id)

  -- The four guards of the reaping loop.
  unfoldable pub is_stale : ℕ → ℕ → PendingSubmit D → Bool
  is_stale now timeout p =
      p.used
      && not (p.queued_at == 0)
      && not (ltb now p.queued_at)
      && not (int_lt (now - p.queued_at) timeout)

  unfoldable pub submit_id_reap_stale : ℕ → ℕ → List (PendingSubmit D) → List (PendingSubmit D) × ℕ
  submit_id_reap_stale now timeout [] = ([], 0)
  submit_id_reap_stale now timeout (p ∷ slots) =
      let (rest, reaped) = submit_id_reap_stale now timeout slots in
      if is_stale now timeout p then (vacate p ∷ rest, reaped + 1) else (p ∷ rest, reaped)

  -- The loop of submit_id_reserve: the first free slot takes the entry.
  unfoldable pub store_first :
      PendingSubmit D → List (PendingSubmit D) → List (PendingSubmit D) × Bool
  store_first new [] = ([], false)
  store_first new (p ∷ slots) =
      let (rest, stored) = store_first new slots in
      if p.used then (p ∷ rest, stored) else (new ∷ slots, true)

  -- The loop of submit_id_release.
  unfoldable pub release_first : ℕ → List (PendingSubmit D) → List (PendingSubmit D)
  release_first id [] = []
  release_first id (p ∷ slots) =
      let rest = release_first id slots in if holds id p then vacate p ∷ slots else p ∷ rest

  -- The loop of submit_id_take_metadata; the outputs are left alone when nothing is found.
  unfoldable pub take_first : ℕ → List (PendingSubmit D) → List (PendingSubmit D) × Option (D × ℤ)
  take_first id [] = ([], none)
  take_first id (p ∷ slots) =
      let (rest, found) = take_first id slots in
      if holds id p then (vacate p ∷ slots, some (p.sharediff, p.thread_id)) else (p ∷ rest, found)

  unfoldable pub submit_id_request_reconnect : SubmitState D → SubmitState D
  submit_id_request_reconnect s =
      if s.reconnect_requested
      then s
      else record s { reconnect_requested = true; shut_down = s.shut_down || s.connected }

  -- The entry that submit_id_reserve writes.
  abbrev pub entry : ℕ → ℕ → D → ℤ → PendingSubmit D
  entry now id sharediff thread_id = record {
    id = id;
    sharediff = sharediff;
    thread_id = thread_id;
    queued_at = now;
    used = true;
  }

  unfoldable pub submit_id_reserve :
      (now timeout id : ℕ) → D → ℤ → SubmitState D → SubmitState D × Bool
  unfolding submit_id_timeout_seconds
  submit_id_reserve now timeout id sharediff thread_id s =
      let (kept, reaped) =
        submit_id_reap_stale now (submit_id_timeout_seconds timeout) s.pending_submits in
      let (slots, stored) = store_first (entry now id sharediff thread_id) kept in
      let s' = record s { pending_submits = slots } in
      (if ltb 0 reaped then submit_id_request_reconnect s' else s', stored)

  unfoldable pub submit_id_release : ℕ → SubmitState D → SubmitState D
  submit_id_release id s = record s { pending_submits = release_first id s.pending_submits }

  -- The lock is dropped between the reservation and the release: `between` is what the other threads do
  -- to the state while the line is sent, and `sent` is the outcome of stratum_send_line.
  unfoldable pub stratum_send_submit :
      (now timeout id : ℕ)
      → D
      → ℤ
      → (between : SubmitState D → SubmitState D) → (sent : Bool) → SubmitState D
      → SubmitState D × Bool
  stratum_send_submit now timeout id sharediff thread_id between sent s =
      let (s', stored) = submit_id_reserve now timeout id sharediff thread_id s in
      if not stored
      then (submit_id_request_reconnect s', false)
      else if not sent
      then (submit_id_release id (between s'), false)
      else (between s', true)

  unfoldable pub submit_id_take_metadata : ℕ → SubmitState D → SubmitState D × Option (D × ℤ)
  submit_id_take_metadata id s =
      let (slots, found) = take_first id s.pending_submits in
      (record s { pending_submits = slots }, found)

  -- memset: every slot is zero. `zero_diff` is the difficulty whose bytes are zero.
  abbrev pub zero_slots : D → List (PendingSubmit D)
  zero_slots zero_diff =
      replicate max_pending_submits
        (record { id = 0; sharediff = zero_diff; thread_id = pos 0; queued_at = 0; used = false })

  -- The part of stratum_reset_session_runtime (src/stratum_session.cpp) under submit_lock.
  unfoldable pub stratum_reset_session_runtime : D → SubmitState D → SubmitState D
  stratum_reset_session_runtime zero_diff s = record s {
    pending_submits = zero_slots zero_diff;
    next_submit_id = 10;
  }
