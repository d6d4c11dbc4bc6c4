-- ===== src/Session/Steps.antt =====
-- What the connection and the message loop leave of the globals: the slot stays hidden, and usable
-- pools stay usable.
use primo_arm_miner.Prelude.{
  ℕ, ◌≡◌, refl, Bool, true, false, Option, none, some, [], ◌∷◌, inl, inr, ◌&&◌, Bool-cases, arith,
  List, ◌∙◌, if-choice, Bytes,
}
use primo_arm_miner.Pools.{PoolInfos, usable_at, is_empty, stratum_set_url}
use primo_arm_miner.DevFee.{devfee_transition_due}
use primo_arm_miner.Session.{
  Session, Round, note_abort, note_reconnect, fill_url, set_pool, stratum_open_pool_connection,
  stratum_run_message_loop,
}
use primo_arm_miner.Service.{
  Heard, line, silence, Turn, redirected, follow_redirect, take_heard, message_turn, turns_from,
}

-- A pool that may stand in for another one.
pub record StandsIn (old new : PoolInfos) : Type 0 where
  pub configured : new.configured ≡ old.configured
  pub disabled : new.disabled ≡ old.disabled
  pub url : is_empty old.url ≡ false → is_empty new.url ≡ false

fill_url-StandsIn : (p : PoolInfos) → StandsIn p (fill_url p)
unfolding fill_url stratum_set_url
fill_url-StandsIn p = ground arith

redirected-StandsIn :
    (listed : Bool) (c : ℕ) (url : Bytes) (p : PoolInfos)
    → StandsIn p (redirected listed (c ∷ url) p)
unfolding redirected stratum_set_url
redirected-StandsIn listed c url p = ground arith

-- What a change of the current pool keeps.
pub record Undisturbed (s s' : Session) : Type 0 where
  pub current : s'.current ≡ s.current
  pub devfee : s'.globals.devfee ≡ s.globals.devfee
  pub num_pools : s'.globals.table.num_pools ≡ s.globals.table.num_pools
  pub disabled : (j : ℕ) → (s'.globals.table.pools j).disabled ≡ (s.globals.table.pools j).disabled
  pub usable : (j : ℕ) → usable_at s.globals.table j ≡ true → usable_at s'.globals.table j ≡ true

set_pool_usable :
    (i j : ℕ) (p : PoolInfos) (s : Session)
    → StandsIn (s.globals.table.pools i) p
    → usable_at s.globals.table j ≡ true
    → usable_at (set_pool i p s).globals.table j ≡ true
unfolding set_pool usable_at
set_pool_usable i j p s h u = ground arith

set_pool_disabled :
    (i j : ℕ) (p : PoolInfos) (s : Session)
    → StandsIn (s.globals.table.pools i) p
    → ((set_pool i p s).globals.table.pools j).disabled ≡ (s.globals.table.pools j).disabled
unfolding set_pool
set_pool_disabled i j p s h = ground arith

set_pool-Undisturbed :
    (i : ℕ) (p : PoolInfos) (s : Session)
    → StandsIn (s.globals.table.pools i) p
    → Undisturbed s (set_pool i p s)
unfolding set_pool
set_pool-Undisturbed i p s h = record {
  current = refl;
  devfee = refl;
  num_pools = refl;
  disabled = λ j. set_pool_disabled i j p s h;
  usable = λ j u. set_pool_usable i j p s h u;
}

Undisturbed-self : (s : Session) → Undisturbed s s
Undisturbed-self s = record {
  current = refl;
  devfee = refl;
  num_pools = refl;
  disabled = λ j. refl;
  usable = λ j u. u;
}

Undisturbed-trans : {a b c : Session} → Undisturbed a b → Undisturbed b c → Undisturbed a c
Undisturbed-trans v w = record {
  current = w.current ∙ v.current;
  devfee = w.devfee ∙ v.devfee;
  num_pools = w.num_pools ∙ v.num_pools;
  disabled = λ j. w.disabled j ∙ v.disabled j;
  usable = λ j u. w.usable j (v.usable j u);
}

-- A flag that is raised disturbs nothing.
raised : {s s' : Session} (b : Bool) → Undisturbed s s' → Undisturbed s (note_reconnect b s')
raised b v = record {
  current = v.current;
  devfee = v.devfee;
  num_pools = v.num_pools;
  disabled = v.disabled;
  usable = v.usable;
}

stopped : {s s' : Session} (b : Bool) → Undisturbed s s' → Undisturbed s (note_abort b s')
stopped b v = record {
  current = v.current;
  devfee = v.devfee;
  num_pools = v.num_pools;
  disabled = v.disabled;
  usable = v.usable;
}

-- Neither the connection nor the message loop moves the thread, changes the scheduler, or makes a
-- usable pool unusable.
pub open_pool-Undisturbed :
    (r : Round) (s : Session) → Undisturbed s (stratum_open_pool_connection r s).0
unfolding stratum_open_pool_connection
open_pool-Undisturbed r s =
    let pool = s.globals.table.pools s.current in
    elim (Bool-cases (is_empty pool.stratum_url && is_empty pool.url)) [
      | inl e ↦ rw e (Undisturbed-self s)
      | inr e ↦ rw e (set_pool-Undisturbed s.current (fill_url pool) s (fill_url-StandsIn pool))
    ]

follow_redirect-Undisturbed :
    (redirect : Option Bytes) (s : Session) → Undisturbed s (follow_redirect redirect s)
unfolding follow_redirect
follow_redirect-Undisturbed none s = Undisturbed-self s
follow_redirect-Undisturbed (some []) s = Undisturbed-self s
follow_redirect-Undisturbed (some (c ∷ url)) s = raised true (
    set_pool-Undisturbed s.current _ s
      (redirected-StandsIn _ c url (s.globals.table.pools s.current)))

heard-Undisturbed :
    (r : Round) (now : ℕ) (h : Heard) (s : Session) → Undisturbed s (take_heard r now h s).0
unfolding take_heard
heard-Undisturbed r now (line redirect handled) s = follow_redirect-Undisturbed redirect s
heard-Undisturbed r now (silence timed_out silent_for pinged) s = Undisturbed-self s

turn-Undisturbed : (r : Round) (t : Turn) (s : Session) → Undisturbed s (message_turn r t s).0
unfolding message_turn
turn-Undisturbed r t s =
    let halted = note_abort t.abort s in
    let s' = note_reconnect t.reconnect halted in
    let at_halt = stopped t.abort (Undisturbed-self s) in
    let before = raised t.reconnect at_halt in
    let keeps = λ (out : Session × Bool). Undisturbed s out.0 in
    if-choice keeps halted.aborted {x = (halted, false)} at_halt (
      if-choice keeps (s'.reconnect_requested s'.current) {x = (s', false)} before (
        if-choice keeps (devfee_transition_due t.due_at s'.globals.devfee) {x = (s', false)} before
          (Undisturbed-trans before (heard-Undisturbed r t.deadline_at t.heard s'))))

turns-Undisturbed : (r : Round) (ts : List Turn) (s : Session) → Undisturbed s (turns_from r ts s)
unfolding turns_from
turns-Undisturbed r [] s = Undisturbed-self s
turns-Undisturbed r (t ∷ ts) s =
    let (s', go_on) = message_turn r t s in
    let here = turn-Undisturbed r t s in
    if-choice (λ (out : Session). Undisturbed s out) go_on {x = turns_from r ts s'} {y = s'}
      (Undisturbed-trans here (turns-Undisturbed r ts s')) here

pub message_loop-Undisturbed :
    (r : Round) (s : Session) → Undisturbed s (stratum_run_message_loop r s)
unfolding stratum_run_message_loop
message_loop-Undisturbed r s = turns-Undisturbed r r.turns s
