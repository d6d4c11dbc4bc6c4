-- ===== src/Submit/Ledger.antt =====
-- The accounts of the pending shares of src/stratum_rpc.cpp: one per id, and how each operation moves it.
use primo_arm_miner.Prelude.{
  ℕ, ◌+◌, ◌≤◌, ◌<◌, ◌≡◌, sym, ap, ◌∙◌, ◌⊎◌, Bool, true, false, ◌&&◌, Option, none, some, ◌==◌,
  if◌then◌else◌, arith, update,
}
use primo_arm_miner.Prelude.Int.{ℤ}
use primo_arm_miner.Submit.{
  PendingSubmit, SubmitState, entry, stratum_submit_id_next, submit_id_timeout_seconds,
  submit_id_reserve, submit_id_release, submit_id_take_metadata,
}
use primo_arm_miner.Submit.Slots.{
  lookup, Absent, Distinct, metadata, unless_stale, lookup-take, take-found, lookup-release,
}
use primo_arm_miner.Submit.Table.{lookup-Absent, take-Distinct, release-take}
use primo_arm_miner.Submit.Send.{submit_id_reserve_lem}

-- The state, the ids that a thread drew and has not tried to reserve yet, what each id was reserved
-- with, and how often a reply was matched with it.
pub record Ledger (D : Type 0) : Type 0 where
  pub state : SubmitState D
  pub drawn : ℕ → Bool
  pub sent : ℕ → Option (D × ℤ)
  pub answers : ℕ → ℕ

module _ {D : Type 0} where
  abbrev pub draw : Ledger D → Ledger D
  draw w =
      let (s, id) = stratum_submit_id_next w.state in
      record w { state = s; drawn = update w.drawn id true }

  abbrev pub reserve : (now timeout id : ℕ) → D → ℤ → Ledger D → Ledger D
  reserve now timeout id d t w =
      let (s, stored) = submit_id_reserve now timeout id d t w.state in
      record w {
        state = s;
        drawn = update w.drawn id false;
        sent = update w.sent id (if stored then some (d, t) else none);
      }

  abbrev pub release : ℕ → Ledger D → Ledger D
  release id w = record w { state = submit_id_release id w.state }

  abbrev pub one_if : Option (D × ℤ) → ℕ
  one_if none = 0
  one_if (some x) = 1

  abbrev pub reply : ℕ → Ledger D → Ledger D
  reply id w =
      let (s, found) = submit_id_take_metadata id w.state in
      record w { state = s; answers = update w.answers id (w.answers id + one_if found) }

module _ {D : Type 0} where
  -- The account of an id: not drawn yet, drawn, pending with its own data, or done with.
  abbrev pub Account : ℕ → Bool → Option (PendingSubmit D) → ℕ → Option (D × ℤ) → ℕ → Type 0
  Account next drawn held answers sent j =
      ((next ≤ j) × (drawn ≡ false) × (held ≡ none) × (answers ≡ 0))
      ⊎ (((j < next) × (drawn ≡ true) × (held ≡ none) × (answers ≡ 0))
          ⊎ (((j < next) × (drawn ≡ false) × (answers ≡ 0) × (metadata held ≡ sent))
              ⊎ ((j < next) × (drawn ≡ false) × (held ≡ none) × (answers ≤ 1))))

  abbrev pub AccountOf : Ledger D → ℕ → Type 0
  AccountOf w j =
      Account w.state.next_submit_id (w.drawn j) (lookup j w.state.pending_submits) (w.answers j)
        (w.sent j) j

  pub record Accounted (w : Ledger D) : Type 0 where
    pub distinct : Distinct w.state.pending_submits
    pub started : 10 ≤ w.state.next_submit_id
    pub account : (j : ℕ) → AccountOf w j

  next_eq :
      (s : SubmitState D)
      → 10 ≤ s.next_submit_id
      → s.next_submit_id < 4294967295
      → stratum_submit_id_next s
        ≡ (record s { next_submit_id = s.next_submit_id + 1 }, s.next_submit_id)
  unfolding stratum_submit_id_next
  next_eq s low room = ground arith

  draw-Account :
      (next j answers : ℕ) (drawn : Bool) (held : Option (PendingSubmit D)) (sent : Option (D × ℤ))
      → Account next drawn held answers sent j
      → Account (next + 1) (if next == j then true else drawn) held answers sent j
  draw-Account next j answers drawn held sent h = ground arith

  pub draw-Accounted :
      (w : Ledger D) → w.state.next_submit_id < 4294967295 → Accounted w → Accounted (draw w)
  draw-Accounted w room v = rw (next_eq w.state v.started room) (record {
    distinct = v.distinct;
    started = omega (arith, v.started);
    account = λ j. draw-Account _ j _ _ _ _ (v.account j);
  })

  reserve-Account :
      (now timeout id next j answers : ℕ) (d : D) (t : ℤ) (stored drawn : Bool)
      (held : Option (PendingSubmit D)) (sent : Option (D × ℤ))
      → (id ≡ j → drawn ≡ true)
      → Account next drawn held answers sent j
      → Account next
          (if id == j then false else drawn)
          (if stored && id == j then some (entry now id d t) else unless_stale now timeout held)
          answers
          (if id == j then (if stored then some (d, t) else none) else sent)
          j
  reserve-Account now timeout id next j answers d t stored drawn none sent own h =
      ground (arith, own)
  reserve-Account now timeout id next j answers d t stored drawn (some p) sent own h =
      ground (arith, own)

  take-Account :
      (id next j before answers : ℕ) (drawn : Bool) (held found : Option (PendingSubmit D))
      (sent : Option (D × ℤ))
      → (id ≡ j → (found ≡ held) × (before ≡ answers))
      → Account next drawn held answers sent j
      → Account next drawn
          (if id == j then none else held)
          (if id == j then before + one_if (metadata found) else answers)
          sent
          j
  take-Account id next j before answers drawn none none sent same h = ground (arith, same)
  take-Account id next j before answers drawn none (some q) sent same h = ground (arith, same)
  take-Account id next j before answers drawn (some p) none sent same h = ground (arith, same)
  take-Account id next j before answers drawn (some p) (some q) sent same h = ground (arith, same)

  absent :
      (w : Ledger D) (id : ℕ) → Accounted w → w.drawn id ≡ true → Absent id w.state.pending_submits
  absent w id v own = lookup-Absent id w.state.pending_submits (ground (arith, v.account id))

  pub reserve-Accounted :
      (now timeout id : ℕ) (d : D) (t : ℤ) (w : Ledger D)
      → w.drawn id ≡ true
      → Accounted w
      → Accounted (reserve now timeout id d t w)
  reserve-Accounted now timeout id d t w own v =
      let x = submit_id_reserve_lem now timeout id d t w.state v.distinct (absent w id v own) in
      record {
        distinct = x.distinct;
        started = rw x.next_same v.started;
        account = λ j.
            rw (x.map_eq j, x.next_same)
              (reserve-Account now (submit_id_timeout_seconds timeout) id _ j _ d t _ _ _ _
                (λ e. ap w.drawn (sym e) ∙ own) (v.account j));
      }

  pub reply-Accounted : (id : ℕ) (w : Ledger D) → Accounted w → Accounted (reply id w)
  unfolding submit_id_take_metadata
  reply-Accounted id w v =
      let slots = w.state.pending_submits in
      record {
        distinct = take-Distinct id slots v.distinct;
        started = v.started;
        account = λ j.
            rw (lookup-take id slots j v.distinct, take-found id slots)
              (take-Account id _ j _ _ _ (lookup j slots) (lookup id slots) _
                (λ e. (ap (λ i. lookup i slots) e, ap w.answers e)) (v.account j));
      }

  release-Account :
      (id next j answers : ℕ) (drawn : Bool) (held : Option (PendingSubmit D))
      (sent : Option (D × ℤ))
      → Account next drawn held answers sent j
      → Account next drawn (if id == j then none else held) answers sent j
  release-Account id next j answers drawn held sent h = ground arith

  pub release-Accounted : (id : ℕ) (w : Ledger D) → Accounted w → Accounted (release id w)
  unfolding submit_id_release
  release-Accounted id w v =
      let slots = w.state.pending_submits in
      record {
        distinct = rw (release-take id slots) (take-Distinct id slots v.distinct);
        started = v.started;
        account = λ j.
            rw (lookup-release id slots j v.distinct)
              (release-Account id _ j _ _ _ _ (v.account j));
      }
