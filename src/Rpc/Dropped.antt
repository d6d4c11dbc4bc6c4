-- ===== src/Rpc/Dropped.antt =====
-- What stratum_disconnect of src/stratum_session.cpp leaves of a session.
use primo_arm_miner.Prelude.{◌≡◌, refl, false, none, arith, All, All-replicate, length-replicate, ℕ}
use primo_arm_miner.Prelude.Int.{pos}
use primo_arm_miner.Json.{Jansson}
use primo_arm_miner.Publish.{stratum_copy_work, stratum_reset_work_state}
use primo_arm_miner.Submit.{PendingSubmit, max_pending_submits, stratum_reset_session_runtime}
use primo_arm_miner.Job.{stratum_free_job}
use primo_arm_miner.Peer.{Settings, Peer, stratum_disconnect}
use primo_arm_miner.Rpc.Layouts.{SessionFits}

module _ {D : Type 0} {j : Jansson} where
  -- No work is published, the job is gone, no share waits for its reply, and the session is neither
  -- connected nor authenticated.
  pub record Closed (p' : Peer D j) : Type 0 where
    pub no_work : stratum_copy_work p'.runtime ≡ none
    pub no_job : p'.ctx.job.job_id ≡ none
    pub no_shares : All (λ (s : PendingSubmit D). s.used ≡ false) p'.books.submits.pending_submits
    pub disconnected : p'.books.submits.connected ≡ false
    pub not_authenticated : p'.ctx.authenticated ≡ false

  -- The session is closed; the totals of the shares, the lines that were sent and the extra nonces are kept.
  pub record Dropped (p p' : Peer D j) : Type 0 where
    pub closed : Closed p'
    pub same_totals : p'.books.stats ≡ p.books.stats
    pub same_accepted : p'.books.thread_accepted ≡ p.books.thread_accepted
    pub same_rejected : p'.books.thread_rejected ≡ p.books.thread_rejected
    pub same_outbox : p'.outbox ≡ p.outbox
    pub same_xnonce1 : p'.ctx.xnonce1 ≡ p.ctx.xnonce1
    pub same_xnonce2_size : p'.ctx.xnonce2_size ≡ p.ctx.xnonce2_size

module _ {D : Type 0} {j : Jansson} (c : Settings D j) where
  pub disconnect-Dropped : (p : Peer D j) → Dropped p (stratum_disconnect c p)
  unfolding stratum_disconnect stratum_free_job stratum_reset_work_state stratum_copy_work
      stratum_reset_session_runtime
  disconnect-Dropped p = record {
    closed = record {
      no_work = refl;
      no_job = refl;
      no_shares =
          All-replicate (λ (s : PendingSubmit D). s.used ≡ false) max_pending_submits
            (record { id = 0; sharediff = c.zero; thread_id = pos 0; queued_at = 0; used = false })
            refl;
      disconnected = refl;
      not_authenticated = refl;
    };
    same_totals = refl;
    same_accepted = refl;
    same_rejected = refl;
    same_outbox = refl;
    same_xnonce1 = refl;
    same_xnonce2_size = refl;
  }

  pub disconnect-SessionFits :
      (p : Peer D j) → SessionFits p.ctx → SessionFits (stratum_disconnect c p).ctx
  unfolding stratum_disconnect stratum_free_job
  disconnect-SessionFits p (layout, _, _, _) =
      (layout, tt, omega arith, length-replicate {A = ℕ} 1344 0)
