-- ===== src/Rpc/Buffers.antt =====
-- The invariant of a session over any messages, and what follows for the next job.
use primo_arm_miner.Prelude.{
  ℕ, ◌/◌, ◌≤◌, ◌≡◌, refl, sym, ap, subst, Bool, Option, none, some, List, [], ◌∷◌, ◌++◌, arith,
  Bytes, codes, length, length-append, length-replicate, replicate, ltb, ◌==◌, if-choice,
  Option-cases, inl, inr,
}
use primo_arm_miner.Prelude.Options.{>>=-eq-some, result-eq}
use primo_arm_miner.Json.{Jansson, string_of, string_at}
use primo_arm_miner.Job.{StratumJob, StratumCtx}
use primo_arm_miner.Job.Decode.{hex2bin-Field}
use primo_arm_miner.Extranonce.{stratum_parse_extranonce, speaks_verus}
use primo_arm_miner.Extranonce.Layout.{stratum_parse_extranonce-Accepted, Accepted-Layout}
use primo_arm_miner.Standard.{StandardNotify, apply_standard_job_locked}
use primo_arm_miner.Redirect.{redirect_of, announced_height}
use primo_arm_miner.Standard.Apply.{apply_standard_job-Announced}
use primo_arm_miner.Verus.{verus_stratum_set_target, target_bits}
use primo_arm_miner.Peer.{
  MessageStatus, Sent, Settings, Peer, Moment, send_reply, stratum_set_difficulty,
  handle_set_target_method, stratum_reconnect, note_redirect,
}
use primo_arm_miner.Standard.{coinbase_prealloc}
use primo_arm_miner.RpcId.{stratum_parse_rpc_id}
use primo_arm_miner.Rpc.{
  unknown_method, find_handler, stratum_method_handlers, stratum_handle_method_value,
  stratum_handle_response_value, Method, notify, ping, set_difficulty, set_target, set_extranonce,
  reconnect, get_algo, get_version, show_message, handle_method, stratum_dispatch_json_message,
  set_job_height, take_height, shown, stratum_show_message,
}
use primo_arm_miner.Rpc.Dropped.{disconnect-SessionFits}
use primo_arm_miner.Rpc.Layouts.{IdFits, SessionFits, notify-SessionFits}

module _ {D : Type 0} {j : Jansson} (c : Settings D j) where
  send_reply-ctx :
      (m : Moment) (id : Option j.Value) (reply : j.Value → Sent j.Value) (p : Peer D j)
      → (send_reply m id reply p).0.ctx ≡ p.ctx
  unfolding send_reply
  send_reply-ctx m none reply p = refl
  send_reply-ctx m (some id) reply p =
      if-choice {A = Peer D j × Bool} (λ x. x.0.ctx ≡ p.ctx) (j.json_is_null (some id)) refl refl

  unknown-SessionFits :
      (m : Moment) (id : Option j.Value) (p : Peer D j)
      → SessionFits p.ctx
      → SessionFits (unknown_method m id p).0.ctx
  unfolding unknown_method
  unknown-SessionFits m none p h = h
  unknown-SessionFits m (some id) p h =
      if-choice {A = Peer D j × MessageStatus} (λ x. SessionFits x.0.ctx) (j.json_is_null (some id))
        h (subst SessionFits (sym (send_reply-ctx m (some id) Sent.method_error p)) h)

  height-SessionFits :
      (height : ℕ) (p : Peer D j) → SessionFits p.ctx → SessionFits (set_job_height height p).ctx
  unfolding set_job_height
  height-SessionFits height p h = elim (Option-cases p.ctx.job.job_id) [
    | inl e ↦ rw (e, set_job_height) h
    | inr (job_id, e) ↦ rw (e, set_job_height) h
  ]

  shown-SessionFits :
      (text : Option Bytes) (p : Peer D j) → SessionFits p.ctx → SessionFits (shown text p).ctx
  unfolding shown
  shown-SessionFits none p h = h
  shown-SessionFits (some text) p h = elim (Option-cases (announced_height text)) [
    | inl e ↦ rw (e, take_height) h
    | inr (height, e) ↦
        rw (e, take_height)
          (if-choice (λ (q : Peer D j). SessionFits q.ctx) (height == 0) h
            (height-SessionFits height p h))
  ]

  show_message-SessionFits :
      (m : Moment) (id params : Option j.Value) (p : Peer D j)
      → SessionFits p.ctx
      → SessionFits (stratum_show_message m id params p).0.ctx
  unfolding stratum_show_message
  show_message-SessionFits m none params p h = shown-SessionFits (string_at j params 0) p h
  show_message-SessionFits m (some id) params p h =
      let h' = shown-SessionFits (string_at j params 0) p h in
      if-choice {A = Peer D j × Bool} (λ x. SessionFits x.0.ctx) (j.json_is_null (some id)) h'
        (subst SessionFits
          (sym (send_reply-ctx m (some id) Sent.true_result (shown (string_at j params 0) p))) h')

  pub extranonce-SessionFits :
      (params : Option j.Value) (pndx : ℕ) (s s' : StratumCtx D)
      → SessionFits s
      → stratum_parse_extranonce c.opt_algo j params pndx s ≡ some s'
      → SessionFits s'
  extranonce-SessionFits params pndx s s' (_, id, blob, solution) e =
      let a = stratum_parse_extranonce-Accepted c.opt_algo j params pndx s s' e in
      let same = ap (λ (x : StratumCtx D). x.job) a.kept in
      (
        Accepted-Layout c.opt_algo j params pndx s s' a,
        subst (λ (x : StratumJob D). IdFits x.job_id) (sym same) id,
        subst (λ (x : StratumJob D). length x.rx_blob ≤ 256) (sym same) blob,
        subst (λ (x : StratumJob D). length x.solution ≡ 1344) (sym same) solution,
      )

  set_target-SessionFits :
      (params : Option j.Value) (s s' : StratumCtx D)
      → SessionFits s
      → verus_stratum_set_target c.verus_targets j params s ≡ some s'
      → SessionFits s'
  unfolding verus_stratum_set_target
  set_target-SessionFits params s s' h e =
      let (m, _, k) = >>=-eq-some (target_bits (string_at j params 0)) _ e in
      subst SessionFits (sym (result-eq k)) h

  method-SessionFits :
      (m : Moment) (method : Method) (id params : Option j.Value) (p : Peer D j)
      → SessionFits p.ctx
      → SessionFits (handle_method c m method id params p).0.ctx
  unfolding handle_method handle_set_target_method stratum_reconnect stratum_set_difficulty
  method-SessionFits m notify id params p h = notify-SessionFits c m params p h
  method-SessionFits m ping id params p h = subst SessionFits (sym (send_reply-ctx m id _ p)) h
  method-SessionFits m set_difficulty id params p h =
      if-choice {A = Peer D j × Bool} (λ x. SessionFits x.0.ctx)
        (c.is_positive (c.json_number_value (j.json_array_get params 0))) h h
  method-SessionFits m set_target id params p h =
      if-choice {A = Peer D j × MessageStatus} (λ x. SessionFits x.0.ctx)
        (speaks_verus c.opt_algo p.ctx)
        (elim (Option-cases (verus_stratum_set_target c.verus_targets j params p.ctx)) [
          | inl e ↦ rw e h
          | inr (ctx, e) ↦ rw e (set_target-SessionFits params p.ctx ctx h e)
        ])
        h
  method-SessionFits m set_extranonce id params p h =
      elim (Option-cases (stratum_parse_extranonce c.opt_algo j params 0 p.ctx)) [
        | inl e ↦ rw e h
        | inr (ctx, e) ↦ rw e (extranonce-SessionFits params 0 p.ctx ctx h e)
      ]
  method-SessionFits m reconnect id params p h =
      elim (Option-cases (redirect_of j c.use_tls params)) [
        | inl e ↦ rw (e, stratum_reconnect) h
        | inr (url, e) ↦
            rw (e, stratum_reconnect) (disconnect-SessionFits c (note_redirect c url p) h)
      ]
  method-SessionFits m get_algo id params p h = subst SessionFits (sym (send_reply-ctx m id _ p)) h
  method-SessionFits m get_version id params p h =
      subst SessionFits (sym (send_reply-ctx m id _ p)) h
  method-SessionFits m show_message id params p h = show_message-SessionFits m id params p h

  dispatch-SessionFits :
      (m : Moment) (val : Option j.Value) (p : Peer D j)
      → SessionFits p.ctx
      → SessionFits (stratum_dispatch_json_message c m val p).0.ctx
  unfolding stratum_dispatch_json_message stratum_handle_response_value stratum_handle_method_value
  dispatch-SessionFits m val p h = elim (Option-cases (string_of j val (codes "method"))) [
    | inl e ↦
        rw (e, stratum_dispatch_json_message)
          (elim (Option-cases (stratum_parse_rpc_id j (j.json_object_get val (codes "id")))) [
            | inl f ↦ rw (f, stratum_handle_response_value) h
            | inr (id, f) ↦
                rw (f, stratum_handle_response_value)
                  (if-choice {A = Peer D j × MessageStatus} (λ x. SessionFits x.0.ctx) (ltb id 10) h
                    h)
          ])
    | inr (method, e) ↦
        rw (e, stratum_dispatch_json_message)
          (elim (Option-cases (find_handler method stratum_method_handlers)) [
            | inl f ↦
                rw (f, stratum_handle_method_value)
                  (unknown-SessionFits m (j.json_object_get val (codes "id")) p h)
            | inr (handler, f) ↦
                rw (f, stratum_handle_method_value)
                  (method-SessionFits m handler (j.json_object_get val (codes "id"))
                    (j.json_object_get val (codes "params")) p h)
          ])
  ]

  -- The session after a row of messages, whatever their outcome.
  abbrev pub after_messages : List (Moment × Option j.Value) → Peer D j → Peer D j
  after_messages [] p = p
  after_messages ((m, val) ∷ messages) p =
      after_messages messages (stratum_dispatch_json_message c m val p).0

  -- From a session whose extra nonces, job id, RandomX blob and Verus solution fit the buffers of a work,
  -- any messages of the pool lead to such a session.
  pub messages-SessionFits :
      (messages : List (Moment × Option j.Value)) (p : Peer D j)
      → SessionFits p.ctx
      → SessionFits (after_messages messages p).ctx
  messages-SessionFits [] p h = h
  messages-SessionFits ((m, val) ∷ messages) p h =
      messages-SessionFits messages (stratum_dispatch_json_message c m val p).0
        (dispatch-SessionFits m val p h)

  -- After any messages, from a session that fits: the coinbase of a Bitcoin-style job that is applied next
  -- is at most as long as the buffer that was allocated for it.
  pub next_coinbase-le :
      (messages : List (Moment × Option j.Value)) (p : Peer D j)
      → (msg : StandardNotify j.Value) (merkle : List Bytes) (s' : StratumCtx D) → SessionFits p.ctx
      → apply_standard_job_locked msg merkle (after_messages messages p).ctx ≡ some s'
      → length s'.job.coinbase ≤ coinbase_prealloc msg.coinb1 msg.coinb2
  unfolding coinbase_prealloc
  next_coinbase-le messages p msg merkle s' h e =
      let s = (after_messages messages p).ctx in
      let layout = (messages-SessionFits messages p h).0 in
      let a = apply_standard_job-Announced msg merkle s s' e in
      let (n1, _) = hex2bin-Field msg.coinb1 (length msg.coinb1 / 2) a.head a.coinb1 in
      let (n2, _) = hex2bin-Field msg.coinb2 (length msg.coinb2 / 2) a.tail a.coinb2 in
      let zeros : Bytes = replicate s.xnonce2_size 0 in
      rw a.coinbase (
        omega (
          arith,
          length-append a.head (s.xnonce1 ++ (zeros ++ a.tail)),
          length-append s.xnonce1 (zeros ++ a.tail),
          length-append zeros a.tail,
          length-replicate {A = ℕ} s.xnonce2_size 0,
        ))
